-- ===== src/Agent/Rounds/Disk/Mounts.antt =====
-- The warnings for each mount point (cmd/agent/collector.go: streamDisk).
use vkr_public.Base.{
  ℕ, ◌+◌, String, ◌≡◌, refl, ◌∙◌, ap, sym, Bool, true, false, Option, none, some, List, [], ◌∷◌,
  ◌++◌, arith, ◌==◌, if◌then◌else◌, Bool-cases, inl, inr, Assoc, lookup,
}
use vkr_public.Float64.{Float64, FloatOps}
use vkr_public.Agent.Edge.{edge, edges}
use vkr_public.Agent.Edge.Alternation.{warnings, edges_start}
use vkr_public.Agent.Send.{Agent}
use vkr_public.Agent.Rounds.{
  Round, Partition, DiskUsage, Scan, disk_usage_step, disk_loop, disk_round,
}
use vkr_public.Agent.Rounds.Disk.Entries.{logs_for, logs_for-append, logs_for-send}
use vkr_public.Agent.Rounds.Disk.{
  DiskSample, disk_run, reading_of, readings_of, listed_of, readings_in, fires,
}
use vkr_public.Agent.Rounds.Disk.Steps.{flag_at, disk_usage_step-logs, disk_usage_step-flag}

-- The flag after some readings.
abbrev flag_after : List (Float64 × Float64) → Bool → Bool
flag_after [] flag = flag
flag_after ((threshold, percent) ∷ rest) flag = flag_after rest (edge threshold percent flag).0

-- What some readings of a mount point leave: one log entry for each edge that fires, and the flag.
abbrev Follows : String → List (Float64 × Float64) → (ℕ × Bool) → (ℕ × Bool) → Type 0
Follows mount readings (logs, flag) (logs', flag') =
    (logs' ≡ logs + fires (edges readings flag)) × (flag' ≡ flag_after readings flag)

abbrev scan_state : String → Scan → ℕ × Bool
scan_state mount scan = (logs_for mount scan.result.1, flag_at mount scan.warned)

fires_one : (b : Bool) → fires (b ∷ []) ≡ (if b then 1 else 0)
fires_one true = refl
fires_one false = refl

fires-append : (xs ys : List Bool) → fires (xs ++ ys) ≡ fires xs + fires ys
fires-append [] ys = omega arith
fires-append (true ∷ xs) ys = omega (arith, fires-append xs ys)
fires-append (false ∷ xs) ys = fires-append xs ys

edges-append :
    (xs ys : List (Float64 × Float64)) (flag : Bool)
    → edges (xs ++ ys) flag ≡ edges xs flag ++ edges ys (flag_after xs flag)
unfolding edges
edges-append [] ys flag = refl
edges-append ((threshold, percent) ∷ xs) ys flag =
    ap (λ bs. (edge threshold percent flag).1 ∷ bs)
      (edges-append xs ys (edge threshold percent flag).0)

flag_after-append :
    (xs ys : List (Float64 × Float64)) (flag : Bool)
    → flag_after (xs ++ ys) flag ≡ flag_after ys (flag_after xs flag)
flag_after-append [] ys flag = refl
flag_after-append ((threshold, percent) ∷ xs) ys flag =
    flag_after-append xs ys (edge threshold percent flag).0

Follows-append :
    (mount : String) (xs ys : List (Float64 × Float64)) (s t u : ℕ × Bool)
    → Follows mount xs s t
    → Follows mount ys t u
    → Follows mount (xs ++ ys) s u
Follows-append mount xs ys (n, b) (m, c) (k, d) (logs, flag) (logs', flag') = (
  rw
      (
        edges-append xs ys b,
        fires-append (edges xs b) (edges ys (flag_after xs b)),
        logs',
        logs,
        flag,
      )
      (omega arith),
  flag' ∙ rw flag (sym (flag_after-append xs ys b)),
)

disk_usage_step-Follows :
    (ops : FloatOps) (mount : String) (r : Round) (threshold : Float64) (p : Partition)
    (o : Option DiskUsage) (scan : Scan)
    → Follows mount
        (reading_of mount threshold p o)
        (scan_state mount scan)
        (scan_state mount (disk_usage_step ops r threshold p o scan))
unfolding edges
disk_usage_step-Follows ops mount r threshold p none scan =
    unfold disk_usage_step in (omega arith, refl)
disk_usage_step-Follows ops mount r threshold p (some u) scan =
    let one = disk_usage_step-logs ops mount r threshold p u scan in
    let set = disk_usage_step-flag ops mount r threshold p u scan in
    elim (Bool-cases (p.mountpoint == mount)) [
      | inl same ↦ rw same (
        (rw same at one) ∙ ap (λ n. logs_for mount scan.result.1 + n) (sym (fires_one _)),
        rw same at set,
      )
      | inr other ↦ rw other (rw other at one, rw other at set)
    ]

disk_loop-Follows :
    (ops : FloatOps) (mount : String) (r : Round) (threshold : Float64) (ps : List Partition)
    (scan : Scan)
    → Follows mount
        (readings_of mount threshold ps)
        (scan_state mount scan)
        (scan_state mount (disk_loop ops r threshold ps scan))
unfolding disk_loop edges
disk_loop-Follows ops mount r threshold [] scan = (omega arith, refl)
disk_loop-Follows ops mount r threshold (p ∷ ps) scan =
    let next = disk_usage_step ops r threshold p p.usage scan in
    Follows-append mount (reading_of mount threshold p p.usage) (readings_of mount threshold ps) _
      (scan_state mount next) _ (disk_usage_step-Follows ops mount r threshold p p.usage scan)
      (disk_loop-Follows ops mount r threshold ps next)

disk_round-Follows :
    (ops : FloatOps) (mount : String) (r : Round) (threshold : Float64)
    (o : Option (List Partition)) (warned : Assoc Bool) (a : Agent)
    → let (warned', (a', calls)) = disk_round ops r threshold o warned a in
      Follows mount
        (listed_of mount threshold o)
        (0, flag_at mount warned)
        (logs_for mount calls, flag_at mount warned')
unfolding disk_round edges
disk_round-Follows ops mount r threshold none warned a = (refl, refl)
disk_round-Follows ops mount r threshold (some ps) warned a =
    let start : Scan = record { warned = warned; batch = []; result = (a, []) } in
    let scan = disk_loop ops r threshold ps start in
    let (logs, flag) = disk_loop-Follows ops mount r threshold ps start in
    (
      rw (logs_for-append, logs_for-send mount r scan.batch scan.result.0) (omega (arith, logs)),
      flag,
    )

disk_run-logs :
    (ops : FloatOps) (mount : String) (xs : List DiskSample) (warned : Assoc Bool) (a : Agent)
    → logs_for mount (disk_run ops xs warned a).1
      ≡ fires (edges (readings_in mount xs) (flag_at mount warned))
unfolding disk_run edges
disk_run-logs ops mount [] warned a = refl
disk_run-logs ops mount (x ∷ xs) warned a =
    let pass = disk_round ops x.round x.threshold x.partitions warned a in
    let (logs, flag) = disk_round-Follows ops mount x.round x.threshold x.partitions warned a in
    let rest = disk_run-logs ops mount xs pass.0 pass.1.0 in
    let mine = listed_of mount x.threshold x.partitions in
    rw
      (
        logs_for-append,
        rest,
        edges-append mine (readings_in mount xs) (flag_at mount warned),
        fires-append (edges mine (flag_at mount warned))
            (edges (readings_in mount xs) (flag_after mine (flag_at mount warned))),
        logs,
        flag,
      )
      (omega arith)

-- In a run of the disk loop from its start, whatever becomes of its batches and of the other mount
-- points, the log entries about a mount point are as many as its readings that reach their threshold
-- when the last of its readings that was above or below its own, if there was one, was below it.
pub disk_run-warnings :
    (ops : FloatOps) (mount : String) (xs : List DiskSample) (a : Agent)
    → logs_for mount (disk_run ops xs [] a).1 ≡ fires (warnings [] (readings_in mount xs))
unfolding lookup
disk_run-warnings ops mount xs a =
    disk_run-logs ops mount xs [] a ∙ ap fires (edges_start (readings_in mount xs))
