-- ===== src/Agent/Rounds/Disk/Steps.antt =====
-- What one reading of a disk leaves (cmd/agent/collector.go: streamDisk).
use vkr_public.Base.{
  ℕ, ◌+◌, String, ◌≡◌, refl, ap, sym, Bool, true, false, some, arith, ◌==◌, ◌||◌, if◌then◌else◌,
  Bool-cases, inl, inr, Assoc, lookup, lookup-insert, eq_iff,
}
use vkr_public.Float64.{Float64, FloatOps, ltf}
use vkr_public.Agent.Edge.{edge}
use vkr_public.Agent.Rounds.{
  Round, Partition, DiskUsage, Scan, disk_usage_step, flag_of, disk_fields,
}
use vkr_public.Agent.Rounds.Disk.Entries.{
  field_of, names, logs_for, logs_for-append, logs_for-warn_if,
}

-- The flag of a mount point.
abbrev pub flag_at : String → Assoc Bool → Bool
flag_at mount warned = flag_of (lookup mount warned)

pub edge_still :
    (threshold sample : Float64) (warned : Bool)
    → ((edge threshold sample warned).1 || ltf sample threshold) ≡ false
    → (edge threshold sample warned).0 ≡ warned
unfolding edge
edge_still threshold sample warned h = ground arith

pub disk_fields-names :
    (ops : FloatOps) (mount : String) (r : Round) (p : Partition) (u : DiskUsage)
    → names mount (field_of (disk_fields ops r p u)) ≡ (if p.mountpoint == mount then 1 else 0)
unfolding lookup
disk_fields-names ops mount r p u = refl

-- Whether the reading fires, for its mount point.
abbrev pub fired : String → Float64 → DiskUsage → Assoc Bool → ℕ
fired mount threshold u warned =
    if (edge threshold u.used_percent (flag_at mount warned)).1 then 1 else 0

pub never : (b : Bool) (n : ℕ) → n ≡ 0 → (if b then n else 0) ≡ n
never true n h = refl
never false n h = sym h

pub own_mount :
    (mount : String) (threshold : Float64) (p : Partition) (u : DiskUsage) (warned : Assoc Bool)
    → (if (edge threshold u.used_percent (flag_at p.mountpoint warned)).1
        then (if p.mountpoint == mount then 1 else 0)
        else 0)
      ≡ (if p.mountpoint == mount then fired mount threshold u warned else 0)
own_mount mount threshold p u warned = elim (Bool-cases (p.mountpoint == mount)) [
  | inl same ↦
      rw same (ap (λ name. fired name threshold u warned) ((eq_iff p.mountpoint mount).0 same))
  | inr other ↦
      rw other (never (edge threshold u.used_percent (flag_at p.mountpoint warned)).1 0 refl)
]

pub disk_usage_step-logs :
    (ops : FloatOps) (mount : String) (r : Round) (threshold : Float64) (p : Partition)
    (u : DiskUsage) (scan : Scan)
    → logs_for mount (disk_usage_step ops r threshold p (some u) scan).result.1
      ≡ logs_for mount scan.result.1
        + (if p.mountpoint == mount then fired mount threshold u scan.warned else 0)
unfolding disk_usage_step
disk_usage_step-logs ops mount r threshold p u scan =
    rw (logs_for-append, logs_for-warn_if, disk_fields-names ops mount r p u)
      (ap (λ n. logs_for mount scan.result.1 + n) (own_mount mount threshold p u scan.warned))

pub disk_usage_step-flag :
    (ops : FloatOps) (mount : String) (r : Round) (threshold : Float64) (p : Partition)
    (u : DiskUsage) (scan : Scan)
    → flag_at mount (disk_usage_step ops r threshold p (some u) scan).warned ≡ (
        if p.mountpoint == mount
        then (edge threshold u.used_percent (flag_at mount scan.warned)).0
        else flag_at mount scan.warned)
unfolding disk_usage_step
disk_usage_step-flag ops mount r threshold p u scan =
    let before = flag_at p.mountpoint scan.warned in
    let (flag, fire) = edge threshold u.used_percent before in
    elim (Bool-cases (fire || ltf u.used_percent threshold)) [
      | inl wrote ↦ elim (Bool-cases (p.mountpoint == mount)) [
        | inl same ↦
            rw (wrote, lookup-insert, same)
              (ap (λ name. (edge threshold u.used_percent (flag_at name scan.warned)).0)
                ((eq_iff p.mountpoint mount).0 same))
        | inr other ↦ rw (wrote, lookup-insert, other) refl
      ]
      | inr left ↦ elim (Bool-cases (p.mountpoint == mount)) [
        | inl same ↦
            let name = (eq_iff p.mountpoint mount).0 same in
            rw (left, same) (sym (rw name at (edge_still threshold u.used_percent before left)))
        | inr other ↦ rw (left, other) refl
      ]
    ]
