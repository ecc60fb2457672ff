-- ===== src/Agent/Rounds/Cpu.antt =====
-- The loop of streamCPU (cmd/agent/collector.go), and what it logs while the collector answers.
use vkr_public.Base.{
  ℕ, String, ◌≡◌, refl, ◌∙◌, Bool, true, false, Option, none, some, List, [], ◌∷◌, ◌++◌, arith,
  if◌then◌else◌, ap, Option-cases, inl, inr,
}
use vkr_public.Float64.{Float64, FloatOps}
use vkr_public.Agent.Edge.{edge, edges}
use vkr_public.Agent.Edge.Alternation.{warnings, edges_start}
use vkr_public.Agent.Send.{Agent, Surroundings, Result, send}
use vkr_public.Agent.Send.Streak.{
  log_levels, send_log-levels, after_success-levels, log_levels-append,
}
use vkr_public.Agent.Rounds.{
  Round, warn_if, cpu_round, pt, host_labels, percent_message, value_fields,
}
use vkr_public.Agent.Client.{MetricPoint}
use vkr_public.Base.{StringMap}

-- A pass of the loop: the threshold and the number of CPUs of its moment, and the measurement.
pub record CpuSample : Type 0 where
  pub round : Round
  pub threshold : Float64
  pub counts : ℕ
  pub percent : Option Float64

unfoldable pub cpu_loop : FloatOps → List CpuSample → Bool → Agent → Result
unfolding cpu_round
cpu_loop ops [] warned a = (a, [])
cpu_loop ops (x ∷ xs) warned a =
    let (warned', (a', calls)) = cpu_round ops x.round x.threshold x.counts x.percent warned a in
    let (a'', more) = cpu_loop ops xs warned' a' in (a'', calls ++ more)

-- The measurements that succeeded, each with its threshold.
abbrev pub samples_of : List CpuSample → List (Float64 × Float64)
samples_of [] = []
samples_of (x ∷ xs) = elim x.percent [
  | none ↦ samples_of xs
  | some percent ↦ (x.threshold, percent) ∷ samples_of xs
]

abbrev pub warn_levels : List Bool → List String
warn_levels [] = []
warn_levels (fire ∷ fires) = if fire then "warn" ∷ warn_levels fires else warn_levels fires

-- Each batch of the run reaches the collector.
abbrev pub AllReach : List CpuSample → Type 0
AllReach [] = Unit
AllReach (x ∷ xs) = (x.round.outcome ≡ none) × AllReach xs

warn_if-levels :
    (b : Bool) (w : Surroundings) (message : String) (fields : StringMap) (a : Agent)
    → (log_levels (warn_if b w message fields a).1 ≡ (if b then "warn" ∷ [] else []))
      × ((warn_if b w message fields a).0.fail_count ≡ a.fail_count)
unfolding warn_if
warn_if-levels false w message fields a = (refl, refl)
warn_if-levels true w message fields a = send_log-levels w "warn" message a.session_id fields a

send-levels :
    (w : Surroundings) (fresh : String) (m : MetricPoint) (ms : List MetricPoint) (a : Agent)
    → a.fail_count ≡ 0
    → (log_levels (send w fresh m ms none a).1 ≡ []) × ((send w fresh m ms none a).0.fail_count ≡ 0)
unfolding send
send-levels w fresh m ms a h =
    let (levels, count) = after_success-levels w a (omega (arith, h)) in (levels ∙ rw h refl, count)

pub pass-levels :
    (w : Surroundings) (fresh : String) (m : MetricPoint) (ms : List MetricPoint) (b : Bool)
    (w' : Surroundings) (message : String) (fields : StringMap) (a : Agent)
    → a.fail_count ≡ 0
    → let sent = send w fresh m ms none a in
      let warned = warn_if b w' message fields sent.0 in
      (log_levels (sent.1 ++ warned.1) ≡ (if b then "warn" ∷ [] else []))
      × (warned.0.fail_count ≡ 0)
pass-levels w fresh m ms b w' message fields a h =
    let sent = send w fresh m ms none a in
    let (levels, count) = send-levels w fresh m ms a h in
    let (more, same) = warn_if-levels b w' message fields sent.0 in
    (rw (log_levels-append, levels) more, same ∙ count)

-- A measured pass logs a warning where the edge says so, and nothing else.
cpu_round-levels :
    (ops : FloatOps) (r : Round) (threshold percent : Float64) (counts : ℕ) (warned : Bool)
    (a : Agent)
    → r.outcome ≡ none
    → a.fail_count ≡ 0
    → let (warned', (a', calls)) = cpu_round ops r threshold counts (some percent) warned a in
      (warned' ≡ (edge threshold percent warned).0)
      × (log_levels calls ≡ (if (edge threshold percent warned).1 then "warn" ∷ [] else []))
      × (a'.fail_count ≡ 0)
unfolding cpu_round
cpu_round-levels ops r threshold percent counts warned a reached h =
    let (levels, count) =
      pass-levels r.sending r.fresh (pt "cpu_usage_percent" percent (host_labels r.sending) r.now a)
        (pt "cpu_count" (ops.of_uint counts) (host_labels r.sending) r.now a ∷ [])
        (edge threshold percent warned).1 r.warning
        (percent_message "high CPU usage: " (ops.text_1 percent))
        (value_fields r.warning (ops.text_1 percent)) a h in
    rw reached (refl, levels, count)

pub warn_levels-cons :
    (b : Bool) (fires : List Bool)
    → (if b then "warn" ∷ [] else []) ++ warn_levels fires ≡ warn_levels (b ∷ fires)
warn_levels-cons true fires = refl
warn_levels-cons false fires = refl

cpu_loop-levels :
    (ops : FloatOps) (xs : List CpuSample) (warned : Bool) (a : Agent)
    → AllReach xs
    → a.fail_count ≡ 0
    → log_levels (cpu_loop ops xs warned a).1 ≡ warn_levels (edges (samples_of xs) warned)
unfolding cpu_loop edges
cpu_loop-levels ops [] warned a reached h = refl
cpu_loop-levels ops (x ∷ xs) warned a (reached, others) h = elim (Option-cases x.percent) [
  | inl e ↦ rw e (unfold cpu_round in cpu_loop-levels ops xs warned a others h)
  | inr (percent, e) ↦
      let next = cpu_round ops x.round x.threshold x.counts (some percent) warned a in
      let (flag, levels, count) =
        cpu_round-levels ops x.round x.threshold percent x.counts warned a reached h in
      rw (e, log_levels-append, levels, cpu_loop-levels ops xs next.0 next.1.0 others count, flag)
        (warn_levels-cons (edge x.threshold percent warned).1
          (edges (samples_of xs) (edge x.threshold percent warned).0))
]

-- While every batch reaches the collector and none failed before, a run of the CPU loop logs
-- exactly one warning for each sample that reaches its threshold when the last sample above or
-- below its own, if there was one, was below it, and nothing else.
pub cpu_loop-warnings :
    (ops : FloatOps) (xs : List CpuSample) (a : Agent)
    → AllReach xs
    → a.fail_count ≡ 0
    → log_levels (cpu_loop ops xs false a).1 ≡ warn_levels (warnings [] (samples_of xs))
cpu_loop-warnings ops xs a reached h =
    cpu_loop-levels ops xs false a reached h ∙ ap warn_levels (edges_start (samples_of xs))
