-- ===== src/Agent/Rounds/MemoryLoop.antt =====
-- The loop of streamMemory (cmd/agent/collector.go), and what it and the CPU loop log while the
-- collector answers.
use vkr_public.Base.{
  ◌≡◌, refl, ◌∙◌, Bool, false, Option, none, some, List, [], ◌∷◌, ◌++◌, if◌then◌else◌, ap,
  Option-cases, inl, inr,
}
use vkr_public.Float64.{Float64, FloatOps}
use vkr_public.Agent.Edge.{edge, edges}
use vkr_public.Agent.Edge.Alternation.{warnings, edges_start}
use vkr_public.Agent.Send.{Agent, Result}
use vkr_public.Agent.Send.Streak.{log_levels, log_levels-append}
use vkr_public.Agent.Rounds.{
  Round, Memory, memory_round, pt, host_labels, percent_message, value_fields,
}
use vkr_public.Agent.Rounds.Cpu.{
  CpuSample, cpu_loop, samples_of, AllReach, warn_levels, pass-levels, warn_levels-cons,
  cpu_loop-warnings,
}

-- A pass of the loop: the threshold of its moment, and the measurement.
pub record MemorySample : Type 0 where
  pub round : Round
  pub threshold : Float64
  pub reading : Option Memory

unfoldable pub memory_loop : FloatOps → List MemorySample → Bool → Agent → Result
unfolding memory_round
memory_loop ops [] warned a = (a, [])
memory_loop ops (x ∷ xs) warned a =
    let (warned', (a', calls)) = memory_round ops x.round x.threshold x.reading warned a in
    let (a'', more) = memory_loop ops xs warned' a' in (a'', calls ++ more)

-- The measurements that succeeded, each with its threshold.
abbrev pub readings_of : List MemorySample → List (Float64 × Float64)
readings_of [] = []
readings_of (x ∷ xs) = elim x.reading [
  | none ↦ readings_of xs
  | some v ↦ (x.threshold, v.used_percent) ∷ readings_of xs
]

-- Each batch of the run reaches the collector.
abbrev pub EachReaches : List MemorySample → Type 0
EachReaches [] = Unit
EachReaches (x ∷ xs) = (x.round.outcome ≡ none) × EachReaches xs

memory_round-levels :
    (ops : FloatOps) (r : Round) (threshold : Float64) (v : Memory) (warned : Bool) (a : Agent)
    → r.outcome ≡ none
    → a.fail_count ≡ 0
    → let (warned', (a', calls)) = memory_round ops r threshold (some v) warned a in
      (warned' ≡ (edge threshold v.used_percent warned).0)
      × (log_levels calls ≡ (if (edge threshold v.used_percent warned).1 then "warn" ∷ [] else []))
      × (a'.fail_count ≡ 0)
unfolding memory_round
memory_round-levels ops r threshold v warned a reached h =
    let labels = host_labels r.sending in
    let (levels, count) =
      pass-levels r.sending r.fresh (pt "mem_total_bytes" (ops.of_uint v.total) labels r.now a)
        (pt "mem_used_bytes" (ops.of_uint v.used) labels r.now a
          ∷ pt "mem_available_bytes" (ops.of_uint v.available) labels r.now a
          ∷ pt "mem_usage_percent" v.used_percent labels r.now a
          ∷ [])
        (edge threshold v.used_percent warned).1 r.warning
        (percent_message "high memory usage: " (ops.text_1 v.used_percent))
        (value_fields r.warning (ops.text_1 v.used_percent)) a h in
    rw reached (refl, levels, count)

memory_loop-levels :
    (ops : FloatOps) (xs : List MemorySample) (warned : Bool) (a : Agent)
    → EachReaches xs
    → a.fail_count ≡ 0
    → log_levels (memory_loop ops xs warned a).1 ≡ warn_levels (edges (readings_of xs) warned)
unfolding memory_loop edges
memory_loop-levels ops [] warned a reached h = refl
memory_loop-levels ops (x ∷ xs) warned a (reached, others) h = elim (Option-cases x.reading) [
  | inl e ↦ rw e (unfold memory_round in memory_loop-levels ops xs warned a others h)
  | inr (v, e) ↦
      let next = memory_round ops x.round x.threshold (some v) warned a in
      let (flag, levels, count) =
        memory_round-levels ops x.round x.threshold v warned a reached h in
      rw
        (e, log_levels-append, levels, memory_loop-levels ops xs next.0 next.1.0 others count, flag)
        (warn_levels-cons (edge x.threshold v.used_percent warned).1
          (edges (readings_of xs) (edge x.threshold v.used_percent warned).0))
]

-- While every batch reaches the collector and none failed before, a run of the CPU loop and one of the
-- memory loop each log exactly one warning for each sample that reaches its threshold when the last
-- sample above or below its own, if there was one, was below it, and nothing else.
pub loops-warnings :
    (ops : FloatOps) (xs : List CpuSample) (ys : List MemorySample) (a : Agent)
    → AllReach xs
    → EachReaches ys
    → a.fail_count ≡ 0
    → (log_levels (cpu_loop ops xs false a).1 ≡ warn_levels (warnings [] (samples_of xs)))
      × (log_levels (memory_loop ops ys false a).1 ≡ warn_levels (warnings [] (readings_of ys)))
loops-warnings ops xs ys a reached reaches count = (
  cpu_loop-warnings ops xs a reached count,
  memory_loop-levels ops ys false a reaches count ∙ ap warn_levels (edges_start (readings_of ys)),
)
