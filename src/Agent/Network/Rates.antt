-- ===== src/Agent/Network/Rates.antt =====
-- What a round of the network loop sends (cmd/agent/collector.go: streamNetwork).
use mathlib.Core.List.{Mem, mem-cons_self, mem-cons_of_mem}
use vkr_public.Base.{
  ◌-◌, ◌<◌, ◌≤◌, ◌≡◌, refl, ◌⊎◌, inl, inr, String, Option, none, some, List, [], ◌∷◌, ◌++◌, arith,
  leb, Assoc, lookup, All, All-append, Option-cases, Bool-cases,
}
use vkr_public.Float64.{Float64, FloatOps}
use vkr_public.Instant.{Time}
use vkr_public.Agent.Client.{MetricPoint}
use vkr_public.Agent.Send.{Agent}
use vkr_public.Agent.Rounds.{Round, send_batch}
use vkr_public.Agent.Network.{IoCounters, interface_points, network_batch, network_round}
use vkr_public.Agent.Network.Points.{
  IsCounter, IsPointOf, IsCovered, IsMeasured, All-weaken, lookup-IsCounter,
  interface_points-IsPointOf, interface_points-IsCovered, IsCovered-append_right,
}

module _ (ops : FloatOps) (r : Round) (elapsed : Float64) (a : Agent) where
  network_batch-IsMeasured :
      (prev all cur : Assoc IoCounters)
      → All IsCounter prev
      → All IsCounter cur
      → ((e : String × IoCounters) → Mem e cur → Mem e all)
      → All (IsMeasured ops r elapsed a prev all) (network_batch ops r elapsed a prev cur)
  unfolding network_batch
  network_batch-IsMeasured prev all [] h k among = tt
  network_batch-IsMeasured prev all ((name, c) ∷ cur) h (q, k) among =
      let later : (e : String × IoCounters) → Mem e cur → Mem e all =
        λ e m. among e (mem-cons_of_mem (name, c) m) in
      let rest = network_batch-IsMeasured prev all cur h k later in
      elim (Option-cases (lookup name prev)) [
        | inl new ↦ rw (new, interface_points) rest
        | inr (p, found) ↦ rw found (
            All-append _ (interface_points ops r elapsed a name c (some p)) _
              (All-weaken (IsPointOf ops r elapsed a name c p) (IsMeasured ops r elapsed a prev all)
                (λ m at_c. (name, c, p, among _ mem-cons_self, found, at_c))
                (interface_points ops r elapsed a name c (some p))
                (interface_points-IsPointOf ops r elapsed a name c p q
                  (lookup-IsCounter name prev h found)))
              rest)
      ]

  entry-IsCovered :
      (name : String) (c : IoCounters) (prev : Assoc IoCounters) (rest : List MetricPoint)
      → IsCounter (name, c)
      → All IsCounter prev
      → (o : Option IoCounters) → lookup name prev ≡ o
      → IsCovered ops r elapsed a (interface_points ops r elapsed a name c o ++ rest) prev (name, c)
  entry-IsCovered name c prev rest q h none new = inl new
  entry-IsCovered name c prev rest q h (some p) found =
      interface_points-IsCovered ops r elapsed a name c p prev rest q
        (lookup-IsCounter name prev h found) found

  network_batch-IsCovered :
      (prev cur : Assoc IoCounters)
      → All IsCounter prev
      → All IsCounter cur
      → All (IsCovered ops r elapsed a (network_batch ops r elapsed a prev cur) prev) cur
  unfolding network_batch
  network_batch-IsCovered prev [] h k = tt
  network_batch-IsCovered prev ((name, c) ∷ cur) h (q, k) =
      let rest = network_batch-IsCovered prev cur h k in
      let first = interface_points ops r elapsed a name c (lookup name prev) in
      (
        entry-IsCovered name c prev _ q h (lookup name prev) refl,
        All-weaken _ _ (λ e. IsCovered-append_right ops r elapsed a first _ prev e) cur rest,
      )

-- A round of the network loop. Without a new snapshot it keeps the old one and sends nothing; with one
-- that is no later it keeps it and sends nothing. Otherwise it keeps the new snapshot and sends one
-- batch: for each interface of both snapshots the two totals and the two rates, with the labels of
-- the interface, and nothing else. A total is the new reading, and a rate the growth of that
-- counter, as of 64 bits, over the seconds between the snapshots.
pub network_round-IsMeasured :
    (ops : FloatOps) (r : Round) (prev cur : Assoc IoCounters) (before now : Time) (a : Agent)
    → All IsCounter prev
    → All IsCounter cur
    → (network_round ops r (some prev, before) (none, now) a ≡ ((some prev, before), (a, [])))
      × (((now ≤ before)
            × (network_round ops r (some prev, before) (some cur, now) a
                ≡ ((some cur, now), (a, []))))
          ⊎ ((before < now)
              × ((batch : List MetricPoint) × (network_round ops r
                      (some prev, before)
                      (some cur, now)
                      a
                    ≡ ((some cur, now), send_batch r batch a))
                  × All (IsMeasured ops r (ops.seconds (now - before)) a prev cur) batch
                  × All (IsCovered ops r (ops.seconds (now - before)) a batch prev) cur)))
unfolding network_round
network_round-IsMeasured ops r prev cur before now a h k = (
  refl,
  elim (Bool-cases (leb now before)) [
    | inl e ↦ inl (ground arith, rw e refl)
    | inr e ↦
        let elapsed = ops.seconds (now - before) in
        inr (
          ground arith,
          (
            network_batch ops r elapsed a prev cur,
            rw e refl,
            network_batch-IsMeasured ops r elapsed a prev cur cur h k (λ x m. m),
            network_batch-IsCovered ops r elapsed a prev cur h k,
          ),
        )
  ],
)
