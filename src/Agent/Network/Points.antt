-- ===== src/Agent/Network/Points.antt =====
-- The points of one interface (cmd/agent/collector.go: streamNetwork).
use mathlib.Core.List.{Mem, mem-append_right, mem-cons_self, mem-cons_of_mem}
use vkr_public.Base.{
  ℕ, ◌+◌, ◌-◌, ◌^◌, ◌<◌, ◌≤◌, ◌≡◌, refl, ◌⊎◌, inl, inr, String, none, some, List, [], ◌∷◌, ◌++◌,
  arith, Assoc, lookup, All, Bool-cases, ◌==◌,
}
use vkr_public.Float64.{Float64, FloatOps}
use vkr_public.Agent.Client.{MetricPoint}
use vkr_public.Agent.Send.{Agent}
use vkr_public.Agent.Rounds.{Round}
use vkr_public.Agent.Network.{IoCounters, sub64, interface_points}

-- The growth of a counter of 64 bits between two readings: exact unless the counter went back, where
-- it is 2⁶⁴ less the old reading and more the new.
abbrev pub IsGrowth : (now before d : ℕ) → Type 0
IsGrowth now before d =
    ((before ≤ now) × (d ≡ now - before)) ⊎ ((now < before) × (d ≡ 2 ^ 64 - before + now))

abbrev pub IsCounter : String × IoCounters → Type 0
IsCounter (name, c) = (c.bytes_sent < 2 ^ 64) × (c.bytes_recv < 2 ^ 64)

abbrev pub totals_and_rates : List String
totals_and_rates =
    "net_bytes_sent_total" ∷ "net_bytes_recv_total" ∷ "net_bytes_sent_per_sec"
    ∷ "net_bytes_recv_per_sec" ∷ []

pub All-weaken {ℓ κ μ} :
    {A : Type ℓ} (P : A → Type κ) (Q : A → Type μ) (f : (x : A) → P x → Q x) (xs : List A)
    → All P xs
    → All Q xs
All-weaken P Q f [] h = tt
All-weaken P Q f (x ∷ xs) (p, h) = (f x p, All-weaken P Q f xs h)

pub lookup-IsCounter :
    (name : String) (m : Assoc IoCounters) {p : IoCounters}
    → All IsCounter m
    → lookup name m ≡ some p
    → IsCounter (name, p)
unfolding lookup
lookup-IsCounter name [] h found = cc
lookup-IsCounter name ((k, c) ∷ m) {p} (q, h) found = elim (Bool-cases (k == name)) [
  | inl e ↦ let same : c ≡ p = ground arith in rw (← same) q
  | inr e ↦ lookup-IsCounter name m {p = p} h (ground arith)
]

module _ (ops : FloatOps) (r : Round) (elapsed : Float64) (a : Agent) where
  -- The value of a metric of an interface with these readings, now and before.
  abbrev pub IsValue : IoCounters → IoCounters → String → Float64 → Type 0
  IsValue c p metric v =
      ((metric ≡ "net_bytes_sent_total") × (v ≡ ops.of_uint c.bytes_sent))
      ⊎ ((metric ≡ "net_bytes_recv_total") × (v ≡ ops.of_uint c.bytes_recv))
      ⊎ ((metric ≡ "net_bytes_sent_per_sec")
          × ((d : ℕ) × IsGrowth c.bytes_sent p.bytes_sent d
              × (v ≡ ops.quotient (ops.of_uint d) elapsed)))
      ⊎ ((metric ≡ "net_bytes_recv_per_sec")
          × ((d : ℕ) × IsGrowth c.bytes_recv p.bytes_recv d
              × (v ≡ ops.quotient (ops.of_uint d) elapsed)))

  abbrev pub IsPointOf : String → IoCounters → IoCounters → MetricPoint → Type 0
  IsPointOf name c p m =
      (m.service_name ≡ a.service_name)
      × (m.timestamp ≡ r.now)
      × (m.labels ≡ some (("host", r.sending.host) ∷ ("interface", name) ∷ []))
      × IsValue c p m.metric_name m.value

  abbrev pub IsReported : List MetricPoint → String → IoCounters → IoCounters → String → Type 0
  IsReported batch name c p metric =
      (m : MetricPoint) × Mem m batch × (m.metric_name ≡ metric) × IsPointOf name c p m

  -- The four metrics of the interface are among the points.
  abbrev pub IsCovered : List MetricPoint → Assoc IoCounters → String × IoCounters → Type 0
  IsCovered batch prev (name, c) =
      (lookup name prev ≡ none)
      ⊎ ((p : IoCounters) × (lookup name prev ≡ some p)
          × All (IsReported batch name c p) totals_and_rates)

  -- The point is of an interface of both snapshots.
  abbrev pub IsMeasured : Assoc IoCounters → Assoc IoCounters → MetricPoint → Type 0
  IsMeasured prev cur m =
      (name : String) × (c : IoCounters) × (p : IoCounters) × Mem (name, c) cur
      × (lookup name prev ≡ some p)
      × IsPointOf name c p m

  sub64-IsGrowth :
      (now before : ℕ) → now < 2 ^ 64 → before < 2 ^ 64 → IsGrowth now before (sub64 now before)
  unfolding sub64
  sub64-IsGrowth now before p q = ground arith

  pub interface_points-IsPointOf :
      (name : String) (c p : IoCounters)
      → IsCounter (name, c)
      → IsCounter (name, p)
      → All (IsPointOf name c p) (interface_points ops r elapsed a name c (some p))
  unfolding interface_points
  interface_points-IsPointOf name c p (cs, cr) (ps, pr) = (
    (refl, refl, refl, inl (refl, refl)),
    (
      (refl, refl, refl, inr (inl (refl, refl))),
      (
        (refl, refl, refl, inr (inr (inl (refl, (_, sub64-IsGrowth _ _ cs ps, refl))))),
        ((refl, refl, refl, inr (inr (inr (refl, (_, sub64-IsGrowth _ _ cr pr, refl))))), tt),
      ),
    ),
  )

  -- The points of an interface, one for each metric.
  pub interface_points-IsCovered :
      (name : String) (c p : IoCounters) (prev : Assoc IoCounters) (rest : List MetricPoint)
      → IsCounter (name, c)
      → IsCounter (name, p)
      → lookup name prev ≡ some p
      → IsCovered (interface_points ops r elapsed a name c (some p) ++ rest) prev (name, c)
  unfolding interface_points
  interface_points-IsCovered name c p prev rest h k found =
      let (m1, (m2, (m3, (m4, _)))) = interface_points-IsPointOf name c p h k in
      inr (
        p,
        found,
        (
          (_, mem-cons_self, refl, m1),
          (
            (_, mem-cons_of_mem _ mem-cons_self, refl, m2),
            (
              (_, mem-cons_of_mem _ (mem-cons_of_mem _ mem-cons_self), refl, m3),
              (
                (
                  _,
                  mem-cons_of_mem _ (mem-cons_of_mem _ (mem-cons_of_mem _ mem-cons_self)),
                  refl,
                  m4,
                ),
                tt,
              ),
            ),
          ),
        ),
      )

  pub IsCovered-append_right :
      (xs ys : List MetricPoint) (prev : Assoc IoCounters) (e : String × IoCounters)
      → IsCovered ys prev e
      → IsCovered (xs ++ ys) prev e
  IsCovered-append_right xs ys prev e (inl h) = inl h
  IsCovered-append_right xs ys prev e (inr (p, h, all)) = inr (
    p,
    h,
    All-weaken (IsReported ys e.0 e.1 p) (IsReported (xs ++ ys) e.0 e.1 p)
        (λ metric (m, at_m, named, says). (m, mem-append_right xs at_m, named, says))
        totals_and_rates all,
  )
