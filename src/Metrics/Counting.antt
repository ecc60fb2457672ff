-- ===== src/Metrics/Counting.antt =====
-- What a vector of counters has counted.
use vkr_public.Base.{
  both, ℕ, ◌+◌, ◌≡◌, refl, ap, inl, inr, Bool, true, false, List, [], ◌∷◌, ◌==◌, ◌&&◌, arith,
  eq_iff, eq_refl, Bool-cases, if◌then◌else◌,
}
use vkr_public.Metrics.{Labels, CounterVec}

abbrev pub same_labels : Labels → Labels → Bool
same_labels l k = l.method == k.method && (l.path == k.path && l.status == k.status)

pub same_labels_eq : (l k : Labels) → same_labels l k ≡ true → l ≡ k
same_labels_eq l k h =
    let (m, others) = both (l.method == k.method) _ h in
    let (p, s) = both (l.path == k.path) (l.status == k.status) others in
    cc ((eq_iff l.method k.method).0 m, (eq_iff l.path k.path).0 p, (eq_iff l.status k.status).0 s)

pub same_labels_refl : (l : Labels) → same_labels l l ≡ true
same_labels_refl l = rw (eq_refl l.method, eq_refl l.path, eq_refl l.status) refl

pub count_step :
    (b : Bool) (before now after n : ℕ)
    → now ≡ (if b then before + 1 else before)
    → after ≡ now + n
    → after ≡ before + (if b then n + 1 else n)
count_step true before now after n e h = omega arith
count_step false before now after n e h = omega arith

-- How often the labels come.
abbrev pub times_seen : Labels → List Labels → ℕ
times_seen k [] = 0
times_seen k (l ∷ ls) =
    let others = times_seen k ls in if same_labels l k then others + 1 else others

module _ {C : Type 0} (counters : CounterVec C) where
  pub value-inc :
      (c : C) (l k : Labels)
      → counters.value (counters.inc c l) k
        ≡ (if same_labels l k then counters.value c k + 1 else counters.value c k)
  value-inc c l k = elim (Bool-cases (same_labels l k)) [
    | inl same ↦ rw (same, same_labels_eq l k same) (counters.value-inc_self c k)
    | inr other ↦ rw other (
        counters.value-inc_other c l k
          (λ e. cc (other, ap (λ x. same_labels x k) e, same_labels_refl k)))
  ]
