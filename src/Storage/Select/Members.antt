-- ===== src/Storage/Select/Members.antt =====
-- Which rows a filter, an order and an aggregate have.
use mathlib.Core.List.{
  Mem, Mem-prop, not-mem-nil, mem-cons_self, mem-cons_of_mem, eq-or-mem_of_mem-cons,
}
use mathlib.Core.Logic.Or
use mathlib.Core.Path.{subst}
use vkr_public.Base.{sym, inl, inr, Bool, not, List, [], ◌∷◌, Bool-cases, All}
use vkr_public.Storage.Select.{where_rows, distinct_on}
use vkr_public.Storage.Select.Laws.{IsSorted}

module _ {A : Type 0} where
  pub All_at :
      {P : A → Type 0} {a : A}
      → ((x : A) → IsProp (P x))
      → (xs : List A) → All P xs
      → Mem a xs
      → P a
  All_at prop [] h m = absurd (not-mem-nil m)
  All_at {P} {a} prop (x ∷ xs) h m =
      Or.elim (prop a) (eq-or-mem_of_mem-cons m) (λ e. subst P (sym e) h.0) (All_at prop xs h.1)

  pub All_of_Mem : {P : A → Type 0} → (xs : List A) → ((a : A) → Mem a xs → P a) → All P xs
  All_of_Mem [] h = tt
  All_of_Mem (x ∷ xs) h = (h x mem-cons_self, All_of_Mem xs (λ a m. h a (mem-cons_of_mem x m)))

  pub All_sublist :
      (P : A → Type 0) (q : A → Bool) (xs : List A) → All P xs → All P (where_rows q xs)
  unfolding where_rows
  All_sublist P q [] h = tt
  All_sublist P q (x ∷ xs) (p, h) = elim (Bool-cases (q x)) [
    | inl e ↦ rw e (p, All_sublist P q xs h)
    | inr e ↦ rw e (All_sublist P q xs h)
  ]

  pub where_rows-IsSorted :
      (R : A → A → Type 0) (q : A → Bool) (xs : List A)
      → IsSorted R xs
      → IsSorted R (where_rows q xs)
  unfolding where_rows
  where_rows-IsSorted R q [] s = tt
  where_rows-IsSorted R q (x ∷ xs) (all, s) = elim (Bool-cases (q x)) [
    | inl e ↦ rw e (All_sublist (R x) q xs all, where_rows-IsSorted R q xs s)
    | inr e ↦ rw e (where_rows-IsSorted R q xs s)
  ]

  pub Mem_of_where_rows : {a : A} (q : A → Bool) (xs : List A) → Mem a (where_rows q xs) → Mem a xs
  unfolding where_rows
  Mem_of_where_rows q [] m = m
  Mem_of_where_rows q (x ∷ xs) m = elim (Bool-cases (q x)) [
    | inl e ↦
        Or.elim Mem-prop (eq-or-mem_of_mem-cons (rw e at m)) (λ h. rw h mem-cons_self)
          (λ n. mem-cons_of_mem x (Mem_of_where_rows q xs n))
    | inr e ↦ mem-cons_of_mem x (Mem_of_where_rows q xs (rw e at m))
  ]

  pub Mem_of_distinct_on :
      {a : A} (same : A → A → Bool) (xs : List A) → Mem a (distinct_on same xs) → Mem a xs
  unfolding distinct_on
  Mem_of_distinct_on same [] m = m
  Mem_of_distinct_on same (x ∷ xs) m =
      Or.elim Mem-prop (eq-or-mem_of_mem-cons m) (λ h. rw h mem-cons_self)
        λ n. mem-cons_of_mem x (
          Mem_of_distinct_on same xs
            (Mem_of_where_rows (λ y. not (same x y)) (distinct_on same xs) n))
