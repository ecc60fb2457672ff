-- ===== src/Storage/Select/Distinct.antt =====
-- Filters after filters, the rows that DISTINCT ON keeps, and aggregates.
use vkr_public.Base.{
  ◌≡◌, refl, inl, inr, Bool, true, false, List, [], ◌∷◌, ◌&&◌, not, arith, Bool-cases,
}
use vkr_public.Storage.Select.{where_rows, distinct_on}

module _ {ℓ} {A : Type ℓ} where
  -- A filter that asks for more makes the one before it superfluous.
  pub where_rows_absorb :
      (q r : A → Bool)
      → ((y : A) → q y ≡ true → r y ≡ true)
      → (xs : List A) → where_rows q (where_rows r xs) ≡ where_rows q xs
  unfolding where_rows
  where_rows_absorb q r h [] = refl
  where_rows_absorb q r h (x ∷ xs) = ground (arith, h x, where_rows_absorb q r h xs)

  pub where_rows_clash :
      (q r : A → Bool)
      → ((y : A) → q y ≡ true → r y ≡ false)
      → (xs : List A) → where_rows q (where_rows r xs) ≡ []
  unfolding where_rows
  where_rows_clash q r h [] = refl
  where_rows_clash q r h (x ∷ xs) = ground (arith, h x, where_rows_clash q r h xs)

  pub where_rows_and :
      (p r : A → Bool) (xs : List A)
      → where_rows p (where_rows r xs) ≡ where_rows (λ y. r y && p y) xs
  unfolding where_rows
  where_rows_and p r [] = refl
  where_rows_and p r (x ∷ xs) = ground (arith, where_rows_and p r xs)

  abbrev pub first : List A → List A
  first [] = []
  first (x ∷ xs) = x ∷ []

  -- Of the rows of one class DISTINCT ON keeps the first.
  pub where_rows-distinct_on :
      (same : A → A → Bool) (q : A → Bool)
      → ((x y : A) → q x ≡ true → q y ≡ true → same x y ≡ true)
      → ((x y : A) → same x y ≡ true → q y ≡ true → q x ≡ true)
      → (xs : List A) → where_rows q (distinct_on same xs) ≡ first (where_rows q xs)
  unfolding where_rows distinct_on
  where_rows-distinct_on same q joins closed [] = refl
  where_rows-distinct_on same q joins closed (x ∷ xs) = elim (Bool-cases (q x)) [
    | inl e ↦ rw e (
        rw (
          where_rows_clash q (λ y. not (same x y)) (λ y k. ground (arith, joins x y))
            (distinct_on same xs)))
    | inr e ↦ rw e (
        rw
          (where_rows_absorb q (λ y. not (same x y)) (λ y k. ground (arith, closed x y))
            (distinct_on same xs))
          (where_rows-distinct_on same q joins closed xs))
  ]
