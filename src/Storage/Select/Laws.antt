-- ===== src/Storage/Select/Laws.antt =====
-- Ordering keeps the rows and sorts them; a limited query returns the newest.
use mathlib.Core.List.{Perm}
use mathlib.Core.List.Perm
use vkr_public.Base.{
  ℕ, ◌<◌, ◌≡◌, refl, Bool, true, false, List, [], ◌∷◌, ◌++◌, arith, take, drop, All, length,
  Bool-cases, inl, inr, zero, suc,
}
use vkr_public.Storage.Select.{where_rows, place, order_by}

All-split {ℓ} :
    {A : Type ℓ} (P : A → Type 0) (xs ys : List A) → All P (xs ++ ys) → All P xs × All P ys
All-split P [] ys h = (tt, h)
All-split P (x ∷ xs) ys (p, h) = let (a, b) = All-split P xs ys h in ((p, a), b)

module _ {ℓ} {A : Type ℓ} where
  -- Each row stands before all that follow it in the order `R`.
  abbrev pub IsSorted : (A → A → Type 0) → List A → Type ℓ
  IsSorted R [] = Unit
  IsSorted R (x ∷ xs) = All (R x) xs × IsSorted R xs

  place-perm : (before : A → A → Bool) (x : A) (xs : List A) → Perm (place before x xs) (x ∷ xs)
  unfolding place
  place-perm before x [] = Perm.refl (x ∷ [])
  place-perm before x (y ∷ ys) = elim (Bool-cases (before x y)) [
    | inl h ↦ rw h (Perm.refl (x ∷ y ∷ ys))
    | inr h ↦ rw h (Perm.trans (Perm.cons y (place-perm before x ys)) (Perm.swap x y ys))
  ]

  pub order_by-perm : (before : A → A → Bool) (xs : List A) → Perm (order_by before xs) xs
  unfolding order_by
  order_by-perm before [] = Perm.refl []
  order_by-perm before (x ∷ xs) =
      Perm.trans (place-perm before x (order_by before xs)) (Perm.cons x (order_by-perm before xs))

  All-place :
      (P : A → Type 0) (before : A → A → Bool) (x : A) (xs : List A)
      → P x
      → All P xs
      → All P (place before x xs)
  unfolding place
  All-place P before x [] p h = (p, tt)
  All-place P before x (y ∷ ys) p (q, h) = elim (Bool-cases (before x y)) [
    | inl e ↦ rw e (p, (q, h))
    | inr e ↦ rw e (q, All-place P before x ys p h)
  ]

  pub All-imp : {P Q : A → Type 0} → ((a : A) → P a → Q a) → (xs : List A) → All P xs → All Q xs
  All-imp f [] h = tt
  All-imp f (x ∷ xs) (p, h) = (f x p, All-imp f xs h)

  pub All-where_rows : (p : A → Bool) (xs : List A) → All (λ x. p x ≡ true) (where_rows p xs)
  unfolding where_rows
  All-where_rows p [] = tt
  All-where_rows p (x ∷ xs) = elim (Bool-cases (p x)) [
    | inl e ↦ rw e (e, All-where_rows p xs)
    | inr e ↦ rw e (All-where_rows p xs)
  ]

  pub All-order_by :
      (P : A → Type 0) (before : A → A → Bool) (xs : List A) → All P xs → All P (order_by before xs)
  unfolding order_by
  All-order_by P before [] h = tt
  All-order_by P before (x ∷ xs) (p, h) =
      All-place P before x (order_by before xs) p (All-order_by P before xs h)

-- A test that agrees with a transitive order sorts by it.
module _ {ℓ} {A : Type ℓ} (before : A → A → Bool) (R : A → A → Type 0)
    (in_order : (x y : A) → before x y ≡ true → R x y)
    (reversed : (x y : A) → before x y ≡ false → R y x)
    (through : (x y z : A) → R x y → R y z → R x z) where
  place-IsSorted : (x : A) (xs : List A) → IsSorted R xs → IsSorted R (place before x xs)
  unfolding place
  place-IsSorted x [] s = (tt, tt)
  place-IsSorted x (y ∷ ys) (all, s) = elim (Bool-cases (before x y)) [
    | inl e ↦
        rw e ((in_order x y e, All-imp (λ z. through x y z (in_order x y e)) ys all), (all, s))
    | inr e ↦ rw e (All-place (R y) before x ys (reversed x y e) all, place-IsSorted x ys s)
  ]

  pub order_by-IsSorted : (xs : List A) → IsSorted R (order_by before xs)
  unfolding order_by
  order_by-IsSorted [] = tt
  order_by-IsSorted (x ∷ xs) = place-IsSorted x (order_by before xs) (order_by-IsSorted xs)

module _ {ℓ} {A : Type ℓ} where
  pub IsSorted-append :
      (R : A → A → Type 0) (xs ys : List A)
      → IsSorted R (xs ++ ys)
      → IsSorted R xs × All (λ x. All (R x) ys) xs
  IsSorted-append R [] ys s = (tt, tt)
  IsSorted-append R (x ∷ xs) ys (all, s) =
      let (front, across) = IsSorted-append R xs ys s in
      let (near, far) = All-split (R x) xs ys all in ((near, front), (far, across))

  pub drop-eq-nil : (n : ℕ) (xs : List A) → length (take n xs) < n → drop n xs ≡ []
  drop-eq-nil zero xs h = absurd (omega arith)
  drop-eq-nil (suc n) [] h = refl
  drop-eq-nil (suc n) (x ∷ xs) h = drop-eq-nil n xs (omega arith)
