-- ===== src/Storage/Select/Limit.antt =====
-- A limited query returns the newest of the rows that match.
use mathlib.Core.List.{Perm}
use native.Mathlib.Nat.{le_trans}
use vkr_public.Base.{
  ℕ, ◌≤◌, ◌<◌, ◌≡◌, Bool, true, List, [], ◌++◌, arith, take, drop, All, All-take, length,
  take-append-drop, length-take-le,
}
use vkr_public.Storage.Select.{where_rows, order_by, newest, latest}
use vkr_public.Storage.Select.Laws.{
  IsSorted, IsSorted-append, order_by-IsSorted, order_by-perm, All-order_by, All-where_rows,
  drop-eq-nil,
}

-- `ys` are the newest of the rows of `xs` that pass `p`, newest first, `limit` at most; `rest` are
-- the others, none of them newer than any of `ys`, and none is left where there was room.
pub record IsLatest {A : Type 0} (p : A → Bool) (key : A → ℕ) (limit : ℕ) (xs ys : List A)
    : Type 0 where
  pub rest : List A
  pub matching : All (λ y. p y ≡ true) ys
  pub complete : Perm (ys ++ rest) (where_rows p xs)
  pub sorted : IsSorted (λ x y. key y ≤ key x) ys
  pub newer : All (λ y. All (λ r. key r ≤ key y) rest) ys
  pub bounded : length ys ≤ limit
  pub full : length ys < limit → rest ≡ []

module _ {A : Type 0} (p : A → Bool) (key : A → ℕ) (limit : ℕ) (xs : List A) where
  abbrev ordered : List A
  ordered = order_by (newest key) (where_rows p xs)

  ordered-IsSorted : IsSorted (λ x y. key y ≤ key x) ordered
  ordered-IsSorted =
      order_by-IsSorted (newest key) (λ x y. key y ≤ key x) (λ x y h. ground arith)
        (λ x y h. ground arith) (λ x y z h k. le_trans k h) (where_rows p xs)

  halves : IsSorted (λ x y. key y ≤ key x) (take limit ordered ++ drop limit ordered)
  halves = rw (take-append-drop limit ordered) ordered-IsSorted

  pub latest-IsLatest : IsLatest p key limit xs (latest p key limit xs)
  unfolding latest
  latest-IsLatest = record {
    rest = drop limit ordered;
    matching =
        All-take (λ y. p y ≡ true) limit ordered
          (All-order_by (λ y. p y ≡ true) (newest key) (where_rows p xs) (All-where_rows p xs));
    complete = rw (take-append-drop limit ordered) (order_by-perm (newest key) (where_rows p xs));
    sorted = (IsSorted-append _ (take limit ordered) (drop limit ordered) halves).0;
    newer = (IsSorted-append _ (take limit ordered) (drop limit ordered) halves).1;
    bounded = length-take-le limit ordered;
    full = drop-eq-nil limit ordered;
  }
