-- ===== src/Storage/Select.antt =====
-- What the SQL of the queries means: WHERE, ORDER BY, LIMIT, DISTINCT ON and the aggregates. Rows of
-- equal rank, which ORDER BY leaves in any order, keep the order of the table.
pub mod Laws
pub mod Limit
pub mod Found
pub mod Distinct
pub mod Members
use vkr_public.Base.{ℕ, Bool, Option, none, some, List, [], ◌∷◌, leb, not, if◌then◌else◌, take}

module _ {ℓ} {A : Type ℓ} where
  unfoldable pub where_rows : (A → Bool) → List A → List A
  where_rows p [] = []
  where_rows p (x ∷ xs) = if p x then x ∷ where_rows p xs else where_rows p xs

  unfoldable pub place : (A → A → Bool) → A → List A → List A
  place before x [] = x ∷ []
  place before x (y ∷ ys) = if before x y then x ∷ y ∷ ys else y ∷ place before x ys

  unfoldable pub order_by : (A → A → Bool) → List A → List A
  unfolding place
  order_by before [] = []
  order_by before (x ∷ xs) = place before x (order_by before xs)

  -- ORDER BY key DESC and ORDER BY key
  abbrev pub newest : (A → ℕ) → A → A → Bool
  newest key x y = leb (key y) (key x)

  abbrev pub oldest : (A → ℕ) → A → A → Bool
  oldest key x y = leb (key x) (key y)

  unfoldable pub latest : (A → Bool) → (A → ℕ) → ℕ → List A → List A
  unfolding where_rows order_by
  latest p key limit xs = take limit (order_by (newest key) (where_rows p xs))

  -- DISTINCT ON: of the rows that are the same, the first in the order of the list.
  unfoldable pub distinct_on : (A → A → Bool) → List A → List A
  unfolding where_rows
  distinct_on same [] = []
  distinct_on same (x ∷ xs) = x ∷ where_rows (λ y. not (same x y)) (distinct_on same xs)

  unfoldable pub largest : (A → A → A) → A → List A → A
  largest larger x [] = x
  largest larger x (y ∷ ys) = larger x (largest larger y ys)

  -- MAX, which is null over no row.
  unfoldable pub aggregate : (A → A → A) → List A → Option A
  unfolding largest
  aggregate larger [] = none
  aggregate larger (x ∷ xs) = some (largest larger x xs)
