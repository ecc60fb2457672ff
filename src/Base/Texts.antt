-- ===== src/Base/Texts.antt =====
-- Go's `map[string]string` as an association list in key order; `none` is the nil map.
use Prim.Native.String.{String}
use mathlib.Core.Path.{◌≡◌, refl}
use mathlib.Core.Logic.{◌≢◌}
use mathlib.Core.Bool.{false}
use mathlib.Core.Option.{Option, none, some}
use mathlib.Core.List.{List, [], ◌∷◌, ◌++◌}
use native.Mathlib.Omega.{arith}
use text.Mathlib.Text.{◌==◌}
use text.Mathlib.TextEquality.{eq_iff}
use vkr_public.Base.Tests.{if◌then◌else◌}

abbrev pub Assoc {ℓ} : Type ℓ → Type ℓ
Assoc V = List (String × V)

-- Reading and assigning an entry.
module _ {ℓ} {V : Type ℓ} where
  unfoldable pub lookup : (key : String) (entries : Assoc V) → Option V
  lookup key [] = none
  lookup key (entry ∷ entries) = if entry.0 == key then some entry.1 else lookup key entries

  -- `m[k] = v`: replaces the value of a key that is there, and adds one that is not.
  unfoldable pub insert : (key : String) (value : V) (entries : Assoc V) → Assoc V
  insert key value [] = (key, value) ∷ []
  insert key value (entry ∷ entries) =
      if entry.0 == key then (key, value) ∷ entries else entry ∷ insert key value entries

abbrev pub StringMap : Type 0
StringMap = Option (Assoc String)

module _ {ℓ} {V : Type ℓ} where
  -- No key stands twice, as in every Go map.
  abbrev pub IsDistinct : Assoc V → Type ℓ
  IsDistinct [] = Unit
  IsDistinct ((k, v) ∷ m) = (lookup k m ≡ none) × IsDistinct m

  lookup-middle :
      (j k : String) (v : V) (xs m : Assoc V)
      → lookup j (xs ++ (k, v) ∷ m) ≡ none
      → (k == j) ≡ false
  unfolding lookup
  lookup-middle j k v [] m h = ground (arith, eq_iff k j)
  lookup-middle j k v ((i, w) ∷ xs) m h = ground (arith, lookup-middle j k v xs m)

  lookup-fresh :
      (k : String) (v : V) (xs m : Assoc V) → IsDistinct (xs ++ (k, v) ∷ m) → lookup k xs ≡ none
  unfolding lookup
  lookup-fresh k v [] m h = refl
  lookup-fresh k v ((j, w) ∷ xs) m (p, h) =
      ground (arith, lookup-middle j k v xs m p, lookup-fresh k v xs m h, eq_iff j k, eq_iff k j)

  insert-fresh :
      (k : String) (v : V) (m : Assoc V) → lookup k m ≡ none → insert k v m ≡ m ++ (k, v) ∷ []
  unfolding lookup insert
  insert-fresh k v [] h = refl
  insert-fresh k v ((j, w) ∷ m) h = ground (arith, insert-fresh k v m)

  -- A new key is added at the end of a map that has no key twice.
  pub insert-middle :
      (k : String) (v : V) (xs m : Assoc V)
      → IsDistinct (xs ++ (k, v) ∷ m)
      → insert k v xs ≡ xs ++ (k, v) ∷ []
  insert-middle k v xs m h = insert-fresh k v xs (lookup-fresh k v xs m h)

  pub lookup-insert :
      (key other : String) (value : V) (entries : Assoc V)
      → lookup other (insert key value entries)
        ≡ (if key == other then some value else lookup other entries)
  unfolding lookup insert
  lookup-insert key other value [] = refl
  lookup-insert key other value ((name, old) ∷ rest) =
      let hyp = lookup-insert key other value rest in
      ground (arith, hyp, eq_iff name key, eq_iff key other, eq_iff name other)

pub not_empty : (name : String) → name ≢ "" → (name == "") ≡ false
not_empty name h = ground (arith, eq_iff name "")
