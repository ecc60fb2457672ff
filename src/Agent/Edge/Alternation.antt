-- ===== src/Agent/Edge/Alternation.antt =====
-- When a loop warns.
use vkr_public.Base.{
  ◌≡◌, refl, ap, Bool, true, false, List, [], ◌∷◌, ◌&&◌, not, arith, if◌then◌else◌,
}
use vkr_public.Float64.{Float64, ltf, lef, ltf-lef}
use vkr_public.Agent.Edge.{edge, edges}

-- Whether, of the samples so far, newest first, the last that was above or below its threshold was
-- not below it. A sample that is no number is neither.
abbrev pub was_above : List (Float64 × Float64) → Bool
was_above [] = false
was_above ((threshold, sample) ∷ history) =
    if lef threshold sample then true else if ltf sample threshold then false else was_above history

-- A sample warns if it reaches its threshold and the loop was not above before it.
abbrev pub warnings : List (Float64 × Float64) → List (Float64 × Float64) → List Bool
warnings history [] = []
warnings history ((threshold, sample) ∷ rest) =
    (lef threshold sample && not (was_above history))
    ∷ warnings ((threshold, sample) ∷ history) rest

edge-fire :
    (threshold sample : Float64) (warned : Bool)
    → (edge threshold sample warned).1 ≡ (lef threshold sample && not warned)
unfolding edge
edge-fire threshold sample warned = ground arith

edge-flag :
    (threshold sample : Float64) (warned : Bool)
    → (edge threshold sample warned).0
      ≡ (if lef threshold sample then true else if ltf sample threshold then false else warned)
unfolding edge
edge-flag threshold sample warned = ground (arith, ltf-lef sample threshold)

edges-warnings :
    (history xs : List (Float64 × Float64)) → edges xs (was_above history) ≡ warnings history xs
unfolding edges
edges-warnings history [] = refl
edges-warnings history ((threshold, sample) ∷ rest) =
    rw
      (
        edge-fire threshold sample (was_above history),
        edge-flag threshold sample (was_above history),
      )
      (ap (λ r. (lef threshold sample && not (was_above history)) ∷ r)
        (edges-warnings ((threshold, sample) ∷ history) rest))

-- From its start a loop warns exactly at the samples that reach their threshold when the last sample
-- that was above or below its own threshold, if there was one, was below it.
pub edges_start : (xs : List (Float64 × Float64)) → edges xs false ≡ warnings [] xs
edges_start xs = edges-warnings [] xs
