-- ===== src/Agent/Edge.antt =====
-- The warnings of the sampling loops (cmd/agent/collector.go: streamCPU, streamMemory, streamDisk).
-- Each loop warns when a sample reaches the threshold, and again only after one was below it.
pub mod Alternation
use vkr_public.Base.{Bool, true, false, List, [], ◌∷◌, ◌&&◌, not, if◌then◌else◌}
use vkr_public.Float64.{Float64, ltf, lef}

-- The flag after a sample, and whether the sample warns.
unfoldable pub edge : Float64 → Float64 → Bool → Bool × Bool
edge threshold sample warned =
    if lef threshold sample && not warned
    then (true, true)
    else if ltf sample threshold
    then (false, false)
    else (warned, false)

-- A loop's samples, each with the threshold of its moment.
unfoldable pub edges : List (Float64 × Float64) → Bool → List Bool
unfolding edge
edges [] warned = []
edges ((threshold, sample) ∷ rest) warned =
    (edge threshold sample warned).1 ∷ edges rest (edge threshold sample warned).0
