-- ===== src/Lifecycle/Left.antt =====
-- Processes that leave a resource open to their end.
use vkr_public.Base.{ℕ, ◌+◌, ◌≡◌, ◌⊎◌, List, [], ◌∷◌, eqb, if◌then◌else◌}
use vkr_public.Startup.{Startup, fatal, running}
use vkr_public.Lifecycle.{
  Resource, Act, opens, closes, logs, runs, starts, waits, returned, exited, Main,
}
use vkr_public.Lifecycle.Release.{code, ClosesNothing}

abbrev same : Resource → Resource → ℕ
same r x = if eqb (code r) (code x) then 1 else 0

-- How often the acts open a resource, and close it.
abbrev pub times_opened : Resource → List Act → ℕ
times_opened r [] = 0
times_opened r (opens x ∷ acts) = same r x + times_opened r acts
times_opened r (closes x ∷ acts) = times_opened r acts
times_opened r (logs s ∷ acts) = times_opened r acts
times_opened r (runs s ∷ acts) = times_opened r acts
times_opened r (starts s ∷ acts) = times_opened r acts
times_opened r (waits ∷ acts) = times_opened r acts

abbrev pub times_closed : Resource → List Act → ℕ
times_closed r [] = 0
times_closed r (closes x ∷ acts) = same r x + times_closed r acts
times_closed r (opens x ∷ acts) = times_closed r acts
times_closed r (logs s ∷ acts) = times_closed r acts
times_closed r (runs s ∷ acts) = times_closed r acts
times_closed r (starts s ∷ acts) = times_closed r acts
times_closed r (waits ∷ acts) = times_closed r acts

-- A start that fails ends the process with its message and error, and nothing is closed; after any
-- other the process returns, has opened the resource once and never closed it, and has closed any
-- other as often as it opened it.
abbrev LeavesAt {ℓ} : {A : Type ℓ} → Resource → Startup A → Main → Type 0
LeavesAt left (fatal what e) m = (m.ending ≡ exited what e) × ClosesNothing m.acts
LeavesAt left (running a) m =
    (m.ending ≡ returned)
    × (times_opened left m.acts ≡ 1)
    × (times_closed left m.acts ≡ 0)
    × ((r : Resource) → (r ≡ left) ⊎ (times_closed r m.acts ≡ times_opened r m.acts))

pub record Leaves {ℓ} {A : Type ℓ} (left : Resource) (start : Startup A) (m : Main) : Type 0 where
  pub leaves : LeavesAt left start m
