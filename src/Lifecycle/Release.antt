-- ===== src/Lifecycle/Release.antt =====
-- Processes that release what they open, the last first.
use vkr_public.Base.{
  never_none, ◌<◌, ℕ, arith, zero, suc, ◌≡◌, refl, String, Bool, true, false, ◌∙◌, sym, append-nil,
  Option-cases, inl, inr, Option, none, some, List, [], ◌∷◌, ◌++◌, eqb, if◌then◌else◌, All,
}
use vkr_public.Startup.{Startup, fatal, running, must}
use vkr_public.Lifecycle.{
  Resource, signals, tracer, database, stream, health_server, http_server, grpc_server,
  grpc_connection, Act, opens, closes, logs, runs, starts, waits, returned, exited, Main, body,
  opening, required, Crash, interrupted,
}

abbrev pub code : Resource → ℕ
code signals = 0
code tracer = 1
code database = 2
code stream = 3
code health_server = 4
code http_server = 5
code grpc_server = 6
code grpc_connection = 7

-- Only what was opened last and is still open is closed.
abbrev close_last : Resource → List Resource → Option (List Resource)
close_last r [] = none
close_last r (x ∷ xs) = if eqb (code r) (code x) then some xs else none

-- What is open after an act, the last first, and after acts.
abbrev open_after : Act → List Resource → Option (List Resource)
open_after (opens r) l = some (r ∷ l)
open_after (closes r) l = close_last r l
open_after (logs s) l = some l
open_after (runs s) l = some l
open_after (starts s) l = some l
open_after waits l = some l

abbrev pub release : List Act → List Resource → Option (List Resource)
release [] l = some l
release (a ∷ acts) l = elim (open_after a l) [ none ↦ none | some now ↦ release acts now ]

abbrev stays_open : Act → Bool
stays_open (closes r) = false
stays_open (opens r) = true
stays_open (logs s) = true
stays_open (runs s) = true
stays_open (starts s) = true
stays_open waits = true

abbrev pub ClosesNothing : List Act → Type 0
ClosesNothing acts = All (λ a. stays_open a ≡ true) acts

-- A start that fails ends the process with its message and error, and nothing is closed; after any
-- other the process returns, and has closed all that it opened, each time what it opened last.
abbrev IsOrderlyAt {ℓ} : {A : Type ℓ} → Startup A → Main → Type 0
IsOrderlyAt (fatal what e) m = (m.ending ≡ exited what e) × ClosesNothing m.acts
IsOrderlyAt (running a) m =
    (m.ending ≡ returned) × ((l : List Resource) → release m.acts l ≡ some l)

pub record IsOrderly {ℓ} {A : Type ℓ} (start : Startup A) (m : Main) : Type 0 where
  pub orderly : IsOrderlyAt start m

code-eqb : (r : Resource) → eqb (code r) (code r) ≡ true
code-eqb r = ground arith

release-cons :
    (a : Act) (xs : List Act) (l after : List Resource)
    → open_after a l ≡ some after
    → release (a ∷ xs) l ≡ release xs after
release-cons a xs l after e = rw (e, release) refl

release-append :
    (xs ys : List Act) (l now : List Resource)
    → release xs l ≡ some now
    → release (xs ++ ys) l ≡ release ys now
release-append [] ys l now h = cc
release-append (a ∷ xs) ys l now h = elim (Option-cases (open_after a l)) [
  | inl e ↦ absurd (never_none h (rw (e, release) refl))
  | inr (after, e) ↦
      release-cons a (xs ++ ys) l after e
      ∙ (release-append xs ys after now (sym (release-cons a xs l after e) ∙ h))
]

close-last : (r : Resource) (l : List Resource) → close_last r (r ∷ l) ≡ some l
close-last r l = rw (code-eqb r) refl

release-opening :
    (r : Resource) (acts : List Act) (l : List Resource)
    → ((k : List Resource) → release acts k ≡ some k)
    → release (opens r ∷ acts ++ closes r ∷ []) l ≡ some l
release-opening r acts l h =
    release-append acts (closes r ∷ []) (r ∷ l) (r ∷ l) (h (r ∷ l))
    ∙ release-cons (closes r) [] (r ∷ l) l (close-last r l)

interrupted-ClosesNothing :
    (what : String) (k : ℕ) (e : String) (r : Resource) (s : String)
    → k < 3
    → let m =
        interrupted what
          (some (record { after = k; error = e }))
          (opening r (body (waits ∷ logs s ∷ []))) in
      (m.ending ≡ exited what e) × ClosesNothing m.acts
unfolding interrupted opening
interrupted-ClosesNothing what zero e r s h = (refl, tt)
interrupted-ClosesNothing what (suc zero) e r s h = (refl, (refl, tt))
interrupted-ClosesNothing what (suc (suc zero)) e r s h = (refl, (refl, (refl, tt)))
interrupted-ClosesNothing what (suc (suc (suc k))) e r s h = absurd (omega arith)

module _ {ℓ} {A : Type ℓ} where
  pub body-IsOrderly :
      (a : A) (acts : List Act)
      → ((l : List Resource) → release acts l ≡ some l)
      → IsOrderly (running a) (body acts)
  body-IsOrderly a acts h = record { orderly = (refl, h) }

  pub required-IsOrderly :
      (e : Option String) (what : String) (start : Startup A) (m : Main)
      → IsOrderly start m
      → IsOrderly (must e what start) (required e what m)
  unfolding required
  required-IsOrderly none what start m h = h
  required-IsOrderly (some e) what start m h = record { orderly = (refl, tt) }

  opening_at :
      (r : Resource) (start : Startup A) (m : Main)
      → IsOrderlyAt start m
      → IsOrderlyAt start (opening r m)
  unfolding opening
  opening_at r (fatal what e) m (over, kept) = (over, rw (over, append-nil m.acts) (refl, kept))
  opening_at r (running a) m (over, h) = (over, λ l. rw over (release-opening r m.acts l h))

  pub opening-IsOrderly :
      (r : Resource) (start : Startup A) (m : Main)
      → IsOrderly start m
      → IsOrderly start (opening r m)
  opening-IsOrderly r start m h = record { orderly = opening_at r start m h.orderly }

  -- What a failing server makes of a start.
  abbrev pub crashed : String → String → Startup A → Startup A
  crashed what e (fatal before err) = fatal before err
  crashed what e (running a) = fatal what e

  pub required-crashed :
      (e : Option String) (what : String) (start : Startup A) (m : Main) (server err : String)
      → IsOrderly (crashed server err start) m
      → IsOrderly (crashed server err (must e what start)) (required e what m)
  unfolding required
  required-crashed none what start m server err h = h
  required-crashed (some e) what start m server err h = record { orderly = (refl, tt) }

  -- The server fails before it is stopped.
  pub interrupted-IsOrderly :
      (what : String) (c : Crash) (r : Resource) (s : String)
      → c.after < 3
      → IsOrderly {A = A}
          (fatal what c.error)
          (interrupted what (some c) (opening r (body (waits ∷ logs s ∷ []))))
  interrupted-IsOrderly what c r s h = record {
    orderly = interrupted-ClosesNothing what c.after c.error r s h;
  }
