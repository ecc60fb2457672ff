-- ===== src/Aggregator/System/Starved.antt =====
-- What the aggregator's runs come to when a subscription fails.
use vkr_public.Base.{
  ℕ, ◌≡◌, refl, ◌∙◌, ◌⊎◌, inl, inr, String, Bool, true, Option, none, some, List, [], ◌∷◌, ◌++◌,
  ◌==◌, ◌&&◌, if◌then◌else◌, Bool-cases, append_assoc, append-nil,
}
use vkr_public.Instant.{TimeText}
use vkr_public.Json.{Json}
use vkr_public.Nats.Connection.{ConsumerCalls, subscribe_error}
use vkr_public.Aggregator.Consumer.{Surroundings}
use vkr_public.Aggregator.System.{
  Signal, metrics, logs, spans, kept, subject_of, delivered, handle, play,
}
use vkr_public.Nats.Subscription.{deliver}
use vkr_public.Aggregator.System.NothingLost.{put-kept, kept-arrive}
use vkr_public.Aggregator.System.Running.{
  Phase, Phases, starting, live, ended, phase, set_phase, Running, RunEvent, subscribes, publishes,
  takes, cancelled, stops, subscribed, subscribe_from, is_live, advance, run_on,
}

-- What is published for the consumer.
abbrev pub own_published : Signal → List RunEvent → List (Option Json)
own_published signal [] = []
own_published signal (publishes subject m ∷ es) =
    if subject == subject_of signal then m ∷ own_published signal es else own_published signal es
own_published signal (subscribes other calls ∷ es) = own_published signal es
own_published signal (takes other k w arrives ∷ es) = own_published signal es
own_published signal (cancelled ∷ es) = own_published signal es
own_published signal (stops other ∷ es) = own_published signal es

pub set_phase-cases :
    (signal other : Signal) (x : Phase) (p : Phases)
    → ((signal ≡ other) × (phase signal (set_phase other x p) ≡ x))
      ⊎ (phase signal (set_phase other x p) ≡ phase signal p)
set_phase-cases metrics metrics x p = inl (refl, refl)
set_phase-cases logs logs x p = inl (refl, refl)
set_phase-cases spans spans x p = inl (refl, refl)
set_phase-cases metrics logs x p = inr refl
set_phase-cases metrics spans x p = inr refl
set_phase-cases logs metrics x p = inr refl
set_phase-cases logs spans x p = inr refl
set_phase-cases spans metrics x p = inr refl
set_phase-cases spans logs x p = inr refl

set_phase_own : (signal : Signal) (x : Phase) (p : Phases) → phase signal (set_phase signal x p) ≡ x
set_phase_own metrics x p = refl
set_phase_own logs x p = refl
set_phase_own spans x p = refl

-- The consumer ended before it took anything of what the server keeps for it.
pub record Starved (signal : Signal) (all : List (Option Json)) (r : Running) : Type 0 where
  pub phase_ended : phase signal r.phases ≡ ended
  pub kept_all : kept signal r.system ≡ all

set-Starved :
    (signal other : Signal) (all : List (Option Json)) (x : Phase) (r : Running)
    → Starved signal all r
    → (phase other r.phases ≡ ended → ⊥)
    → phase signal (set_phase other x r.phases) ≡ ended
set-Starved signal other all x r h running = elim (set_phase-cases signal other x r.phases) [
  | inl (same, _) ↦ absurd (running (rw (← same) h.phase_ended))
  | inr stays ↦ stays ∙ h.phase_ended
]

subscribe_from-Starved :
    (signal other : Signal) (all : List (Option Json)) (e : Option String) (r : Running) (x : Phase)
    → phase other r.phases ≡ x
    → Starved signal all r
    → Starved signal all (subscribe_from x other e r)
subscribe_from-Starved signal other all none r starting now h = record {
  phase_ended = set-Starved signal other all live r h (λ e. cc);
  kept_all = h.kept_all;
}
subscribe_from-Starved signal other all (some err) r starting now h = record {
  phase_ended = set-Starved signal other all ended r h (λ e. cc);
  kept_all = h.kept_all;
}
subscribe_from-Starved signal other all e r live now h = h
subscribe_from-Starved signal other all e r ended now h = h

never_live : {x : Phase} → is_live x ≡ true → x ≡ ended → ⊥
never_live t e = cc

never_stops : (x : Phase) (b : Bool) → x ≡ ended → (is_live x && b) ≡ true → ⊥
never_stops starting b e t = cc
never_stops live b e t = cc
never_stops ended b e t = cc

module _ (clock : TimeText) where
  takes-Starved :
      (signal other : Signal) (k : ℕ) (w : Surroundings) (arrives : Bool) (all : List (Option Json))
      (r : Running)
      → is_live (phase other r.phases) ≡ true
      → Starved signal all r
      → Starved signal all (record r { system = play clock (delivered other k w arrives) r.system })
  takes-Starved signal other k w arrives all r alive h =
      let after = deliver (handle clock other) k w arrives (kept other r.system, r.system.state) in
      elim (put-kept clock signal other r.system after) [
        | inl (same, _) ↦ absurd (never_live alive (rw (← same) h.phase_ended))
        | inr stays ↦ record { phase_ended = h.phase_ended; kept_all = stays ∙ h.kept_all }
      ]

  -- The messages that an event adds.
  abbrev added : Signal → RunEvent → List (Option Json)
  added signal e = own_published signal (e ∷ [])

  publishes-Starved :
      (signal : Signal) (subject : String) (m : Option Json) (all : List (Option Json))
      (r : Running)
      → Starved signal all r
      → Starved signal
          (all ++ added signal (publishes subject m))
          (advance clock (publishes subject m) r)
  unfolding advance
  publishes-Starved signal subject m all r h = record {
    phase_ended = h.phase_ended;
    kept_all =
        kept-arrive clock signal subject m r.system
        ∙ elim (Bool-cases (subject == subject_of signal)) [
          | inl own ↦ rw (own, h.kept_all) refl
          | inr foreign ↦ rw (foreign, append-nil all) h.kept_all
        ];
  }

  own_published-cons :
      (signal : Signal) (e : RunEvent) (es : List RunEvent)
      → own_published signal (e ∷ es) ≡ added signal e ++ own_published signal es
  own_published-cons signal (publishes subject m) es =
      elim (Bool-cases (subject == subject_of signal)) [
        | inl own ↦ rw own refl
        | inr foreign ↦ rw foreign refl
      ]
  own_published-cons signal (subscribes other calls) es = refl
  own_published-cons signal (takes other k w arrives) es = refl
  own_published-cons signal cancelled es = refl
  own_published-cons signal (stops other) es = refl

  fail-Starved :
      (signal : Signal) (calls : ConsumerCalls) (e : String) (r : Running)
      → phase signal r.phases ≡ starting
      → subscribe_error calls ≡ some e
      → Starved signal (kept signal r.system) (advance clock (subscribes signal calls) r)
  unfolding advance
  fail-Starved signal calls e r fresh failed =
      rw (fresh, failed, subscribe_from, subscribed)
        (record { phase_ended = set_phase_own signal ended r.phases; kept_all = refl })

  advance-Starved :
      (signal : Signal) (e : RunEvent) (all : List (Option Json)) (r : Running)
      → Starved signal all r
      → Starved signal (all ++ added signal e) (advance clock e r)
  unfolding advance
  advance-Starved signal (publishes subject m) all r h = publishes-Starved signal subject m all r h
  advance-Starved signal (subscribes other calls) all r h =
      rw (append-nil all)
        (subscribe_from-Starved signal other all (subscribe_error calls) r _ refl h)
  advance-Starved signal (takes other k w arrives) all r h =
      rw (append-nil all) (elim (Bool-cases (is_live (phase other r.phases))) [
        | inl alive ↦ rw alive (takes-Starved signal other k w arrives all r alive h)
        | inr idle ↦ rw idle h
      ])
  advance-Starved signal cancelled all r h =
      rw (append-nil all) (record { phase_ended = h.phase_ended; kept_all = h.kept_all })
  advance-Starved signal (stops other) all r h =
      rw (append-nil all) (elim (Bool-cases (is_live (phase other r.phases) && r.done)) [
        | inl both ↦ rw both (record {
          phase_ended = set-Starved signal other all ended r h (λ e. never_stops _ _ e both);
          kept_all = h.kept_all;
        })
        | inr stays ↦ rw stays h
      ])

  run_on-Starved :
      (signal : Signal) (es : List RunEvent) (all : List (Option Json)) (r : Running)
      → Starved signal all r
      → Starved signal (all ++ own_published signal es) (run_on clock es r)
  unfolding run_on
  run_on-Starved signal [] all r h = rw (append-nil all) h
  run_on-Starved signal (e ∷ es) all r h =
      rw
        (
          own_published-cons signal e es,
          ← append_assoc all (added signal e) (own_published signal es),
        )
        (run_on-Starved signal es (all ++ added signal e) (advance clock e r)
          (advance-Starved signal e all r h))

  -- Where the subscription of a consumer fails, whatever is published, delivered and cancelled after
  -- it: the consumer has ended, and the server keeps all that it kept for it and all that is published
  -- for it.
  pub failed_subscription-Starved :
      (signal : Signal) (calls : ConsumerCalls) (e : String) (events : List RunEvent) (r : Running)
      → phase signal r.phases ≡ starting
      → subscribe_error calls ≡ some e
      → Starved signal
          (kept signal r.system ++ own_published signal events)
          (run_on clock (subscribes signal calls ∷ events) r)
  unfolding run_on
  failed_subscription-Starved signal calls e events r fresh failed =
      run_on-Starved signal events (kept signal r.system) _
        (fail-Starved signal calls e r fresh failed)
