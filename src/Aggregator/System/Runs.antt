-- ===== src/Aggregator/System/Runs.antt =====
-- The aggregator's runs with subscriptions that fail or come late are runs of its consumers, and when
-- Run returns.
use mathlib.Core.List.{Mem, mem-append_left, mem-append_right, mem-cons_self}
use vkr_public.Base.{
  both, ◌≡◌, refl, ◌⊎◌, inl, inr, String, Bool, true, false, Option, none, some, List, [], ◌∷◌,
  ◌++◌, ◌&&◌, if◌then◌else◌, Bool-cases, sym, ◌∙◌,
}
use vkr_public.Instant.{TimeText}
use vkr_public.Nats.Connection.{subscribe_error}
use vkr_public.Aggregator.System.{
  Signal, metrics, logs, spans, System, Event, published, delivered, play, run,
}
use vkr_public.Aggregator.System.Running.{
  Phase, starting, live, ended, phase, Running, RunEvent, subscribes, publishes, takes, cancelled,
  stops, subscribed, subscribe_from, is_live, is_ended, returned, advance, run_on, start_run,
}
use vkr_public.Aggregator.System.Starved.{set_phase-cases}

-- What an event is to the stream and the consumers.
abbrev pub made_by : RunEvent → Running → List Event
made_by (publishes subject m) r = published subject m ∷ []
made_by (takes signal k w arrives) r =
    if is_live (phase signal r.phases) then delivered signal k w arrives ∷ [] else []
made_by (subscribes signal calls) r = []
made_by cancelled r = []
made_by (stops signal) r = []

subscribe_from-system :
    (x : Phase) (signal : Signal) (e : Option String) (r : Running)
    → (subscribe_from x signal e r).system ≡ r.system
subscribe_from-system starting signal none r = refl
subscribe_from-system starting signal (some e) r = refl
subscribe_from-system live signal e r = refl
subscribe_from-system ended signal e r = refl

-- A goroutine that ended before the context was done has logged why.
abbrev pub IsAccounted : Running → Type 0
IsAccounted r =
    (signal : Signal)
    → phase signal r.phases ≡ ended
    → (r.done ≡ true) ⊎ ((e : String) × Mem (signal, e) r.exits)

module _ (clock : TimeText) where
  unfoldable pub made : List RunEvent → Running → List Event
  made [] r = []
  made (e ∷ es) r = made_by e r ++ made es (advance clock e r)

  pub run-append :
      (xs ys : List Event) (sys : System)
      → run clock (xs ++ ys) sys ≡ run clock ys (run clock xs sys)
  unfolding run
  run-append [] ys sys = refl
  run-append (x ∷ xs) ys sys = run-append xs ys (play clock x sys)

  advance-system :
      (e : RunEvent) (r : Running) → (advance clock e r).system ≡ run clock (made_by e r) r.system
  unfolding advance run
  advance-system (publishes subject m) r = refl
  advance-system (takes signal k w arrives) r =
      elim (Bool-cases (is_live (phase signal r.phases))) [
        | inl alive ↦ rw alive refl
        | inr idle ↦ rw idle refl
      ]
  advance-system (subscribes signal calls) r =
      subscribe_from-system _ signal (subscribe_error calls) r
  advance-system cancelled r = refl
  advance-system (stops signal) r = elim (Bool-cases (is_live (phase signal r.phases) && r.done)) [
    | inl stopping ↦ rw stopping refl
    | inr stays ↦ rw stays refl
  ]

  -- A run of the aggregator, with subscriptions that fail or come late, leaves the stream and the
  -- tables as the run of its consumers leaves them on the same publications, in order, and the
  -- deliveries that a live consumer took.
  pub run_on-made :
      (es : List RunEvent) (r : Running)
      → (run_on clock es r).system ≡ run clock (made es r) r.system
  unfolding run_on made run
  run_on-made [] r = refl
  run_on-made (e ∷ es) r =
      rw (run-append (made_by e r) (made es (advance clock e r)) r.system, ← advance-system e r)
        (run_on-made es (advance clock e r))

true_not_false : {b : Bool} → b ≡ true → b ≡ false → ⊥
true_not_false t f = cc

live_not_ended : live ≡ ended → ⊥
live_not_ended e = cc

start-IsAccounted : (sys : System) → IsAccounted (start_run sys)
start-IsAccounted sys metrics over = cc
start-IsAccounted sys logs over = cc
start-IsAccounted sys spans over = cc

exits-IsAccounted :
    (other : Signal) (e : String) (r : Running)
    → IsAccounted r
    → IsAccounted (subscribed other (some e) r)
exits-IsAccounted other e r h signal over = elim (Bool-cases r.done) [
  | inl d ↦ inl d
  | inr alive ↦ inr (
      rw alive (elim (set_phase-cases signal other ended r.phases) [
        | inl (same, _) ↦ (e, mem-append_right r.exits (rw same mem-cons_self))
        | inr stays ↦ elim (h signal (sym stays ∙ over)) [
          | inl d ↦ absurd (true_not_false d alive)
          | inr (err, found) ↦ (err, mem-append_left _ found)
        ]
      ]))
]

live-IsAccounted :
    (other : Signal) (r : Running) → IsAccounted r → IsAccounted (subscribed other none r)
live-IsAccounted other r h signal over = elim (set_phase-cases signal other live r.phases) [
  | inl (_, now) ↦ absurd (live_not_ended (sym now ∙ over))
  | inr stays ↦ h signal (sym stays ∙ over)
]

subscribe_from-IsAccounted :
    (x : Phase) (other : Signal) (e : Option String) (r : Running)
    → IsAccounted r
    → IsAccounted (subscribe_from x other e r)
subscribe_from-IsAccounted starting other none r h = live-IsAccounted other r h
subscribe_from-IsAccounted starting other (some e) r h = exits-IsAccounted other e r h
subscribe_from-IsAccounted live other e r h = h
subscribe_from-IsAccounted ended other e r h = h

is_ended-phase : (x : Phase) → is_ended x ≡ true → x ≡ ended
is_ended-phase starting h = cc
is_ended-phase live h = cc
is_ended-phase ended h = refl

module _ (clock : TimeText) where
  advance-IsAccounted :
      (e : RunEvent) (r : Running) → IsAccounted r → IsAccounted (advance clock e r)
  unfolding advance
  advance-IsAccounted (subscribes other calls) r h =
      subscribe_from-IsAccounted _ other (subscribe_error calls) r h
  advance-IsAccounted (publishes subject m) r h = h
  advance-IsAccounted (takes other k w arrives) r h =
      elim (Bool-cases (is_live (phase other r.phases))) [
        | inl alive ↦ rw alive h
        | inr idle ↦ rw idle h
      ]
  advance-IsAccounted cancelled r h = λ signal over. inl refl
  advance-IsAccounted (stops other) r h =
      elim (Bool-cases (is_live (phase other r.phases) && r.done)) [
        | inl stopping ↦ rw stopping (λ signal over. inl (both _ _ stopping).1)
        | inr stays ↦ rw stays h
      ]

  run_on-IsAccounted :
      (es : List RunEvent) (r : Running) → IsAccounted r → IsAccounted (run_on clock es r)
  unfolding run_on
  run_on-IsAccounted [] r h = h
  run_on-IsAccounted (e ∷ es) r h =
      run_on-IsAccounted es (advance clock e r) (advance-IsAccounted e r h)

  all_ended : (r : Running) → returned r ≡ true → (signal : Signal) → phase signal r.phases ≡ ended
  all_ended r h metrics = is_ended-phase _ (both _ _ h).0
  all_ended r h logs = is_ended-phase _ (both _ _ (both _ _ h).1).0
  all_ended r h spans = is_ended-phase _ (both _ _ (both _ _ h).1).1

  -- Run returns only when its context is done, or when all three consumers have ended before that, each
  -- with an error that is logged for its signal; whatever the subscriptions answer, and in whatever
  -- order they are made, messages come and consumers stop.
  pub run_on-returned :
      (es : List RunEvent) (sys : System)
      → returned (run_on clock es (start_run sys)) ≡ true
      → ((run_on clock es (start_run sys)).done ≡ true)
        ⊎ ((signal : Signal)
            → (e : String) × Mem (signal, e) (run_on clock es (start_run sys)).exits)
  run_on-returned es sys over =
      let r = run_on clock es (start_run sys) in
      let h : IsAccounted r = run_on-IsAccounted es (start_run sys) (start-IsAccounted sys) in
      elim (Bool-cases r.done) [
        | inl d ↦ inl d
        | inr alive ↦ inr (λ signal. elim (h signal (all_ended r over signal)) [
          | inl d ↦ absurd (true_not_false d alive)
          | inr found ↦ found
        ])
      ]
