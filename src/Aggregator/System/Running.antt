-- ===== src/Aggregator/System/Running.antt =====
-- The aggregator while it runs (cmd/aggregator/consumer.go: Run, and the ends of consumeMetrics,
-- consumeLogs and consumeSpans; Subscribe of internal/nats/jetstream.go). Three goroutines subscribe,
-- each at its own time, take messages and end when the context is done; one whose subscription fails
-- ends at once.
use vkr_public.Base.{
  ℕ, String, Bool, true, false, Option, none, some, List, [], ◌∷◌, ◌++◌, ◌&&◌, if◌then◌else◌,
}
use vkr_public.Instant.{TimeText}
use vkr_public.Json.{Json}
use vkr_public.Nats.Connection.{ConsumerCalls, subscribe_error}
use vkr_public.Aggregator.Consumer.{Surroundings}
use vkr_public.Aggregator.System.{Signal, metrics, logs, spans, System, published, delivered, play}

pub data Phase : Type 0 where
  starting live ended : Phase

pub record Phases : Type 0 where
  pub of_metrics : Phase
  pub of_logs : Phase
  pub of_spans : Phase

abbrev pub phase : Signal → Phases → Phase
phase metrics p = p.of_metrics
phase logs p = p.of_logs
phase spans p = p.of_spans

abbrev pub set_phase : Signal → Phase → Phases → Phases
set_phase metrics x p = record p { of_metrics = x }
set_phase logs x p = record p { of_logs = x }
set_phase spans x p = record p { of_spans = x }

-- `exits` has the errors that the goroutines log when they end.
pub record Running : Type 0 where
  pub phases : Phases
  pub done : Bool
  pub exits : List (Signal × String)
  pub system : System

abbrev pub start_run : System → Running
start_run sys = record {
  phases = record { of_metrics = starting; of_logs = starting; of_spans = starting };
  done = false;
  exits = [];
  system = sys;
}

pub data RunEvent : Type 0 where
  subscribes : Signal → ConsumerCalls → RunEvent
  publishes : String → Option Json → RunEvent
  takes : Signal → ℕ → Surroundings → (arrives : Bool) → RunEvent
  cancelled : RunEvent
  stops : Signal → RunEvent

-- `err != nil && ctx.Err() == nil`
abbrev pub exit_logged : Bool → Signal → String → List (Signal × String)
exit_logged done signal e = if done then [] else (signal, e) ∷ []

abbrev pub subscribed : Signal → Option String → Running → Running
subscribed signal none r = record r { phases = set_phase signal live r.phases }
subscribed signal (some e) r = record r {
  phases = set_phase signal ended r.phases;
  exits = r.exits ++ exit_logged r.done signal e;
}

-- A goroutine subscribes once.
abbrev pub subscribe_from : Phase → Signal → Option String → Running → Running
subscribe_from starting signal e r = subscribed signal e r
subscribe_from live signal e r = r
subscribe_from ended signal e r = r

abbrev pub is_live : Phase → Bool
is_live starting = false
is_live live = true
is_live ended = false

abbrev pub is_ended : Phase → Bool
is_ended starting = false
is_ended live = false
is_ended ended = true

-- The wait group of Run.
abbrev pub returned : Running → Bool
returned r =
    is_ended r.phases.of_metrics && (is_ended r.phases.of_logs && is_ended r.phases.of_spans)

module _ (clock : TimeText) where
  -- Only a consumer that is live takes a message, and it stops only when the context is done.
  unfoldable pub advance : RunEvent → Running → Running
  unfolding subscribe_error
  advance (subscribes signal calls) r =
      subscribe_from (phase signal r.phases) signal (subscribe_error calls) r
  advance (publishes subject m) r = record r { system = play clock (published subject m) r.system }
  advance (takes signal k w arrives) r =
      if is_live (phase signal r.phases)
      then record r { system = play clock (delivered signal k w arrives) r.system }
      else r
  advance cancelled r = record r { done = true }
  advance (stops signal) r =
      if is_live (phase signal r.phases) && r.done
      then record r { phases = set_phase signal ended r.phases }
      else r

  unfoldable pub run_on : List RunEvent → Running → Running
  unfolding advance
  run_on [] r = r
  run_on (e ∷ es) r = run_on es (advance e r)
