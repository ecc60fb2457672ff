-- ===== src/Aggregator/System.antt =====
-- The aggregator and the stream together (cmd/aggregator/consumer.go: Run, and Subscribe of
-- internal/nats/jetstream.go): the messages that the server keeps for each of the three durable
-- consumers, and the state of the aggregator.
-- Each consumer takes the messages of its own subject, from the first of the stream on. The age limit
-- of the stream, 24 hours, is left out.
pub mod NothingLost
pub mod Drain
pub mod FromStream
pub mod Accepted
pub mod Sent
pub mod Reported
pub mod Running
pub mod Starved
pub mod Runs
use vkr_public.Base.{ℕ, zero, Bool, String, Option, List, [], ◌∷◌, ◌++◌, ◌==◌, if◌then◌else◌}
use vkr_public.Instant.{TimeText}
use vkr_public.Json.{Json}
use vkr_public.Nats.{Delivery, subject_metrics, subject_logs, subject_spans}
use vkr_public.Nats.Subscription.{deliver}
use vkr_public.Aggregator.Consumer.{State, Surroundings, consume_metric, consume_log, consume_span}

pub data Signal : Type 0 where
  metrics logs spans : Signal

-- The FilterSubject of the consumer.
abbrev pub subject_of : Signal → String
subject_of metrics = subject_metrics
subject_of logs = subject_logs
subject_of spans = subject_spans

pub record System : Type 0 where
  pub kept_metrics : List (Option Json)
  pub kept_logs : List (Option Json)
  pub kept_spans : List (Option Json)
  pub state : State

abbrev pub kept : Signal → System → List (Option Json)
kept metrics sys = sys.kept_metrics
kept logs sys = sys.kept_logs
kept spans sys = sys.kept_spans

-- What a delivery for one consumer leaves.
abbrev pub put : Signal → System → List (Option Json) × State → System
put metrics sys r = record sys { kept_metrics = r.0; state = r.1 }
put logs sys r = record sys { kept_logs = r.0; state = r.1 }
put spans sys r = record sys { kept_spans = r.0; state = r.1 }

abbrev pub arrived : String → Signal → Option Json → System → List (Option Json)
arrived subject signal m sys =
    if subject == subject_of signal then kept signal sys ++ m ∷ [] else kept signal sys

-- A message is published.
unfoldable pub arrive : String → Option Json → System → System
arrive subject m sys = record sys {
  kept_metrics = arrived subject metrics m sys;
  kept_logs = arrived subject logs m sys;
  kept_spans = arrived subject spans m sys;
}

pub data Event : Type 0 where
  published : String → Option Json → Event
  delivered : Signal → ℕ → Surroundings → (arrives : Bool) → Event

module _ (clock : TimeText) where
  abbrev pub handle : Signal → Surroundings → Option Json → State → State × Delivery
  handle metrics w m s = consume_metric clock w m s
  handle logs w m s = consume_log clock w.link m s
  handle spans w m s = consume_span clock w.link m s

  abbrev pub play : Event → System → System
  play (published subject m) sys = arrive subject m sys
  play (delivered signal k w arrives) sys =
      put signal sys (deliver (handle signal) k w arrives (kept signal sys, sys.state))

  -- The three consumers run side by side: the events come in any order.
  unfoldable pub run : List Event → System → System
  unfolding arrive deliver
  run [] sys = sys
  run (e ∷ es) sys = run es (play e sys)
