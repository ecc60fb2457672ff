-- ===== src/Nats/Defs.antt =====
-- The interface of JetStream, the subjects and the acknowledgement of a delivery.
use vkr_public.Base.{String, ◌≡◌, ◌⊎◌, Option, none, some, List, [], ◌∷◌, ◌++◌}
use vkr_public.Json.{Json}

abbrev pub subject_metrics : String
subject_metrics = "telemetry.metrics"

abbrev pub subject_logs : String
subject_logs = "telemetry.logs"

abbrev pub subject_spans : String
subject_spans = "telemetry.spans"

-- `S` is the state of the server and of the connection to it, and an error is its text.
pub record JetStream (S : Type 0) : Type 0 where
  pub publish : S → String → Json → S × Option String
  pub stored : S → List (String × Json)
  pub stored-publish :
      (s : S) (subject : String) (j : Json)
      → (publish s subject j).1 ≡ none
      → stored (publish s subject j).0 ≡ stored s ++ (subject, j) ∷ []
  pub stored-publish_failed :
      (s : S) (subject : String) (j : Json) {e : String}
      → (publish s subject j).1 ≡ some e
      → (stored (publish s subject j).0 ≡ stored s)
        ⊎ (stored (publish s subject j).0 ≡ stored s ++ (subject, j) ∷ [])

-- What the callback of Consume answers to the server for one delivered message.
pub data Delivery : Type 0 where
  ack nak : Delivery
