-- ===== src/Aggregator/System/FromStream.antt =====
-- The consumers begin with what the collector has left in the stream (internal/nats/jetstream.go:
-- Subscribe, DeliverAllPolicy).
use mathlib.Core.Path.{subst}
use vkr_public.Base.{
  never_none, ◌≡◌, refl, ap, ◌⊎◌, inl, inr, Option, some, List, [], ◌∷◌, ◌++◌, ◌==◌, if◌then◌else◌,
  All, Bool-cases, eq_refl,
}
use vkr_public.Instant.{TimeText}
use vkr_public.Json.{Json}
use vkr_public.Nats.{JetStream}
use vkr_public.Nats.Subscription.{IsKept, IsKept-append_left, IsKept-append_right}
use vkr_public.Storage.Select.Laws.{All-imp}
use vkr_public.Collector.Publisher.{Message}
use vkr_public.Collector.Requests.{Payload, marshal}
use vkr_public.Collector.Grpc.Delivery.{Encodes, Grown}
use vkr_public.Aggregator.Messages.{
  MetricMsg, LogMsg, SpanMsg, decode_metric, decode_log, decode_span,
}
use vkr_public.Aggregator.Consumer.{State}
use vkr_public.Aggregator.System.{Signal, metrics, logs, spans, subject_of, System, Event, run}
use vkr_public.Aggregator.System.NothingLost.{HasMetric, HasLog, HasSpan, run-IsKept}

-- The messages of the stream that a consumer takes: those of its subject.
abbrev pub own_messages : Signal → List Message → List (Option Json)
own_messages signal [] = []
own_messages signal ((subject, j) ∷ rest) =
    if subject == subject_of signal
    then some j ∷ own_messages signal rest
    else own_messages signal rest

-- The consumers are new, and take the stream from its first message on.
abbrev pub system_of : List Message → State → System
system_of stored state = record {
  kept_metrics = own_messages metrics stored;
  kept_logs = own_messages logs stored;
  kept_spans = own_messages spans stored;
  state = state;
}

pub own_messages-append :
    (signal : Signal) (xs ys : List Message)
    → own_messages signal (xs ++ ys) ≡ own_messages signal xs ++ own_messages signal ys
own_messages-append signal [] ys = refl
own_messages-append signal ((subject, j) ∷ xs) ys =
    elim (Bool-cases (subject == subject_of signal)) [
      | inl own ↦ rw own (ap (λ ms. some j ∷ ms) (own_messages-append signal xs ys))
      | inr foreign ↦ rw foreign (own_messages-append signal xs ys)
    ]

same_message {ℓ} : {A : Type ℓ} {a b : A} (o : Option A) → o ≡ some a → o ≡ some b → a ≡ b
same_message o h e = cc

module _ (clock : TimeText) where
  -- The JSON of the value waits in the stream for the consumer.
  abbrev pub IsWaiting : Signal → List Message → Payload → Type 0
  IsWaiting signal stored v =
      (j : Json) × (marshal clock v ≡ some j) × IsKept (some j) (own_messages signal stored)

  IsWaiting-append_right :
      (signal : Signal) (xs ys : List Message) (v : Payload)
      → IsWaiting signal ys v
      → IsWaiting signal (xs ++ ys) v
  IsWaiting-append_right signal xs ys v (j, sent, h) =
      (j, sent, rw (own_messages-append signal xs ys) (IsKept-append_right _ _ _ h))

  pub IsWaiting-append_left :
      (signal : Signal) (xs ys : List Message) (v : Payload)
      → IsWaiting signal xs v
      → IsWaiting signal (xs ++ ys) v
  IsWaiting-append_left signal xs ys v (j, sent, h) =
      (j, sent, rw (own_messages-append signal xs ys) (IsKept-append_left _ _ _ h))

  Encodes-IsWaiting :
      (signal : Signal) (vs : List Payload) (sent : List Message)
      → Encodes clock (subject_of signal) vs sent
      → All (IsWaiting signal sent) vs
  Encodes-IsWaiting signal [] [] h = tt
  Encodes-IsWaiting signal [] (m ∷ ms) h = absurd h
  Encodes-IsWaiting signal (v ∷ vs) [] h = absurd h
  Encodes-IsWaiting signal (v ∷ vs) ((subject, j) ∷ ms) (own, sent, h) = (
    (j, sent, rw (own, eq_refl (subject_of signal)) (inl refl)),
    All-imp (λ a. IsWaiting-append_right signal ((subject, j) ∷ []) ms a) vs
        (Encodes-IsWaiting signal vs ms h),
  )

  -- In every run, a message that decodes stays kept, or its row is stored.
  pub run-metric :
      (j : Json) (msg : MetricMsg) (events : List Event) (sys : System)
      → decode_metric clock j ≡ some msg
      → IsKept (some j) sys.kept_metrics
      → IsKept (some j) (run clock events sys).kept_metrics
        ⊎ HasMetric msg (run clock events sys).state.db
  run-metric j msg events sys decodes waiting =
      elim (run-IsKept clock metrics (some j) events sys waiting) [
        | inl stays ↦ inl stays
        | inr (inl bad) ↦ absurd (never_none decodes bad)
        | inr (inr (m, good, row)) ↦ inr (
            subst (λ n. HasMetric n (run clock events sys).state.db) (same_message _ good decodes)
              row)
      ]

  pub run-log :
      (j : Json) (msg : LogMsg) (events : List Event) (sys : System)
      → decode_log clock j ≡ some msg
      → IsKept (some j) sys.kept_logs
      → IsKept (some j) (run clock events sys).kept_logs
        ⊎ HasLog msg (run clock events sys).state.db
  run-log j msg events sys decodes waiting =
      elim (run-IsKept clock logs (some j) events sys waiting) [
        | inl stays ↦ inl stays
        | inr (inl bad) ↦ absurd (never_none decodes bad)
        | inr (inr (m, good, row)) ↦ inr (
            subst (λ n. HasLog n (run clock events sys).state.db) (same_message _ good decodes) row)
      ]

  pub run-span :
      (j : Json) (msg : SpanMsg) (events : List Event) (sys : System)
      → decode_span clock j ≡ some msg
      → IsKept (some j) sys.kept_spans
      → IsKept (some j) (run clock events sys).kept_spans
        ⊎ HasSpan msg (run clock events sys).state.db
  run-span j msg events sys decodes waiting =
      elim (run-IsKept clock spans (some j) events sys waiting) [
        | inl stays ↦ inl stays
        | inr (inl bad) ↦ absurd (never_none decodes bad)
        | inr (inr (m, good, row)) ↦ inr (
            subst (λ n. HasSpan n (run clock events sys).state.db) (same_message _ good decodes)
              row)
      ]

-- Values that a call has put into the stream wait there.
pub Grown-IsWaiting :
    (clock : TimeText) {S : Type 0} (js : JetStream S) (signal : Signal) (vs : List Payload)
    (s s' : S)
    → Grown clock js s s' (subject_of signal) vs
    → All (IsWaiting clock signal (js.stored s')) vs
Grown-IsWaiting clock js signal vs s s' (sent, encoded, grown) = rw grown (
    All-imp (λ a. IsWaiting-append_right clock signal (js.stored s) sent a) vs
      (Encodes-IsWaiting clock signal vs sent encoded))
