-- ===== src/Collector/Handler/Filled.antt =====
-- What the collector's HTTP handler for a metric makes of a body, of its timestamp and of the answer of
-- the stream (cmd/collector/handler.go: receiveMetrics).
use vkr_public.Base.{◌≡◌, ◌≢◌, refl, ◌⊎◌, inl, inr, Option, none, some, Option-cases, arith}
use vkr_public.Instant.{Time, TimeText, zero_time}
use vkr_public.Json.{Json}
use vkr_public.Nats.{JetStream, subject_metrics}
use vkr_public.Collector.Requests.{MetricRequest, metric}
use vkr_public.Collector.Handler.{
  bind_metric, default_time, stamp_metric, bad_request, receive_metrics,
}
use vkr_public.Collector.Handler.Replies.{Answered, receive_metrics-Stamped}

-- The timestamp of a message: the clock's where the request has none, and the request's own where it
-- has one.
abbrev pub IsTimed : Time → Time → Time → Type 0
IsTimed now asked t = ((asked ≡ zero_time) × (t ≡ now)) ⊎ ((asked ≢ zero_time) × (t ≡ asked))

-- The message has what the request says, and a timestamp.
pub record IsFilled (now : Time) (r m : MetricRequest) : Type 0 where
  pub service_name : m.service_name ≡ r.service_name
  pub metric_name : m.metric_name ≡ r.metric_name
  pub value : m.value ≡ r.value
  pub labels : m.labels ≡ r.labels
  pub timestamp : IsTimed now r.timestamp m.timestamp
  pub trace_id : m.trace_id ≡ r.trace_id
  pub collector_span_id : m.collector_span_id ≡ r.collector_span_id

default_time-IsTimed : (now t : Time) → IsTimed now t (default_time now t)
unfolding default_time
default_time-IsTimed now t = ground arith

pub stamp_metric-IsFilled : (now : Time) (r : MetricRequest) → IsFilled now r (stamp_metric now r)
unfolding stamp_metric
stamp_metric-IsFilled now r = record {
  service_name = refl;
  metric_name = refl;
  value = refl;
  labels = refl;
  timestamp = default_time-IsTimed now r.timestamp;
  trace_id = refl;
  collector_span_id = refl;
}

module _ (clock : TimeText) {S : Type 0} (js : JetStream S) where
  -- POST /api/v1/metrics answers 400 and leaves the stream alone exactly when the body does not bind.
  -- Otherwise it makes one message with what the body says, and with the time of the clock where
  -- that is without a timestamp. It answers 202 exactly when the message can be marshalled and the
  -- stream accepts it, which then has it at its end, and else 500, with the stream unchanged or
  -- grown by that message.
  pub receive_metrics-Received :
      (now : Time) (body : Option Json) (s : S)
      → ((bind_metric clock body ≡ none) × (receive_metrics clock js now body s ≡ (s, bad_request)))
        ⊎ ((r : MetricRequest) × (m : MetricRequest) × (bind_metric clock body ≡ some r)
            × IsFilled now r m
            × Answered clock js subject_metrics (metric m) s (receive_metrics clock js now body s))
  receive_metrics-Received now body s = elim (Option-cases (bind_metric clock body)) [
    | inl bad ↦ inl (bad, rw bad at (receive_metrics-Stamped clock js now body s))
    | inr (r, good) ↦ inr (
      r,
      stamp_metric now r,
      good,
      stamp_metric-IsFilled now r,
      rw good at (receive_metrics-Stamped clock js now body s),
    )
  ]
