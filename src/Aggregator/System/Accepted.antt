-- ===== src/Aggregator/System/Accepted.antt =====
-- From the collector's answer to the database: a metric that a client was told is accepted.
use mathlib.Core.List.{Mem}
use vkr_public.Base.{refl, ℕ, ◌≡◌, ◌⊎◌, inl, inr, Option, some, List, [], ◌∷◌, arith}
use vkr_public.Instant.{Time, TimeText, timestamptz}
use vkr_public.Json.{Json, IsGoMap}
use vkr_public.Nats.{JetStream, subject_metrics}
use vkr_public.Nats.Subscription.{IsKept}
use vkr_public.Http.{Body, Reply}
use vkr_public.Collector.Requests.{MetricRequest, Payload, metric, marshal, marshal_metric}
use vkr_public.Collector.Handler.{bind_metric, stamp_metric, receive_metrics}
use vkr_public.Collector.Handler.Replies.{Answered, receive_metrics-Stamped}
use vkr_public.Collector.Handler.Filled.{IsFilled, stamp_metric-IsFilled}
use vkr_public.Collector.Grpc.Delivery.{Grown}
use vkr_public.Aggregator.Roundtrip.{metric_msg_of, decode_metric-marshal_metric}
use vkr_public.Storage.Tables.{MetricPoint, Tables, metric_row}
use vkr_public.Aggregator.Consumer.{State, point_of}
use vkr_public.Aggregator.System.FromStream.{system_of, Grown-IsWaiting, run-metric}
use vkr_public.Aggregator.System.{metrics, Event, run}
use vkr_public.Aggregator.System.NothingLost.{HasMetric}

failed-ne-accepted : ◌≡◌ {A = ℕ} 500 202 → ⊥
failed-ne-accepted h = omega arith

module _ (clock : TimeText) {S : Type 0} (js : JetStream S) where
  -- The stream has the metric at its end.
  accepted-Grown :
      (s : S) (v : Payload) (result : S × Reply Body)
      → Answered clock js subject_metrics v s result
      → result.1.status ≡ 202
      → Grown clock js s result.0 subject_metrics (v ∷ [])
  accepted-Grown s v result (inl (reply, grown, sent)) h = grown
  accepted-Grown s v result (inr (reply, grown, failed)) h =
      absurd (failed-ne-accepted (rw reply at h))

-- The row says what the message says, with the time in microseconds.
pub record IsRowOf (m : MetricRequest) (x : MetricPoint) : Type 0 where
  pub service_name : x.service_name ≡ m.service_name
  pub metric_name : x.metric_name ≡ m.metric_name
  pub value : x.value ≡ m.value
  pub labels : x.labels ≡ m.labels
  pub timestamp : x.timestamp ≡ timestamptz m.timestamp

HasMetric-IsRowOf :
    (m : MetricRequest) (db : Tables)
    → HasMetric (metric_msg_of m) db
    → (x : MetricPoint) × Mem x db.metrics × IsRowOf m x
unfolding point_of metric_row
HasMetric-IsRowOf m db (id, stored) = (
  metric_row id (point_of (metric_msg_of m)),
  stored,
  record { service_name = refl; metric_name = refl; value = refl; labels = refl; timestamp = refl },
)

-- A metric whose request the collector's HTTP server has answered 202, and whose labels are a Go map,
-- is in the stream as the JSON of a message with what the request says, and with the time of the
-- collector's clock where the request has no timestamp. In every run of new consumers that take this
-- stream, in any order and with any failures and lost answers, the server keeps this message, or the
-- table has a row that says what the message says.
pub accepted_metric_stored :
    (clock : TimeText) {S : Type 0} (js : JetStream S) (now : Time) (body : Option Json) (s : S)
    (r : MetricRequest) (state : State) (events : List Event)
    → bind_metric clock body ≡ some r
    → IsGoMap r.labels
    → (receive_metrics clock js now body s).1.status ≡ 202
    → let stored = js.stored (receive_metrics clock js now body s).0 in
      let sys = run clock events (system_of stored state) in
      (m : MetricRequest) × (j : Json) × IsFilled now r m
      × (marshal_metric clock m ≡ some j)
      × (IsKept (some j) sys.kept_metrics
          ⊎ ((x : MetricPoint) × Mem x sys.state.db.metrics × IsRowOf m x))
unfolding marshal stamp_metric
accepted_metric_stored clock js now body s r state events bound labels accepted =
    let result = receive_metrics clock js now body s in
    let m = stamp_metric now r in
    let answer : Answered clock js subject_metrics (metric m) s result =
      rw bound at (receive_metrics-Stamped clock js now body s) in
    let grown = accepted-Grown clock js s (metric m) result answer accepted in
    let (j, sent, waiting) =
      (Grown-IsWaiting clock js metrics (metric m ∷ []) s result.0 grown).0 in
    let decodes = decode_metric-marshal_metric clock m labels sent in
    let kept = run-metric clock j _ events (system_of (js.stored result.0) state) decodes waiting in
    (
      m,
      j,
      stamp_metric-IsFilled now r,
      sent,
      elim kept [
        | inl waits ↦ inl waits
        | inr stored ↦ inr (
            HasMetric-IsRowOf m (run clock events (system_of (js.stored result.0) state)).state.db
              stored)
      ],
    )
