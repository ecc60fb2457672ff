-- ===== src/Aggregator/System/Sent.antt =====
-- From the agent to the database: what a call of the collector's gRPC server has accepted.
use vkr_public.Base.{
  inl, inr, Bool, lookup, ℕ, suc, String, ◌≡◌, refl, ◌⊎◌, some, List, [], ◌∷◌, All,
}
use vkr_public.Instant.{Time, TimeText}
use vkr_public.Json.{Json, IsGoMap}
use vkr_public.Nats.{JetStream}
use vkr_public.Nats.Subscription.{IsKept}
use vkr_public.Storage.Select.Laws.{All-imp}
use vkr_public.Agent.Client.{MetricPoint, pb_metric, pb_metrics, trace_metadata}
use vkr_public.Collector.Publisher.{Message}
use vkr_public.Collector.Requests.{SpanRequest, Payload, marshal}
use vkr_public.Collector.Grpc.{
  Response, accepted, internal, metric_messages, metric_request, send_metrics, extract_trace_meta,
  collector_span_id,
}
use vkr_public.Collector.Grpc.Calls.{BatchOutcome, MaybeSpan, send_metrics-BatchOutcome}
use vkr_public.Aggregator.Messages.{MetricMsg, decode_metric}
use vkr_public.Aggregator.Roundtrip.{metric_msg_of, decode_metric-marshal_metric}
use vkr_public.Aggregator.Consumer.{State}
use vkr_public.Aggregator.System.{metrics, System, Event, run}
use vkr_public.Aggregator.System.NothingLost.{HasMetric}
use vkr_public.Aggregator.System.FromStream.{
  system_of, IsWaiting, IsWaiting-append_left, Grown-IsWaiting, run-metric,
}

-- The message says what the agent measured, under the trace of the call.
pub record Carries (m : MetricPoint) (trace_id : String) (msg : MetricMsg) : Type 0 where
  pub service_name : msg.service_name ≡ m.service_name
  pub metric_name : msg.metric_name ≡ m.metric_name
  pub value : msg.value ≡ m.value
  pub labels : msg.labels ≡ m.labels
  pub timestamp : msg.timestamp ≡ m.timestamp
  pub trace : msg.trace_id ≡ trace_id

-- The server keeps a message that says so, or the row of one is stored.
abbrev pub IsDelivered : TimeText → System → String → MetricPoint → Type 0
IsDelivered clock sys trace_id m =
    (msg : MetricMsg) × Carries m trace_id msg
    × ((j : Json) × (decode_metric clock j ≡ some msg)
        × (IsKept (some j) sys.kept_metrics ⊎ HasMetric msg sys.state.db))

module _ (clock : TimeText) where
  -- What waits in the stream for a batch is delivered in every run.
  batch-IsDelivered :
      (trace_id span_id : String) (now : ℕ → Time) (i : ℕ) (batch : List MetricPoint)
      (stored : List Message) (state : State) (events : List Event)
      → All (λ m. IsGoMap m.labels) batch
      → All
          (IsWaiting clock metrics stored)
          (metric_messages trace_id span_id now i (pb_metrics batch))
      → All (IsDelivered clock (run clock events (system_of stored state)) trace_id) batch
  unfolding metric_messages pb_metrics marshal
  batch-IsDelivered trace_id span_id now i [] stored state events labels waiting = tt
  batch-IsDelivered trace_id span_id now i (m ∷ batch) stored state events (map, maps)
        ((j, sent, kept), waiting) =
      let r = metric_request trace_id span_id (now i) (pb_metric m) in
      let decodes = decode_metric-marshal_metric clock r map sent in
      (
        (
          metric_msg_of r,
          record {
            service_name = refl;
            metric_name = refl;
            value = refl;
            labels = refl;
            timestamp = refl;
            trace = refl;
          },
          (j, decodes, run-metric clock j _ events (system_of stored state) decodes kept),
        ),
        batch-IsDelivered trace_id span_id now (suc i) batch stored state events maps waiting,
      )

-- The span of the batch, if it comes, leaves what waits.
IsWaiting-behind :
    (clock : TimeText) {S : Type 0} (js : JetStream S) (vs : List Payload) (s s' : S)
    (sp : SpanRequest)
    → MaybeSpan clock js s s' sp
    → All (IsWaiting clock metrics (js.stored s)) vs
    → All (IsWaiting clock metrics (js.stored s')) vs
IsWaiting-behind clock js vs s s' sp (inl same) h = rw same h
IsWaiting-behind clock js vs s s' sp (inr (sent, _, grown)) h =
    rw grown (All-imp (λ a. IsWaiting-append_left clock metrics (js.stored s) sent a) vs h)

accepted_waits :
    (clock : TimeText) {S : Type 0} (js : JetStream S) (vs : List Payload) (s s' : S) (n k : ℕ)
    (b : Bool) (sp : SpanRequest) (response : Response)
    → response ≡ accepted k
    → BatchOutcome clock js s s' vs n b sp response
    → All (IsWaiting clock metrics (js.stored s')) vs
accepted_waits clock js vs s s' n k b sp (accepted m) h (_, (s₁, grown, behind, _)) =
    IsWaiting-behind clock js vs s₁ s' sp behind (Grown-IsWaiting clock js metrics vs s s₁ grown)
accepted_waits clock js vs s s' n k b sp (internal e) h outcome = cc

-- A batch that the agent sends, with labels that are Go maps, and that the collector's gRPC server
-- accepts, is in the stream. In every run of new consumers that take this stream, in any order and
-- with any failures and lost answers, for each point of the batch the server keeps a message with its
-- service, name, value, labels and timestamp and the trace identifier of the call, or the table has
-- the row of one.
pub sent_batch_stored :
    (clock : TimeText) {S : Type 0} (js : JetStream S) (trace_id parent_span_id fresh : String)
    (start finish : Time) (now : ℕ → Time) (batch : List MetricPoint) (s : S) (k : ℕ)
    (state : State) (events : List Event)
    → All (λ m. IsGoMap m.labels) batch
    → let answer =
        send_metrics clock js
          (trace_metadata trace_id parent_span_id)
          fresh
          start
          finish
          now
          (pb_metrics batch)
          s in
      answer.1 ≡ accepted k
      → All
          (IsDelivered clock (run clock events (system_of (js.stored answer.0) state)) trace_id)
          batch
unfolding extract_trace_meta lookup
sent_batch_stored clock js trace_id parent_span_id fresh start finish now batch s k state events
      labels ok =
    let md = trace_metadata trace_id parent_span_id in
    let answer = send_metrics clock js md fresh start finish now (pb_metrics batch) s in
    let span_id = collector_span_id trace_id fresh (pb_metrics batch) in
    batch-IsDelivered clock trace_id span_id now 0 batch (js.stored answer.0) state events labels (
      accepted_waits clock js _ s answer.0 _ k _ _ answer.1 ok
        (send_metrics-BatchOutcome clock js md fresh start finish now (pb_metrics batch) s))
