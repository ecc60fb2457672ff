-- ===== src/Collector/Grpc.antt =====
-- The gRPC server of the collector (cmd/collector/grpc_server.go).
-- The clock readings, the fresh span identifier and the metadata of a call are arguments; `now i` is
-- the clock when item `i` of a request is converted. Logging is left out.
pub mod Delivery
pub mod Calls
use vkr_public.Base.{
  ℕ, zero, suc, ◌%◌, ◌^◌, String, Option, none, some, List, [], ◌∷◌, ◌&&◌, ◌==◌, not, Bool, true,
  false, ltb, if◌then◌else◌, length, lookup, decimal,
}
use vkr_public.Instant.{Time, TimeText}
use vkr_public.Nats.{JetStream, subject_metrics, subject_logs, subject_spans}
use vkr_public.Wire.{PbMetricPoint, PbLogEntry, PbTraceSpan, Metadata}
use vkr_public.Collector.Requests.{
  MetricRequest, LogRequest, SpanRequest, Payload, metric, log, span,
}
use vkr_public.Collector.Publisher.{PublishError, publish}

-- The response, whose count is a uint32, or the status Internal.
pub data Response : Type 0 where
  accepted : ℕ → Response
  internal : PublishError → Response

abbrev pub count32 {ℓ} : {A : Type ℓ} → List A → ℕ
count32 l = length l % 2 ^ 32

unfoldable pub proto_time : Time → Option Time → Time
proto_time now none = now
proto_time now (some t) = t

abbrev first_value : Option (List String) → String
first_value none = ""
first_value (some []) = ""
first_value (some (v ∷ vs)) = v

-- The trace identifier and the parent span identifier.
unfoldable pub extract_trace_meta : Metadata → String × String
unfolding lookup
extract_trace_meta none = ("", "")
extract_trace_meta (some md) =
    (first_value (lookup "trace-id" md), first_value (lookup "parent-span-id" md))

abbrev is_empty {ℓ} : {A : Type ℓ} → List A → Bool
is_empty [] = true
is_empty (x ∷ xs) = false

-- `traceID != "" && len(req.Metrics) > 0`
unfoldable pub traced : String → List PbMetricPoint → Bool
traced trace_id ms = not (trace_id == "") && not (is_empty ms)

-- The identifier of the batch's span, or "" where there is no span.
unfoldable pub collector_span_id : String → String → List PbMetricPoint → String
unfolding traced
collector_span_id trace_id fresh ms = if traced trace_id ms then fresh else ""

unfoldable pub metric_request : String → String → Time → PbMetricPoint → MetricRequest
unfolding proto_time
metric_request trace_id collector_span_id now m = record {
  service_name = m.service_name;
  metric_name = m.metric_name;
  value = m.value;
  labels = m.labels;
  timestamp = proto_time now m.timestamp;
  trace_id = trace_id;
  collector_span_id = collector_span_id;
}

unfoldable pub log_request : Time → PbLogEntry → LogRequest
unfolding proto_time
log_request now l = record {
  service_name = l.service_name;
  level = l.level;
  message = l.message;
  trace_id = l.trace_id;
  fields = l.fields;
  timestamp = proto_time now l.timestamp;
}

-- `start` and `finish` are the clock at the two conversions.
unfoldable pub span_request : Time → Time → PbTraceSpan → SpanRequest
unfolding proto_time
span_request start finish s = record {
  trace_id = s.trace_id;
  span_id = s.span_id;
  parent_span_id = s.parent_span_id;
  service_name = s.service_name;
  operation_name = s.operation_name;
  start_time = proto_time start s.start_time;
  end_time = proto_time finish s.end_time;
  status = s.status;
  attributes = s.attributes;
}

-- The messages of the loops, in order.
unfoldable pub metric_messages :
    String → String → (ℕ → Time) → ℕ → List PbMetricPoint → List Payload
unfolding metric_request
metric_messages trace_id span_id now i [] = []
metric_messages trace_id span_id now i (m ∷ ms) =
    metric (metric_request trace_id span_id (now i) m)
    ∷ metric_messages trace_id span_id now (suc i) ms

unfoldable pub log_messages : (ℕ → Time) → ℕ → List PbLogEntry → List Payload
unfolding log_request
log_messages now i [] = []
log_messages now i (l ∷ ls) = log (log_request (now i) l) ∷ log_messages now (suc i) ls

unfoldable pub span_messages : (ℕ → Time) → (ℕ → Time) → ℕ → List PbTraceSpan → List Payload
unfolding span_request
span_messages start finish i [] = []
span_messages start finish i (s ∷ ss) =
    span (span_request (start i) (finish i) s) ∷ span_messages start finish (suc i) ss

abbrev service_of : List PbMetricPoint → String
service_of [] = ""
service_of (m ∷ ms) = m.service_name

-- The span that the collector writes for a batch.
unfoldable pub collector_span :
    String → String → String → Time → Time → List PbMetricPoint → SpanRequest
unfolding decimal
collector_span trace_id span_id parent_span_id start finish ms = record {
  trace_id = trace_id;
  span_id = span_id;
  parent_span_id = parent_span_id;
  service_name = "collector";
  operation_name = "collector.receive_metrics";
  start_time = start;
  end_time = finish;
  status = "ok";
  attributes = some (("metrics_count", decimal (length ms)) ∷ ("service", service_of ms) ∷ []);
}

module _ (clock : TimeText) {S : Type 0} (js : JetStream S) where
  -- The loop of the three methods: it stops at the first publication that fails.
  unfoldable pub publish_each : String → List Payload → S → S × Option PublishError
  publish_each subject [] s = (s, none)
  publish_each subject (v ∷ vs) s = elim (publish clock js s subject v).1 [
    | none ↦ publish_each subject vs (publish clock js s subject v).0
    | some e ↦ ((publish clock js s subject v).0, some e)
  ]

  abbrev respond : ℕ → S × Option PublishError → S × Response
  respond n (s, none) = (s, accepted n)
  respond n (s, some e) = (s, internal e)

  -- The collector span is published once, and a failure of that is not reported.
  abbrev with_span : Bool → ℕ → SpanRequest → S × Option PublishError → S × Response
  with_span b n sp (s, some e) = (s, internal e)
  with_span false n sp (s, none) = (s, accepted n)
  with_span true n sp (s, none) = ((publish clock js s subject_spans (span sp)).0, accepted n)

  unfoldable pub send_metrics :
      Metadata → String → Time → Time → (ℕ → Time) → List PbMetricPoint → S → S × Response
  unfolding publish_each extract_trace_meta collector_span_id metric_messages collector_span
  send_metrics md fresh start finish now ms s =
      let (trace_id, parent_span_id) = extract_trace_meta md in
      let span_id = collector_span_id trace_id fresh ms in
      with_span (traced trace_id ms) (count32 ms)
        (collector_span trace_id span_id parent_span_id start finish ms)
        (publish_each subject_metrics (metric_messages trace_id span_id now 0 ms) s)

  unfoldable pub send_logs : (ℕ → Time) → List PbLogEntry → S → S × Response
  unfolding publish_each log_messages
  send_logs now ls s = respond (count32 ls) (publish_each subject_logs (log_messages now 0 ls) s)

  unfoldable pub send_spans : (ℕ → Time) → (ℕ → Time) → List PbTraceSpan → S → S × Response
  unfolding publish_each span_messages
  send_spans start finish ss s =
      respond (count32 ss) (publish_each subject_spans (span_messages start finish 0 ss) s)
