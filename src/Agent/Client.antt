-- ===== src/Agent/Client.antt =====
-- The agent's records and the messages of the gRPC client (cmd/agent/client.go). What the agent does
-- is a list of actions; the result of a call is an input of what follows it.
use vkr_public.Base.{String, some, List, [], ◌∷◌, StringMap}
use vkr_public.Float64.{Float64}
use vkr_public.Instant.{Time}
use vkr_public.Wire.{PbMetricPoint, PbLogEntry, PbTraceSpan, Metadata}

pub record MetricPoint : Type 0 where
  pub service_name : String
  pub metric_name : String
  pub value : Float64
  pub labels : StringMap
  pub timestamp : Time

pub record LogEntry : Type 0 where
  pub service_name : String
  pub level : String
  pub message : String
  pub trace_id : String
  pub fields : StringMap
  pub timestamp : Time

pub record SpanEntry : Type 0 where
  pub trace_id : String
  pub span_id : String
  pub parent_span_id : String
  pub service_name : String
  pub operation_name : String
  pub start_time : Time
  pub end_time : Time
  pub status : String
  pub attributes : StringMap

-- The calls of the collector's service, and a message posted to Telegram: its URL and its JSON.
pub data Action : Type 0 where
  send_metrics : Metadata → List PbMetricPoint → Action
  send_logs : List PbLogEntry → Action
  send_spans : List PbTraceSpan → Action
  post : String → StringMap → Action

-- The messages of the client. Every map of the agent has entries, so that none is lost as nil on the
-- wire.
unfoldable pub pb_metric : MetricPoint → PbMetricPoint
pb_metric m = record {
  service_name = m.service_name;
  metric_name = m.metric_name;
  value = m.value;
  labels = m.labels;
  timestamp = some m.timestamp;
}

unfoldable pub pb_metrics : List MetricPoint → List PbMetricPoint
unfolding pb_metric
pb_metrics [] = []
pb_metrics (m ∷ ms) = pb_metric m ∷ pb_metrics ms

unfoldable pub pb_log : LogEntry → PbLogEntry
pb_log e = record {
  service_name = e.service_name;
  level = e.level;
  message = e.message;
  trace_id = e.trace_id;
  fields = e.fields;
  timestamp = some e.timestamp;
}

unfoldable pub pb_span : SpanEntry → PbTraceSpan
pb_span s = record {
  trace_id = s.trace_id;
  span_id = s.span_id;
  parent_span_id = s.parent_span_id;
  service_name = s.service_name;
  operation_name = s.operation_name;
  start_time = some s.start_time;
  end_time = some s.end_time;
  status = s.status;
  attributes = s.attributes;
}

-- The metadata of sendBatchTraced.
abbrev pub trace_metadata : String → String → Metadata
trace_metadata trace_id parent_span_id =
    some (("trace-id", trace_id ∷ []) ∷ ("parent-span-id", parent_span_id ∷ []) ∷ [])

unfoldable pub send_batch_traced : List MetricPoint → String → String → Action
unfolding pb_metrics
send_batch_traced batch trace_id parent_span_id =
    send_metrics (trace_metadata trace_id parent_span_id) (pb_metrics batch)

unfoldable pub send_log_call : LogEntry → Action
unfolding pb_log
send_log_call e = send_logs (pb_log e ∷ [])

unfoldable pub send_span_call : SpanEntry → Action
unfolding pb_span
send_span_call s = send_spans (pb_span s ∷ [])
