-- ===== src/Aggregator/Roundtrip.antt =====
-- What the collector publishes is what the aggregator decodes.
use mathlib.Core.Option
use vkr_public.Base.{◌≡◌, some, true, ◌==◌, eq_iff, none, arith, Bool-cases, inl, inr}
use vkr_public.Instant.{Time, TimeText, is_json_time}
use vkr_public.Float64.{is_finite}
use vkr_public.Json.{
  Json, obj, fields_of, time_into, map_into, encode_map, members_into, struct_into, string_into,
  float_into, IsGoMap, map_into-encode_map,
}
use vkr_public.Collector.Requests.{
  MetricRequest, LogRequest, SpanRequest, metric_members, log_members, span_members, marshal_metric,
  marshal_log, marshal_span,
}
use vkr_public.Aggregator.Messages.{
  MetricMsg, LogMsg, SpanMsg, decode_metric, decode_log, decode_span,
}

-- The message with the fields of a request.
abbrev pub metric_msg_of : MetricRequest → MetricMsg
metric_msg_of m = record {
  service_name = m.service_name;
  metric_name = m.metric_name;
  value = m.value;
  labels = m.labels;
  timestamp = m.timestamp;
  trace_id = m.trace_id;
  collector_span_id = m.collector_span_id;
}

abbrev pub log_msg_of : LogRequest → LogMsg
log_msg_of l = record {
  service_name = l.service_name;
  level = l.level;
  message = l.message;
  trace_id = l.trace_id;
  fields = l.fields;
  timestamp = l.timestamp;
}

abbrev pub span_msg_of : SpanRequest → SpanMsg
span_msg_of s = record {
  trace_id = s.trace_id;
  span_id = s.span_id;
  parent_span_id = s.parent_span_id;
  service_name = s.service_name;
  operation_name = s.operation_name;
  start_time = s.start_time;
  end_time = s.end_time;
  status = s.status;
  attributes = s.attributes;
}

module _ (clock : TimeText) where
  parse_json_time : (t : Time) → is_json_time t ≡ true → clock.parse (clock.format t) ≡ some t
  parse_json_time t h = clock.parse-format t (ground arith) (ground arith)

  decode_metric_members :
      (m : MetricRequest)
      → IsGoMap m.labels
      → is_finite m.value ≡ true
      → is_json_time m.timestamp ≡ true
      → decode_metric clock (obj (fields_of (metric_members clock m))) ≡ some (metric_msg_of m)
  unfolding decode_metric members_into struct_into string_into float_into time_into Option.bind
  decode_metric_members m g f h = elim (Bool-cases (m.trace_id == "")) [
    | inl p ↦ elim (Bool-cases (m.collector_span_id == "")) [
      | inl q ↦ rw (f, p, q, labels, instant) (cc ((eq_iff _ _).0 p, (eq_iff _ _).0 q))
      | inr q ↦ rw (f, p, q, labels, instant) (cc ((eq_iff _ _).0 p))
    ]
    | inr p ↦ elim (Bool-cases (m.collector_span_id == "")) [
      | inl q ↦ rw (f, p, q, labels, instant) (cc ((eq_iff _ _).0 q))
      | inr q ↦ rw (f, p, q, labels, instant)
    ]
  ]
    where
      labels : map_into (encode_map m.labels) none ≡ some m.labels
      labels = map_into-encode_map m.labels g

      instant : clock.parse (clock.format m.timestamp) ≡ some m.timestamp
      instant = parse_json_time m.timestamp h

  decode_log_members :
      (l : LogRequest)
      → IsGoMap l.fields
      → is_json_time l.timestamp ≡ true
      → decode_log clock (obj (fields_of (log_members clock l))) ≡ some (log_msg_of l)
  unfolding decode_log members_into struct_into string_into time_into Option.bind
  decode_log_members l g h = rw (map_into-encode_map l.fields g, parse_json_time l.timestamp h)

  decode_span_members :
      (s : SpanRequest)
      → IsGoMap s.attributes
      → is_json_time s.start_time ≡ true
      → is_json_time s.end_time ≡ true
      → decode_span clock (obj (fields_of (span_members clock s))) ≡ some (span_msg_of s)
  unfolding decode_span members_into struct_into string_into time_into Option.bind
  decode_span_members s g h k = rw (
    parse_json_time s.start_time h,
    parse_json_time s.end_time k,
    map_into-encode_map s.attributes g,
  )

  -- A metric that can be published, whose labels are a Go map, is decoded with each of its fields,
  -- the empty identifiers that `omitempty` leaves out included.
  pub decode_metric-marshal_metric :
      (m : MetricRequest) {j : Json}
      → IsGoMap m.labels
      → marshal_metric clock m ≡ some j
      → decode_metric clock j ≡ some (metric_msg_of m)
  unfolding marshal_metric
  decode_metric-marshal_metric m {j} g h = ground (arith, decode_metric_members m g)

  -- A log entry that can be published, whose fields are a Go map, is decoded with each of its
  -- fields.
  pub decode_log-marshal_log :
      (l : LogRequest) {j : Json}
      → IsGoMap l.fields
      → marshal_log clock l ≡ some j
      → decode_log clock j ≡ some (log_msg_of l)
  unfolding marshal_log
  decode_log-marshal_log l {j} g h = ground (arith, decode_log_members l g)

  -- A span that can be published, whose attributes are a Go map, is decoded with each of its
  -- fields.
  pub decode_span-marshal_span :
      (s : SpanRequest) {j : Json}
      → IsGoMap s.attributes
      → marshal_span clock s ≡ some j
      → decode_span clock j ≡ some (span_msg_of s)
  unfolding marshal_span
  decode_span-marshal_span s {j} g h = ground (arith, decode_span_members s g)
