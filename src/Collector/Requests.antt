-- ===== src/Collector/Requests.antt =====
-- The request types of the collector and their JSON (cmd/collector/handler.go).
use mathlib.Core.Option
use vkr_public.Base.{
  String, Bool, Option, none, some, [], ◌∷◌, ◌&&◌, ◌==◌, not, if◌then◌else◌, StringMap, Assoc,
}
use vkr_public.Float64.{Float64, is_finite, zero_f}
use vkr_public.Instant.{Time, TimeText, is_json_time, zero_time}
use vkr_public.Json.{
  Json, num, str, obj, fields_of, encode_map, omit_empty, string_into, float_into, time_into,
  map_into,
}

pub record MetricRequest : Type 0 where
  pub service_name : String
  pub metric_name : String
  pub value : Float64
  pub labels : StringMap
  pub timestamp : Time
  pub trace_id : String
  pub collector_span_id : String

pub record LogRequest : Type 0 where
  pub service_name : String
  pub level : String
  pub message : String
  pub trace_id : String
  pub fields : StringMap
  pub timestamp : Time

pub record SpanRequest : Type 0 where
  pub trace_id : String
  pub span_id : String
  pub parent_span_id : String
  pub service_name : String
  pub operation_name : String
  pub start_time : Time
  pub end_time : Time
  pub status : String
  pub attributes : StringMap

-- What the handlers hand to `Publish`.
pub data Payload : Type 0 where
  metric : MetricRequest → Payload
  log : LogRequest → Payload
  span : SpanRequest → Payload

abbrev pub zero_metric_request : MetricRequest
zero_metric_request = record {
  service_name = "";
  metric_name = "";
  value = zero_f;
  labels = none;
  timestamp = zero_time;
  trace_id = "";
  collector_span_id = "";
}

abbrev pub zero_log_request : LogRequest
zero_log_request = record {
  service_name = "";
  level = "";
  message = "";
  trace_id = "";
  fields = none;
  timestamp = zero_time;
}

abbrev pub zero_span_request : SpanRequest
zero_span_request = record {
  trace_id = "";
  span_id = "";
  parent_span_id = "";
  service_name = "";
  operation_name = "";
  start_time = zero_time;
  end_time = zero_time;
  status = "";
  attributes = none;
}

module _ (clock : TimeText) where
  -- json.Marshal: `none` is its error, for a value that is not finite or a year past 9999.
  abbrev pub metric_members : MetricRequest → Assoc Json
  metric_members m =
      (("service_name", str m.service_name)
        ∷ ("metric_name", str m.metric_name)
        ∷ ("value", num m.value)
        ∷ ("labels", encode_map m.labels)
        ∷ ("timestamp", str (clock.format m.timestamp))
        ∷ omit_empty "trace_id" m.trace_id (omit_empty "collector_span_id" m.collector_span_id []))

  unfoldable pub marshal_metric : MetricRequest → Option Json
  marshal_metric m =
      if is_finite m.value && is_json_time m.timestamp
      then some (obj (fields_of (metric_members m)))
      else none

  abbrev pub log_members : LogRequest → Assoc Json
  log_members l =
      (("service_name", str l.service_name)
        ∷ ("level", str l.level)
        ∷ ("message", str l.message)
        ∷ ("trace_id", str l.trace_id)
        ∷ ("fields", encode_map l.fields)
        ∷ ("timestamp", str (clock.format l.timestamp))
        ∷ [])

  unfoldable pub marshal_log : LogRequest → Option Json
  marshal_log l = if is_json_time l.timestamp then some (obj (fields_of (log_members l))) else none

  abbrev pub span_members : SpanRequest → Assoc Json
  span_members s =
      (("trace_id", str s.trace_id)
        ∷ ("span_id", str s.span_id)
        ∷ ("parent_span_id", str s.parent_span_id)
        ∷ ("service_name", str s.service_name)
        ∷ ("operation_name", str s.operation_name)
        ∷ ("start_time", str (clock.format s.start_time))
        ∷ ("end_time", str (clock.format s.end_time))
        ∷ ("status", str s.status)
        ∷ ("attributes", encode_map s.attributes)
        ∷ [])

  unfoldable pub marshal_span : SpanRequest → Option Json
  marshal_span s =
      if is_json_time s.start_time && is_json_time s.end_time
      then some (obj (fields_of (span_members s)))
      else none

  unfoldable pub marshal : Payload → Option Json
  unfolding marshal_metric marshal_log marshal_span
  marshal (metric m) = marshal_metric m
  marshal (log l) = marshal_log l
  marshal (span s) = marshal_span s

  unfoldable pub set_metric : String → Json → MetricRequest → Option MetricRequest
  set_metric k j m =
      if k == "service_name"
      then Option.map (λ v. record m { service_name = v }) (string_into j m.service_name)
      else if k == "metric_name"
      then Option.map (λ v. record m { metric_name = v }) (string_into j m.metric_name)
      else if k == "value"
      then Option.map (λ v. record m { value = v }) (float_into j m.value)
      else if k == "labels"
      then Option.map (λ v. record m { labels = v }) (map_into j m.labels)
      else if k == "timestamp"
      then Option.map (λ v. record m { timestamp = v }) (time_into clock j m.timestamp)
      else if k == "trace_id"
      then Option.map (λ v. record m { trace_id = v }) (string_into j m.trace_id)
      else if k == "collector_span_id"
      then Option.map (λ v. record m { collector_span_id = v }) (string_into j m.collector_span_id)
      else some m

  unfoldable pub set_log : String → Json → LogRequest → Option LogRequest
  set_log k j l =
      if k == "service_name"
      then Option.map (λ v. record l { service_name = v }) (string_into j l.service_name)
      else if k == "level"
      then Option.map (λ v. record l { level = v }) (string_into j l.level)
      else if k == "message"
      then Option.map (λ v. record l { message = v }) (string_into j l.message)
      else if k == "trace_id"
      then Option.map (λ v. record l { trace_id = v }) (string_into j l.trace_id)
      else if k == "fields"
      then Option.map (λ v. record l { fields = v }) (map_into j l.fields)
      else if k == "timestamp"
      then Option.map (λ v. record l { timestamp = v }) (time_into clock j l.timestamp)
      else some l

  unfoldable pub set_span : String → Json → SpanRequest → Option SpanRequest
  set_span k j s =
      if k == "trace_id"
      then Option.map (λ v. record s { trace_id = v }) (string_into j s.trace_id)
      else if k == "span_id"
      then Option.map (λ v. record s { span_id = v }) (string_into j s.span_id)
      else if k == "parent_span_id"
      then Option.map (λ v. record s { parent_span_id = v }) (string_into j s.parent_span_id)
      else if k == "service_name"
      then Option.map (λ v. record s { service_name = v }) (string_into j s.service_name)
      else if k == "operation_name"
      then Option.map (λ v. record s { operation_name = v }) (string_into j s.operation_name)
      else if k == "start_time"
      then Option.map (λ v. record s { start_time = v }) (time_into clock j s.start_time)
      else if k == "end_time"
      then Option.map (λ v. record s { end_time = v }) (time_into clock j s.end_time)
      else if k == "status"
      then Option.map (λ v. record s { status = v }) (string_into j s.status)
      else if k == "attributes"
      then Option.map (λ v. record s { attributes = v }) (map_into j s.attributes)
      else some s

-- The `binding:"required"` tags.
unfoldable pub metric_complete : MetricRequest → Bool
metric_complete m = not (m.service_name == "") && not (m.metric_name == "")

unfoldable pub log_complete : LogRequest → Bool
log_complete l = not (l.service_name == "") && (not (l.level == "") && not (l.message == ""))

unfoldable pub span_complete : SpanRequest → Bool
span_complete s =
    not (s.trace_id == "")
    && (not (s.span_id == "") && (not (s.service_name == "") && not (s.operation_name == "")))
