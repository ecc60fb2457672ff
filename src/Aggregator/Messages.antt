-- ===== src/Aggregator/Messages.antt =====
-- The messages that the aggregator decodes (cmd/aggregator/consumer.go).
use mathlib.Core.Option
use vkr_public.Base.{String, Option, none, some, ◌==◌, if◌then◌else◌, StringMap}
use vkr_public.Float64.{Float64, zero_f}
use vkr_public.Instant.{Time, TimeText, zero_time}
use vkr_public.Json.{Json, string_into, float_into, time_into, map_into, struct_into}

pub record MetricMsg : Type 0 where
  pub service_name : String
  pub metric_name : String
  pub value : Float64
  pub labels : StringMap
  pub timestamp : Time
  pub trace_id : String
  pub collector_span_id : String

pub record LogMsg : Type 0 where
  pub service_name : String
  pub level : String
  pub message : String
  pub trace_id : String
  pub fields : StringMap
  pub timestamp : Time

pub record SpanMsg : Type 0 where
  pub trace_id : String
  pub span_id : String
  pub parent_span_id : String
  pub service_name : String
  pub operation_name : String
  pub start_time : Time
  pub end_time : Time
  pub status : String
  pub attributes : StringMap

abbrev pub zero_metric_msg : MetricMsg
zero_metric_msg = record {
  service_name = "";
  metric_name = "";
  value = zero_f;
  labels = none;
  timestamp = zero_time;
  trace_id = "";
  collector_span_id = "";
}

abbrev pub zero_log_msg : LogMsg
zero_log_msg = record {
  service_name = "";
  level = "";
  message = "";
  trace_id = "";
  fields = none;
  timestamp = zero_time;
}

abbrev pub zero_span_msg : SpanMsg
zero_span_msg = record {
  trace_id = "";
  span_id = "";
  parent_span_id = "";
  service_name = "";
  operation_name = "";
  start_time = zero_time;
  end_time = zero_time;
  status = "";
  attributes = none;
}

module _ (clock : TimeText) where
  unfoldable pub set_metric : String → Json → MetricMsg → Option MetricMsg
  set_metric k j m =
      if k == "service_name"
      then Option.map (λ v. record m { service_name = v }) (string_into j m.service_name)
      else if k == "metric_name"
      then Option.map (λ v. record m { metric_name = v }) (string_into j m.metric_name)
      else if k == "value"
      then Option.map (λ v. record m { value = v }) (float_into j m.value)
      else if k == "labels"
      then Option.map (λ v. record m { labels = v }) (map_into j m.labels)
      else if k == "timestamp"
      then Option.map (λ v. record m { timestamp = v }) (time_into clock j m.timestamp)
      else if k == "trace_id"
      then Option.map (λ v. record m { trace_id = v }) (string_into j m.trace_id)
      else if k == "collector_span_id"
      then Option.map (λ v. record m { collector_span_id = v }) (string_into j m.collector_span_id)
      else some m

  unfoldable pub set_log : String → Json → LogMsg → Option LogMsg
  set_log k j l =
      if k == "service_name"
      then Option.map (λ v. record l { service_name = v }) (string_into j l.service_name)
      else if k == "level"
      then Option.map (λ v. record l { level = v }) (string_into j l.level)
      else if k == "message"
      then Option.map (λ v. record l { message = v }) (string_into j l.message)
      else if k == "trace_id"
      then Option.map (λ v. record l { trace_id = v }) (string_into j l.trace_id)
      else if k == "fields"
      then Option.map (λ v. record l { fields = v }) (map_into j l.fields)
      else if k == "timestamp"
      then Option.map (λ v. record l { timestamp = v }) (time_into clock j l.timestamp)
      else some l

  unfoldable pub set_span : String → Json → SpanMsg → Option SpanMsg
  set_span k j s =
      if k == "trace_id"
      then Option.map (λ v. record s { trace_id = v }) (string_into j s.trace_id)
      else if k == "span_id"
      then Option.map (λ v. record s { span_id = v }) (string_into j s.span_id)
      else if k == "parent_span_id"
      then Option.map (λ v. record s { parent_span_id = v }) (string_into j s.parent_span_id)
      else if k == "service_name"
      then Option.map (λ v. record s { service_name = v }) (string_into j s.service_name)
      else if k == "operation_name"
      then Option.map (λ v. record s { operation_name = v }) (string_into j s.operation_name)
      else if k == "start_time"
      then Option.map (λ v. record s { start_time = v }) (time_into clock j s.start_time)
      else if k == "end_time"
      then Option.map (λ v. record s { end_time = v }) (time_into clock j s.end_time)
      else if k == "status"
      then Option.map (λ v. record s { status = v }) (string_into j s.status)
      else if k == "attributes"
      then Option.map (λ v. record s { attributes = v }) (map_into j s.attributes)
      else some s

  -- json.Unmarshal into a fresh variable; `none` is its error.
  unfoldable pub decode_metric : Json → Option MetricMsg
  unfolding set_metric
  decode_metric j = struct_into set_metric j zero_metric_msg

  unfoldable pub decode_log : Json → Option LogMsg
  unfolding set_log
  decode_log j = struct_into set_log j zero_log_msg

  unfoldable pub decode_span : Json → Option SpanMsg
  unfolding set_span
  decode_span j = struct_into set_span j zero_span_msg
