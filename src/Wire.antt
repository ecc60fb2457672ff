-- ===== src/Wire.antt =====
-- The protobuf messages of the agents' gRPC contract (gen/telemetry/telemetry.pb.go).
-- A Timestamp message is the instant that it names, and `none` is the nil pointer; an absent map and
-- an empty map are one on the wire.
use vkr_public.Base.{String, Option, List, StringMap}
use vkr_public.Float64.{Float64}
use vkr_public.Instant.{Time}

pub record PbMetricPoint : Type 0 where
  pub service_name : String
  pub metric_name : String
  pub value : Float64
  pub labels : StringMap
  pub timestamp : Option Time

pub record PbLogEntry : Type 0 where
  pub service_name : String
  pub level : String
  pub message : String
  pub trace_id : String
  pub fields : StringMap
  pub timestamp : Option Time

pub record PbTraceSpan : Type 0 where
  pub trace_id : String
  pub span_id : String
  pub parent_span_id : String
  pub service_name : String
  pub operation_name : String
  pub start_time : Option Time
  pub end_time : Option Time
  pub status : String
  pub attributes : StringMap

-- The metadata of an incoming call: each key, in lower case, with its values; `none` is a call that
-- carries no metadata.
abbrev pub Metadata : Type 0
Metadata = Option (List (String × List String))
