-- ===== src/Api/Handler.antt =====
-- The query handlers of the API (cmd/api/handler.go). A missing query parameter is "". The clock and
-- the fate of the query are arguments; logging and tracing are left out.
pub mod Replies
use vkr_public.Base.{
  ℕ, ◌-◌, ◌*◌, String, Bool, Option, none, some, List, [], ◌∷◌, ◌&&◌, ◌==◌, ltb, leb, if◌then◌else◌,
  length,
}
use vkr_public.Instant.{Time, TimeText, second}
use vkr_public.Http.{Reply}
use vkr_public.Storage.Tables.{MetricPoint, LogEntry, TraceSpan, Tables, Link}
use vkr_public.Storage.Queries.{query_metrics, query_logs, query_spans_by_trace}

pub data ApiBody (A : Type 0) : Type 0 where
  error_text : String → ApiBody A
  rows : String → ℕ → List A → ApiBody A

-- strconv.Atoi, whose error is `none`. A number that is not negative is itself; a negative one, which
-- no caller takes, is `some 0`.
pub record Atoi : Type 0 where
  pub parse : String → Option ℕ

-- 100, or the parameter if it is a number from 1 to 1000.
abbrev parsed_limit : Option ℕ → ℕ
parsed_limit none = 100
parsed_limit (some n) = if ltb 0 n && leb n 1000 then n else 100

unfoldable pub limit_of : Atoi → String → ℕ
limit_of atoi l = if l == "" then 100 else parsed_limit (atoi.parse l)

abbrev parsed_or : Option Time → Time → Time
parsed_or none old = old
parsed_or (some t) old = t

-- The last hour, unless the parameters are times.
unfoldable pub parse_time_range : TimeText → Time → String → String → Time × Time
parse_time_range clock now from to = (
  if from == "" then now - 3600 * second else parsed_or (clock.parse from) (now - 3600 * second),
  if to == "" then now else parsed_or (clock.parse to) now,
)

abbrev pub service_required : {A : Type 0} → Reply (ApiBody A)
service_required = record { status = 400; body = error_text "service query parameter is required" }

abbrev pub query_failed : {A : Type 0} → Reply (ApiBody A)
query_failed = record { status = 500; body = error_text "query failed" }

abbrev pub listed : {A : Type 0} → String → Option (List A) → Reply (ApiBody A)
listed name none = query_failed
listed name (some found) = record { status = 200; body = rows name (length found) found }

unfoldable pub get_metrics :
    TimeText → Link → Time → (service from to : String) → Tables → Reply (ApiBody MetricPoint)
unfolding parse_time_range query_metrics
get_metrics clock link now service from to db =
    if service == ""
    then service_required
    else let (start, finish) = parse_time_range clock now from to in
      listed service (query_metrics link service start finish db)

unfoldable pub get_logs :
    Atoi → Link → (service level limit : String) → Tables → Reply (ApiBody LogEntry)
unfolding limit_of query_logs
get_logs atoi link service level limit db =
    if service == ""
    then service_required
    else listed service (query_logs link service level (limit_of atoi limit) db)

abbrev pub traced : String → Option (List TraceSpan) → Reply (ApiBody TraceSpan)
traced trace_id none = query_failed
traced trace_id (some []) = record { status = 404; body = error_text "trace not found" }
traced trace_id (some (s ∷ ss)) = record {
  status = 200;
  body = rows trace_id (length (s ∷ ss)) (s ∷ ss);
}

unfoldable pub get_trace : Link → String → Tables → Reply (ApiBody TraceSpan)
unfolding query_spans_by_trace
get_trace link trace_id db = traced trace_id (query_spans_by_trace link trace_id db)
