-- ===== src/Storage/Queries.antt =====
-- The queries of the API (internal/storage/repository.go). `none` is an error of the query.
pub mod Laws
use vkr_public.Base.{
  ℕ, String, Bool, true, false, Option, none, some, List, ◌&&◌, ◌==◌, leb, if◌then◌else◌,
}
use vkr_public.Instant.{Time, timestamptz}
use vkr_public.Storage.Select.{where_rows, order_by, oldest, latest}
use vkr_public.Storage.Tables.{MetricPoint, LogEntry, TraceSpan, Tables, Link, up, refused, lost}

abbrev pub answered {ℓ} : {A : Type ℓ} → Link → A → Option A
answered up rows = some rows
answered refused rows = none
answered lost rows = none

unfoldable pub in_range : String → Time → Time → MetricPoint → Bool
in_range service from to m =
    m.service_name == service
    && (leb (timestamptz from) m.timestamp && leb m.timestamp (timestamptz to))

unfoldable pub query_metrics : Link → String → Time → Time → Tables → Option (List MetricPoint)
unfolding in_range latest
query_metrics link service from to db =
    answered link (latest (in_range service from to) (λ m. m.timestamp) 1000 db.metrics)

-- The level is tested only where one is given.
unfoldable pub is_log_of : String → String → LogEntry → Bool
is_log_of service level l =
    l.service_name == service && (if level == "" then true else l.level == level)

unfoldable pub query_logs : Link → String → String → ℕ → Tables → Option (List LogEntry)
unfolding is_log_of latest
query_logs link service level limit db =
    answered link (latest (is_log_of service level) (λ l. l.timestamp) limit db.logs)

unfoldable pub is_span_of : String → TraceSpan → Bool
is_span_of trace_id s = s.trace_id == trace_id

unfoldable pub query_spans_by_trace : Link → String → Tables → Option (List TraceSpan)
unfolding is_span_of where_rows order_by
query_spans_by_trace link trace_id db =
    answered link
      (order_by (oldest (λ s. s.start_time)) (where_rows (is_span_of trace_id) db.spans))
