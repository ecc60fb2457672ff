-- ===== src/Storage/Queries/Laws.antt =====
-- What a successful query returns.
use mathlib.Core.List.{Perm}
use native.Mathlib.Nat.{le_trans}
use vkr_public.Base.{ℕ, ◌≤◌, String, ◌≡◌, some, List, arith}
use vkr_public.Instant.{Time}
use vkr_public.Storage.Select.{where_rows, oldest}
use vkr_public.Storage.Select.Laws.{IsSorted, order_by-IsSorted, order_by-perm}
use vkr_public.Storage.Select.Limit.{IsLatest, latest-IsLatest}
use vkr_public.Storage.Tables.{MetricPoint, LogEntry, TraceSpan, Tables, Link, up, refused, lost}
use vkr_public.Storage.Queries.{
  in_range, query_metrics, is_log_of, query_logs, is_span_of, query_spans_by_trace, answered,
}

pub answered-eq-some :
    {A : Type 0} (link : Link) (rows : A) {r : A} → answered link rows ≡ some r → rows ≡ r
answered-eq-some up rows h = cc
answered-eq-some refused rows h = cc
answered-eq-some lost rows h = cc

-- QueryMetrics returns the newest points of the service in the time range, newest first, 1000 at
-- most; what it leaves out is no newer, and nothing is left out where fewer than 1000 are returned.
pub query_metrics-IsLatest :
    (link : Link) (service : String) (from to : Time) (db : Tables) {rows : List MetricPoint}
    → query_metrics link service from to db ≡ some rows
    → IsLatest (in_range service from to) (λ m. m.timestamp) 1000 db.metrics rows
unfolding query_metrics
query_metrics-IsLatest link service from to db h =
    rw (answered-eq-some link _ h) at
      (latest-IsLatest (in_range service from to) (λ m. m.timestamp) 1000 db.metrics)

-- QueryLogs returns the newest entries of the service and, where one is given, of the level, newest
-- first, `limit` at most; what it leaves out is no newer, and nothing is left out where fewer than
-- `limit` are returned.
pub query_logs-IsLatest :
    (link : Link) (service level : String) (limit : ℕ) (db : Tables) {rows : List LogEntry}
    → query_logs link service level limit db ≡ some rows
    → IsLatest (is_log_of service level) (λ l. l.timestamp) limit db.logs rows
unfolding query_logs
query_logs-IsLatest link service level limit db h =
    rw (answered-eq-some link _ h) at
      (latest-IsLatest (is_log_of service level) (λ l. l.timestamp) limit db.logs)

-- QuerySpansByTrace returns all the spans of the trace and no other, by their start.
pub query_spans_by_trace-IsSorted :
    (link : Link) (trace_id : String) (db : Tables) {rows : List TraceSpan}
    → query_spans_by_trace link trace_id db ≡ some rows
    → Perm rows (where_rows (is_span_of trace_id) db.spans)
      × IsSorted (λ a b. a.start_time ≤ b.start_time) rows
unfolding query_spans_by_trace
query_spans_by_trace-IsSorted link trace_id db h =
    let found = where_rows (is_span_of trace_id) db.spans in
    rw (← answered-eq-some link _ h) (
      order_by-perm (oldest (λ s. s.start_time)) found,
      order_by-IsSorted (oldest (λ s. s.start_time)) _ (λ x y e. ground arith)
          (λ x y e. ground arith) (λ x y z a b. le_trans a b) found,
    )
