-- ===== src/Aggregator/Consumer/Pipeline.antt =====
-- From the collector's publishing to the API's query: a metric that is published, delivered and
-- stored is found by its service and time.
use mathlib.Core.List.{Mem, mem-cons_self, mem-append_right}
use vkr_public.Base.{
  ℕ, ◌≤◌, ◌<◌, ◌≡◌, refl, true, false, ◌==◌, some, List, [], ◌∷◌, ◌++◌, arith, eq_refl, length,
}
use vkr_public.Instant.{Time, TimeText, timestamptz}
use vkr_public.Json.{Json, IsGoMap}
use vkr_public.Nats.{ack}
use vkr_public.Collector.Requests.{MetricRequest, marshal_metric}
use vkr_public.Storage.Tables.{
  MetricPoint, TraceSpan, Tables, up, metric_row, insert_metric, insert_span, span_row, has_span,
}
use vkr_public.Storage.Select.Found.{Mem-IsLatest}
use vkr_public.Storage.Queries.{in_range, query_metrics}
use vkr_public.Storage.Queries.Laws.{query_metrics-IsLatest}
use vkr_public.Aggregator.Messages.{MetricMsg}
use vkr_public.Aggregator.Roundtrip.{metric_msg_of, decode_metric-marshal_metric}
use vkr_public.Aggregator.Consumer.{
  State, Surroundings, point_of, consume_metric, handle_metric, trace_metric, insert_metric_span,
}

-- The row that a published metric becomes.
abbrev pub row_of : ℕ → MetricRequest → MetricPoint
row_of id m = metric_row id (point_of (metric_msg_of m))

trace_metric-metrics :
    (w : Surroundings) (msg : MetricMsg) (db : Tables)
    → (trace_metric w msg db).metrics ≡ db.metrics
unfolding trace_metric insert_span
trace_metric-metrics w msg db = ground arith

consume_metric-metrics :
    (clock : TimeText) (w : Surroundings) (s : State) (m : MetricRequest) {j : Json}
    → IsGoMap m.labels
    → marshal_metric clock m ≡ some j
    → w.link ≡ up
    → ((consume_metric clock w (some j) s).1 ≡ ack)
      × ((consume_metric clock w (some j) s).0.db.metrics
          ≡ s.db.metrics ++ row_of s.db.next_metric m ∷ [])
unfolding consume_metric insert_metric
consume_metric-metrics clock w s m g sent works =
    rw (decode_metric-marshal_metric clock m g sent, handle_metric)
      (rw works (refl, trace_metric-metrics (record w { link = up }) (metric_msg_of m) _))

-- The row of a metric is in the time range of a query for its service, by its own timestamp.
in_range-row_of :
    (id : ℕ) (m : MetricRequest) (from to : Time)
    → timestamptz from ≤ timestamptz m.timestamp
    → timestamptz m.timestamp ≤ timestamptz to
    → in_range m.service_name from to (row_of id m) ≡ true
unfolding in_range metric_row point_of
in_range-row_of id m from to p q = rw (eq_refl m.service_name) (ground arith)

-- A metric that the collector can publish, whose labels are a Go map, is acknowledged by the
-- aggregator when the statement is executed. A successful query for its service that follows, over
-- a range that holds its timestamp, returns its row, unless the query returns 1000 rows.
pub published_metric_found :
    (clock : TimeText) (w : Surroundings) (s : State) (m : MetricRequest) (from to : Time)
    {j : Json} {found : List MetricPoint}
    → IsGoMap m.labels
    → marshal_metric clock m ≡ some j
    → w.link ≡ up
    → timestamptz from ≤ timestamptz m.timestamp
    → timestamptz m.timestamp ≤ timestamptz to
    → query_metrics up m.service_name from to (consume_metric clock w (some j) s).0.db ≡ some found
    → length found < 1000
    → ((consume_metric clock w (some j) s).1 ≡ ack) × Mem (row_of s.db.next_metric m) found
published_metric_found clock w s m from to {j} g sent works after before answer short =
    let (acked, stored) = consume_metric-metrics clock w s m g sent works in
    let x = row_of s.db.next_metric m in
    (
      acked,
      Mem-IsLatest (in_range m.service_name from to) x
          (query_metrics-IsLatest up m.service_name from to _ answer) short
          (in_range-row_of _ m from to after before)
          (rw stored (mem-append_right s.db.metrics mem-cons_self)),
    )

-- The row of the aggregator's span of a metric.
abbrev pub agg_row : Surroundings → MetricRequest → State → TraceSpan
agg_row w r s =
    span_row s.db.next_span (insert_metric_span w.fresh w.start w.finish (metric_msg_of r))

-- A metric with a trace, whose two statements are executed, leaves a span at the end of the table.
pub consume_metric-spans :
    (clock : TimeText) (w : Surroundings) (s : State) (r : MetricRequest) {j : Json}
    → IsGoMap r.labels
    → marshal_metric clock r ≡ some j
    → (r.trace_id == "") ≡ false
    → w.link ≡ up
    → w.span_link ≡ up
    → has_span w.fresh s.db.spans ≡ false
    → (consume_metric clock w (some j) s).0.db.spans ≡ s.db.spans ++ agg_row w r s ∷ []
unfolding consume_metric insert_metric trace_metric insert_span insert_metric_span
consume_metric-spans clock w s r g sent with_trace works answers new =
    rw (decode_metric-marshal_metric clock r g sent, handle_metric)
      (rw (works, with_trace, answers, new) refl)
