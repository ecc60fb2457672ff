-- ===== src/Journey/Tree.antt =====
-- The spans of one batch of metrics: the agent's call, the collector's span and the aggregator's span of
-- each insertion are linked (cmd/collector/grpc_server.go: SendMetrics; cmd/aggregator/consumer.go:
-- consumeMetrics).
use mathlib.Core.List.{Mem, mem-append_right, mem-cons_self}
use mathlib.Core.List.Perm
use vkr_public.Base.{
  not_empty, ◌≡◌, ◌≢◌, refl, ap, ◌∙◌, false, String, some, List, ◌∷◌, length, eq_refl,
}
use vkr_public.Instant.{Time, TimeText}
use vkr_public.Json.{Json, IsGoMap}
use vkr_public.Agent.Client
use vkr_public.Agent.Client.{pb_metric, pb_metrics}
use vkr_public.Collector.Requests.{SpanRequest, marshal_metric}
use vkr_public.Aggregator.Consumer.Pipeline.{agg_row, consume_metric-spans}
use vkr_public.Collector.Grpc.{collector_span_id, collector_span, metric_request}
use vkr_public.Storage.Tables.{TraceSpan, Tables, up, span_row, has_span}
use vkr_public.Storage.Select.Found.{Mem-where_rows}
use vkr_public.Storage.Queries.{is_span_of}
use vkr_public.Storage.Queries.Laws.{query_spans_by_trace-IsSorted}
use vkr_public.Aggregator.Consumer.{State, Surroundings, consume_metric, insert_metric_span}
use vkr_public.Api.Handler
use vkr_public.Api.Handler.{ApiBody, rows, get_trace}
use vkr_public.Journey.Traces.{answered_up, traced-rows}

-- The row of the aggregator's span is below the collector's span, and both are in the trace.
pub record IsLinked (trace_id parent_span_id : String) (sp : SpanRequest) (x : TraceSpan)
    : Type 0 where
  pub collector_trace : sp.trace_id ≡ trace_id
  pub collector_parent : sp.parent_span_id ≡ parent_span_id
  pub row_trace : x.trace_id ≡ trace_id
  pub row_parent : x.parent_span_id ≡ sp.span_id

agg_row-IsLinked :
    (trace_id parent_span_id span_id : String) (start finish now : Time) (w : Surroundings)
    (s : State) (m : Client.MetricPoint) (batch : List Client.MetricPoint)
    → let r = metric_request trace_id span_id now (pb_metric m) in
      IsLinked trace_id parent_span_id
        (collector_span trace_id span_id parent_span_id start finish (pb_metrics batch))
        (agg_row w r s)
unfolding collector_span metric_request insert_metric_span span_row
agg_row-IsLinked trace_id parent_span_id span_id start finish now w s m batch = record {
  collector_trace = refl;
  collector_parent = refl;
  row_trace = refl;
  row_parent = refl;
}

get_trace-row :
    (trace_id : String) (x : TraceSpan) (db : Tables)
    → x.trace_id ≡ trace_id
    → Mem x db.spans
    → (found : List TraceSpan) × (get_trace up trace_id db
        ≡ record { status = 200; body = rows trace_id (length found) found })
      × Mem x found
unfolding get_trace is_span_of
get_trace-row trace_id x db own stored =
    let (found, answer) = answered_up trace_id db in
    let (all, _) = query_spans_by_trace-IsSorted up trace_id db answer in
    let here : Mem x found =
      (Perm.mem_iff all).1
        (Mem-where_rows (is_span_of trace_id) x db.spans (rw own (eq_refl trace_id)) stored) in
    (found, ap (Handler.traced trace_id) answer ∙ traced-rows trace_id x found here, here)

-- A point, with labels that are a Go map, comes to the collector in a call with a trace and the agent's
-- span, whose batch is not empty. When the aggregator takes its message, both statements are executed
-- and the aggregator's span has a new identifier, a query of the API for the trace, which the database
-- answers, gives 200 with a row of that span, whose parent is the collector's span of the batch, whose
-- parent is the agent's.
pub consume_metric-IsLinked :
    (clock : TimeText) (trace_id parent_span_id fresh : String) (start finish now : Time)
    (first m : Client.MetricPoint) (others : List Client.MetricPoint) (w : Surroundings) (s : State)
    {j : Json}
    → trace_id ≢ ""
    → IsGoMap m.labels
    → let batch = first ∷ others in
      let span_id = collector_span_id trace_id fresh (pb_metrics batch) in
      marshal_metric clock (metric_request trace_id span_id now (pb_metric m)) ≡ some j
      → w.link ≡ up
      → w.span_link ≡ up
      → has_span w.fresh s.db.spans ≡ false
      → (span_id ≡ fresh)
        × ((x : TraceSpan) × (found : List TraceSpan) × (get_trace up trace_id
                (consume_metric clock w (some j) s).0.db
              ≡ record { status = 200; body = rows trace_id (length found) found })
            × Mem x found
            × (x.span_id ≡ w.fresh)
            × IsLinked trace_id parent_span_id
                (collector_span trace_id span_id parent_span_id start finish (pb_metrics batch))
                x)
unfolding collector_span_id pb_metrics metric_request insert_metric_span span_row
consume_metric-IsLinked clock trace_id parent_span_id fresh start finish now first m others w s {j}
      given labels sent works answers new =
    let batch = first ∷ others in
    let span_id = collector_span_id trace_id fresh (pb_metrics batch) in
    let r = metric_request trace_id span_id now (pb_metric m) in
    let x = agg_row w r s in
    let linked = agg_row-IsLinked trace_id parent_span_id span_id start finish now w s m batch in
    let stored : Mem x (consume_metric clock w (some j) s).0.db.spans =
      rw (consume_metric-spans clock w s r labels sent (not_empty trace_id given) works answers new)
        (mem-append_right s.db.spans mem-cons_self) in
    let (found, shown, here) = get_trace-row trace_id x _ linked.row_trace stored in
    (rw (not_empty trace_id given) refl, (x, found, shown, here, refl, linked))
