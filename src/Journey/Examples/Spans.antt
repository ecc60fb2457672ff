-- ===== src/Journey/Examples/Spans.antt =====
-- The spans of one batch.
use mathlib.Core.List.{Mem}
use vkr_public.Base.{◌≡◌, ◌≢◌, refl, String, some, lookup, List, [], ◌∷◌, length}
use vkr_public.Float64.{is_finite}
use vkr_public.Json.{Json, obj, fields_of}
use vkr_public.Agent.Client.{pb_metric, pb_metrics}
use vkr_public.Collector.Requests.{MetricRequest, metric_members, marshal_metric}
use vkr_public.Collector.Grpc.{collector_span_id, collector_span, metric_request}
use vkr_public.Storage.Tables.{TraceSpan, up, has_span}
use vkr_public.Aggregator.Consumer.{consume_metric}
use vkr_public.Api.Handler.{rows, get_trace}
use vkr_public.Fixtures.{tallies, noon, memory_sample, swap_sample}
use vkr_public.Journey.Tree.{IsLinked, consume_metric-IsLinked}
use vkr_public.Journey.Examples.{new, calm}

abbrev sent : MetricRequest
sent = record {
  service_name = "host-agent";
  metric_name = "memory_usage_percent";
  value = memory_sample.value;
  labels = memory_sample.labels;
  timestamp = noon;
  trace_id = "t1";
  collector_span_id = "c1";
}

abbrev json : Json
json = obj (fields_of (metric_members tallies sent))

published :
    marshal_metric tallies (
      metric_request "t1"
        (collector_span_id "t1" "c1" (pb_metrics (memory_sample ∷ swap_sample ∷ [])))
        noon
        (pb_metric memory_sample))
    ≡ some json
unfolding marshal_metric is_finite metric_request collector_span_id pb_metrics
published = refl

has_trace : ◌≢◌ {A = String} "t1" ""
has_trace e = cc

consume_metric-IsLinked_example :
    let batch = memory_sample ∷ swap_sample ∷ [] in
    let span_id = collector_span_id "t1" "c1" (pb_metrics batch) in
    (span_id ≡ "c1")
    × ((x : TraceSpan) × (found : List TraceSpan) × (get_trace up "t1"
            (consume_metric tallies calm (some json) new).0.db
          ≡ record { status = 200; body = rows "t1" (length found) found })
        × Mem x found
        × (x.span_id ≡ "a1")
        × IsLinked "t1" "s1" (collector_span "t1" span_id "s1" noon noon (pb_metrics batch)) x)
unfolding lookup has_span
consume_metric-IsLinked_example =
    consume_metric-IsLinked tallies "t1" "s1" "c1" noon noon noon memory_sample memory_sample
      (swap_sample ∷ []) calm new has_trace (refl, tt) published refl refl refl
