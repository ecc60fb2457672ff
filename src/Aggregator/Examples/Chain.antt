-- ===== src/Aggregator/Examples/Chain.antt =====
-- A metric on its way from the collector's HTTP server to the table.
use mathlib.Core.List.{Mem}
use vkr_public.Storage.Tables.{MetricPoint}
use vkr_public.Collector.Handler.Filled.{IsFilled}
use vkr_public.Base.{◌≡◌, refl, ◌⊎◌, true, some, List, [], ◌∷◌}
use vkr_public.Float64.{is_finite}
use vkr_public.Json.{Json, str, obj, field, end, string_into}
use vkr_public.Nats.Subscription.{IsKept}
use vkr_public.Collector.Publisher.{publish}
use vkr_public.Collector.Requests.{MetricRequest, zero_metric_request, marshal, marshal_metric}
use vkr_public.Collector.Handler.{bind_metric, receive_metrics}
use vkr_public.Aggregator.System.{Event, delivered, metrics, run}
use vkr_public.Aggregator.System.Accepted.{IsRowOf, accepted_metric_stored}
use vkr_public.Aggregator.System.FromStream.{system_of}
use vkr_public.Aggregator.Examples.{empty, calm}
use vkr_public.Fixtures.{tallies, list_stream, noon}

abbrev posted : Json
posted = obj (field "service_name" (str "s") (field "metric_name" (str "m") end))

abbrev request : MetricRequest
request = record zero_metric_request { service_name = "s"; metric_name = "m" }

bound : bind_metric tallies (some posted) ≡ some request
unfolding bind_metric string_into
bound = refl

accepted : (receive_metrics tallies list_stream noon (some posted) []).1.status ≡ 202
unfolding receive_metrics bind_metric string_into publish marshal is_finite
accepted = refl

abbrev twice : List Event
twice = delivered metrics 0 calm true ∷ delivered metrics 0 calm true ∷ []

accepted_metric_stored_example :
    let stored = list_stream.stored (receive_metrics tallies list_stream noon (some posted) []).0 in
    let sys = run tallies twice (system_of stored empty) in
    (m : MetricRequest) × (j : Json) × IsFilled noon request m
    × (marshal_metric tallies m ≡ some j)
    × (IsKept (some j) sys.kept_metrics
        ⊎ ((x : MetricPoint) × Mem x sys.state.db.metrics × IsRowOf m x))
accepted_metric_stored_example =
    accepted_metric_stored tallies list_stream noon (some posted) [] request empty twice bound tt
      accepted
