-- ===== src/Aggregator/Examples/Reports.antt =====
-- What an agent reports on its way to the table.
use vkr_public.Base.{◌≡◌, refl, true, lookup, decimal, List, [], ◌∷◌, All}
use vkr_public.Float64.{is_finite}
use vkr_public.Agent.Client.{pb_metrics, trace_metadata}
use vkr_public.Collector.Publisher.{publish}
use vkr_public.Collector.Requests.{marshal}
use vkr_public.Collector.Grpc.{accepted, send_metrics}
use vkr_public.Aggregator.System.{Event, delivered, metrics, logs, spans, run}
use vkr_public.Aggregator.System.FromStream.{system_of}
use vkr_public.Aggregator.System.Sent.{IsDelivered, sent_batch_stored}
use vkr_public.Aggregator.Examples.{empty, calm}
use vkr_public.Fixtures.{tallies, list_stream, noon, sample_batch, sample_clock}

abbrev mixed : List Event
mixed =
    delivered metrics 1 calm true ∷ delivered logs 0 calm true ∷ delivered spans 0 calm true ∷ []

batch_accepted :
    (send_metrics tallies list_stream
      (trace_metadata "t1" "s1")
      "c1"
      noon
      noon
      sample_clock
      (pb_metrics sample_batch)
      []).1
    ≡ accepted 2
unfolding send_metrics publish marshal is_finite pb_metrics lookup decimal
batch_accepted = refl

sent_batch_stored_example :
    let answer =
      send_metrics tallies list_stream
        (trace_metadata "t1" "s1")
        "c1"
        noon
        noon
        sample_clock
        (pb_metrics sample_batch)
        [] in
    All
      (IsDelivered tallies (run tallies mixed (system_of (list_stream.stored answer.0) empty)) "t1")
      sample_batch
unfolding lookup
sent_batch_stored_example =
    sent_batch_stored tallies list_stream "t1" "s1" "c1" noon noon sample_clock sample_batch [] 2
      empty mixed ((refl, tt), ((refl, tt), tt)) batch_accepted
