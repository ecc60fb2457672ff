-- ===== src/Journey/Examples.antt =====
-- Two points of one batch on their whole way.
mod Warnings
mod Spans
use vkr_public.Base.{
  ◌⊎◌, inl, some, none, String, ◌≡◌, ◌≢◌, refl, arith, true, lookup, decimal, List, [], ◌∷◌, All,
  length,
}
use mathlib.Core.Option.{bind}
use vkr_public.Json.{struct_into, string_into, float_into, map_into, encode_map, fill, time_into}
use vkr_public.Aggregator.Messages.{decode_metric}
use vkr_public.Float64.{is_finite}
use vkr_public.Nats.Subscription.{deliver}
use vkr_public.Agent.Client.{pb_metrics, pb_log, pb_span, trace_metadata}
use vkr_public.Collector.Publisher.{publish}
use vkr_public.Collector.Requests.{marshal}
use vkr_public.Collector.Grpc.{accepted, send_metrics, send_logs, send_spans}
use vkr_public.Storage.Tables.{up, refused, insert_metric}
use vkr_public.Aggregator.Consumer.{State, Surroundings, consume_metric}
use vkr_public.Aggregator.Process.{no_counts}
use vkr_public.Aggregator.System.{Event, System, delivered, metrics, run}
use vkr_public.Aggregator.System.FromStream.{system_of}
use vkr_public.Aggregator.System.Drain.{deliveries}
use vkr_public.Api.Handler.{get_metrics, parse_time_range}
use vkr_public.Fixtures.{
  tallies, list_stream, noon, sample_batch, sample_clock, sample_entry, sample_beat,
}
use vkr_public.Json.{Json}
use vkr_public.Aggregator.Messages.{decode_span}
use vkr_public.Aggregator.System.Reported.{span_told}
use vkr_public.Aggregator.System.{logs, spans}
use vkr_public.Nats.Subscription.{IsKept}
use vkr_public.Api.Handler.{Atoi, get_logs, get_trace, limit_of}
use vkr_public.Journey.Logs.{IsListed, sent_log-IsListed}
use vkr_public.Journey.Traces.{IsTraced, sent_span-IsTraced}
use vkr_public.Journey.{IsShown, sent_batch-IsShown}

abbrev pub new : State
new = record {
  db = record {
    metrics = [];
    logs = [];
    spans = [];
    settings = [];
    next_metric = 1;
    next_log = 1;
    next_span = 1;
  };
  counters = no_counts;
}

abbrev pub calm : Surroundings
calm = record { link = up; span_link = up; fresh = "a1"; start = noon; finish = noon }

-- The database refuses the first delivery.
abbrev events : List Event
events = delivered metrics 0 (record calm { link = refused }) true ∷ []

abbrev after : System
after = run tallies events (
    system_of
      (list_stream.stored
        (send_metrics tallies list_stream (trace_metadata "t1" "s1") "c1" noon noon sample_clock
          (pb_metrics sample_batch) []).0)
      new)

batch_accepted :
    (send_metrics tallies list_stream
      (trace_metadata "t1" "s1")
      "c1"
      noon
      noon
      sample_clock
      (pb_metrics sample_batch)
      []).1
    ≡ accepted 2
unfolding send_metrics publish marshal is_finite pb_metrics lookup decimal
batch_accepted = refl

two_kept : length after.kept_metrics ≡ 2
unfolding send_metrics publish marshal is_finite pb_metrics lookup decimal run deliver
    consume_metric decode_metric struct_into bind string_into float_into map_into encode_map fill
    time_into insert_metric
two_kept = refl

has_name : ◌≢◌ {A = String} "host-agent" ""
has_name e = cc

sent_batch-IsShown_example :
    All
      (IsShown "host-agent" (
        get_metrics tallies up noon "host-agent" "" ""
          (run tallies (deliveries metrics (calm ∷ calm ∷ [])) after).state.db))
      sample_batch
unfolding lookup parse_time_range
sent_batch-IsShown_example =
    sent_batch-IsShown tallies list_stream "t1" "s1" "c1" noon noon sample_clock sample_batch [] 2
      new events (calm ∷ calm ∷ []) noon "host-agent" "" "" ((refl, tt), ((refl, tt), tt))
      batch_accepted (refl, (refl, tt)) (omega (arith, two_kept)) has_name
      ((refl, (omega arith, omega arith)), ((refl, (omega arith, omega arith)), tt))

log_accepted :
    (send_logs tallies list_stream sample_clock (pb_log sample_entry ∷ []) []).1 ≡ accepted 1
unfolding send_logs publish marshal pb_log
log_accepted = refl

abbrev log_system : System
log_system = run tallies [] (
    system_of
      (list_stream.stored
        (send_logs tallies list_stream sample_clock (pb_log sample_entry ∷ []) []).0)
      new)

one_kept : length log_system.kept_logs ≡ 1
unfolding send_logs publish marshal pb_log run
one_kept = refl

abbrev never : Atoi
never = record { parse = λ s. none }

sent_log-IsListed_example :
    IsListed "host-agent"
      (limit_of never "")
      (get_logs never up "host-agent" "" ""
        (run tallies (deliveries logs (calm ∷ [])) log_system).state.db)
      sample_entry
unfolding lookup
sent_log-IsListed_example =
    sent_log-IsListed tallies list_stream sample_clock sample_entry [] 1 new [] (calm ∷ []) never
      "host-agent" "" "" (refl, tt) log_accepted (refl, tt) (omega (arith, one_kept)) has_name
      (refl, inl refl)

span_accepted :
    (send_spans tallies list_stream sample_clock sample_clock (pb_span sample_beat ∷ []) []).1
    ≡ accepted 1
unfolding send_spans publish marshal pb_span
span_accepted = refl

abbrev one_span : List Event
one_span = delivered spans 0 calm true ∷ []

sent_span-IsTraced_example :
    let answer =
      send_spans tallies list_stream sample_clock sample_clock (pb_span sample_beat ∷ []) [] in
    let sys = run tallies one_span (system_of (list_stream.stored answer.0) new) in
    ((j : Json) × (decode_span tallies j ≡ some (span_told sample_beat))
      × IsKept (some j) sys.kept_spans)
    ⊎ IsTraced (get_trace up "t1" sys.state.db) sample_beat
unfolding lookup
sent_span-IsTraced_example =
    sent_span-IsTraced tallies list_stream sample_clock sample_clock sample_beat [] 1 new one_span
      (refl, tt) span_accepted
