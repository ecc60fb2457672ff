-- ===== src/Aggregator/Examples.antt =====
-- The aggregator at concrete deliveries.
mod Chain
mod Reports
mod Runs
use vkr_public.Base.{◌+◌, ◌≡◌, refl, ◌⊎◌, none, some, [], ◌∷◌, lookup, arith, true}
use vkr_public.Float64.{is_finite}
use vkr_public.Json.{Json, obj, fields_of}
use vkr_public.Nats.{ack, nak}
use vkr_public.Storage.Tables.{up, lost, span_row, has_span}
use vkr_public.Storage.Tables.Inserts.{IsValid}
use vkr_public.Collector.Requests.{
  metric_members, log_members, span_members, marshal_metric, marshal_log, marshal_span,
}
use vkr_public.Aggregator.Messages.{decode_metric, decode_log, decode_span, MetricMsg}
use vkr_public.Aggregator.Roundtrip.{
  metric_msg_of, log_msg_of, span_msg_of, decode_metric-marshal_metric, decode_log-marshal_log,
  decode_span-marshal_span,
}
use vkr_public.Aggregator.Consumer.{
  State, Surroundings, decoded, consume_metric, consume_span, span_of,
}
use vkr_public.Aggregator.Consumer.Retry.{MetricDelivered, consume_metric-MetricDelivered}
use vkr_public.Aggregator.Consumer.Steps.{metric_step, here, next, Reach-IsValid}
use vkr_public.Aggregator.Consumer.Duplicates.{lost_answer_never_acked}
use vkr_public.Base.{◌+◌, List, inl, false}
use vkr_public.Nats.{subject_spans}
use vkr_public.Nats.Subscription.{IsKept}
use vkr_public.Storage.Tables.{refused}
use vkr_public.Aggregator.System.{System, Event, published, delivered, metrics, spans, kept, run}
use vkr_public.Aggregator.System.NothingLost.{IsDone, run-IsKept}
use vkr_public.Aggregator.System.Drain.{deliveries, run-deliveries_empty}
use mathlib.Core.List.{Mem}
use vkr_public.Storage.Queries.{query_metrics}
use vkr_public.Storage.Tables.{MetricPoint, insert_metric}
use vkr_public.Aggregator.Consumer.Pipeline.{row_of, published_metric_found}
use vkr_public.Aggregator.Messages.{LogMsg, SpanMsg}
use vkr_public.Aggregator.Consumer.{consume_log}
use vkr_public.Aggregator.Consumer.Retry.{
  LogDelivered, SpanDelivered, consume_log-LogDelivered, consume_span-SpanDelivered,
}
use vkr_public.Fixtures.{tallies, noon, cpu_request, warn_request, span_sample}

abbrev cpu_json : Json
cpu_json = obj (fields_of (metric_members tallies cpu_request))

abbrev warn_json : Json
warn_json = obj (fields_of (log_members tallies warn_request))

abbrev span_json : Json
span_json = obj (fields_of (span_members tallies span_sample))

cpu_published : marshal_metric tallies cpu_request ≡ some cpu_json
unfolding marshal_metric is_finite
cpu_published = refl

warn_published : marshal_log tallies warn_request ≡ some warn_json
unfolding marshal_log
warn_published = refl

span_published : marshal_span tallies span_sample ≡ some span_json
unfolding marshal_span
span_published = refl

span_decoded : decode_span tallies span_json ≡ some (span_msg_of span_sample)
span_decoded = decode_span-marshal_span tallies span_sample tt span_published

abbrev pub empty : State
empty = record {
  db = record {
    metrics = [];
    logs = [];
    spans = [];
    settings = [];
    next_metric = 1;
    next_log = 1;
    next_span = 1;
  };
  counters = record {
    decode_metric_errors = 0;
    insert_metric_errors = 0;
    insert_log_errors = 0;
    insert_span_errors = 0;
    metrics_stored = 0;
  };
}

abbrev pub calm : Surroundings
calm = record { link = up; span_link = up; fresh = "a1"; start = noon; finish = noon }

consume_metric-MetricDelivered_example :
    ((decoded (decode_metric tallies) (some cpu_json) ≡ none)
      × ((consume_metric tallies calm (some cpu_json) empty).1 ≡ ack)
      × ((consume_metric tallies calm (some cpu_json) empty).0.db ≡ empty.db)
      × ((consume_metric tallies calm (some cpu_json) empty).0.counters ≡ record (empty.counters) {
        decode_metric_errors = empty.counters.decode_metric_errors + 1;
      }))
    ⊎ ((msg : MetricMsg) × (decoded (decode_metric tallies) (some cpu_json) ≡ some msg)
        × MetricDelivered up msg empty (consume_metric tallies calm (some cpu_json) empty))
consume_metric-MetricDelivered_example =
    consume_metric-MetricDelivered tallies calm (some cpu_json) empty

Reach-IsValid_example : IsValid (consume_metric tallies calm (some cpu_json) empty).0.db
Reach-IsValid_example =
    Reach-IsValid {clock = tallies} {s = empty} (next here (metric_step calm (some cpu_json)))
      (record { metric_ids = tt; log_ids = tt; span_ids = tt; distinct = tt })

-- The span is stored and the answer is lost: no later delivery is acknowledged.
abbrev after_loss : State
after_loss = (consume_span tallies lost (some span_json) empty).0

abbrev holding : State
holding = record empty {
  db = record empty.db { spans = span_row 1 (span_of (span_msg_of span_sample)) ∷ [] };
}

held_once : has_span "s1" holding.db.spans ≡ true
unfolding has_span span_row span_of
held_once = refl

lost_answer_never_acked_example :
    ((consume_span tallies lost (some span_json) empty).1 ≡ nak)
    × ((consume_span tallies up (some span_json) after_loss).1 ≡ nak)
lost_answer_never_acked_example =
    lost_answer_never_acked {clock = tallies} empty {t = after_loss} up (some span_json)
      (span_msg_of span_sample) span_decoded here

-- A metric and a span are published, the database refuses the metric, and then all is delivered.
abbrev waiting : System
waiting = record {
  kept_metrics = some cpu_json ∷ none ∷ [];
  kept_logs = [];
  kept_spans = [];
  state = empty;
}

abbrev outage : Surroundings
outage = record calm { link = refused }

abbrev storm : List Event
storm =
    delivered metrics 0 outage true
    ∷ published subject_spans (some span_json)
    ∷ delivered metrics 1 calm true
    ∷ delivered spans 0 calm false
    ∷ delivered metrics 0 calm true
    ∷ []

run-IsKept_example :
    IsKept (some cpu_json) (kept metrics (run tallies storm waiting))
    ⊎ IsDone tallies metrics (some cpu_json) (run tallies storm waiting).state.db
run-IsKept_example = run-IsKept tallies metrics (some cpu_json) storm waiting (inl refl)

run-deliveries_empty_example :
    kept metrics (run tallies (deliveries metrics (calm ∷ calm ∷ [])) waiting) ≡ []
run-deliveries_empty_example =
    run-deliveries_empty tallies metrics (calm ∷ calm ∷ []) waiting (λ e. cc) (refl, (refl, tt))
      (omega arith)
