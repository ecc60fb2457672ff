-- ===== src/Aggregator/Consumer.antt =====
-- The callbacks of the aggregator's three consumers (cmd/aggregator/consumer.go), and what Subscribe
-- answers for each delivery (internal/nats/jetstream.go).
-- The fates of the statements, the clock and the fresh span identifier are arguments. Logging is
-- left out; the Prometheus counters that the callbacks raise are part of the state.
pub mod Retry
pub mod Steps
pub mod Growth
pub mod Duplicates
pub mod Pipeline
use vkr_public.Base.{
  ℕ, ◌+◌, String, Bool, Option, none, some, List, [], ◌∷◌, ◌==◌, not, if◌then◌else◌,
}
use vkr_public.Instant.{Time, TimeText}
use vkr_public.Json.{Json}
use vkr_public.Nats.{Delivery, ack, nak}
use vkr_public.Storage.Tables.{
  MetricPoint, LogEntry, TraceSpan, Tables, Link, DbError, Outcome, insert_metric, insert_log,
  insert_span,
}
use vkr_public.Aggregator.Messages.{
  MetricMsg, LogMsg, SpanMsg, decode_metric, decode_log, decode_span,
}

-- errors_total by its label, and requests_total of the labels nats, metrics, 200.
pub record Counters : Type 0 where
  pub decode_metric_errors : ℕ
  pub insert_metric_errors : ℕ
  pub insert_log_errors : ℕ
  pub insert_span_errors : ℕ
  pub metrics_stored : ℕ

pub record State : Type 0 where
  pub db : Tables
  pub counters : Counters

-- The argument of InsertMetric. Its ID is 0 and is not read.
unfoldable pub point_of : MetricMsg → MetricPoint
point_of msg = record {
  id = 0;
  service_name = msg.service_name;
  metric_name = msg.metric_name;
  value = msg.value;
  labels = msg.labels;
  timestamp = msg.timestamp;
}

unfoldable pub entry_of : LogMsg → LogEntry
entry_of msg = record {
  id = 0;
  service_name = msg.service_name;
  level = msg.level;
  message = msg.message;
  trace_id = msg.trace_id;
  fields = msg.fields;
  timestamp = msg.timestamp;
}

unfoldable pub span_of : SpanMsg → TraceSpan
span_of msg = record {
  id = 0;
  trace_id = msg.trace_id;
  span_id = msg.span_id;
  parent_span_id = msg.parent_span_id;
  service_name = msg.service_name;
  operation_name = msg.operation_name;
  start_time = msg.start_time;
  end_time = msg.end_time;
  status = msg.status;
  attributes = msg.attributes;
}

-- The aggregator's own span of a traced metric.
unfoldable pub insert_metric_span : String → Time → Time → MetricMsg → TraceSpan
insert_metric_span fresh start finish msg = record {
  id = 0;
  trace_id = msg.trace_id;
  span_id = fresh;
  parent_span_id = msg.collector_span_id;
  service_name = "aggregator";
  operation_name = "aggregator.insert_metric";
  start_time = start;
  end_time = finish;
  status = "ok";
  attributes = some (("metric_name", msg.metric_name) ∷ ("service_name", msg.service_name) ∷ []);
}

-- What the world decides for one delivery of a metric.
pub record Surroundings : Type 0 where
  pub link : Link
  pub span_link : Link
  pub fresh : String
  pub start : Time
  pub finish : Time

abbrev count_metric_error : Counters → Counters
count_metric_error c = record c { insert_metric_errors = c.insert_metric_errors + 1 }

-- The span of a stored metric; its failure is ignored.
unfoldable pub trace_metric : Surroundings → MetricMsg → Tables → Tables
unfolding insert_metric_span insert_span
trace_metric w msg db =
    if not (msg.trace_id == "")
    then (insert_span w.span_link (insert_metric_span w.fresh w.start w.finish msg) db).0
    else db

abbrev metric_stored : Surroundings → MetricMsg → Counters → Outcome → State × Delivery
metric_stored w msg c (db, some e) = (record { db = db; counters = count_metric_error c }, nak)
metric_stored w msg c (db, none) = (
  record {
    db = trace_metric w msg db;
    counters = record c { metrics_stored = c.metrics_stored + 1 };
  },
  ack,
)

abbrev log_stored : Counters → Outcome → State × Delivery
log_stored c (db, some e) =
    (record { db = db; counters = record c { insert_log_errors = c.insert_log_errors + 1 } }, nak)
log_stored c (db, none) = (record { db = db; counters = c }, ack)

abbrev span_stored : Counters → Outcome → State × Delivery
span_stored c (db, some e) =
    (record { db = db; counters = record c { insert_span_errors = c.insert_span_errors + 1 } }, nak)
span_stored c (db, none) = (record { db = db; counters = c }, ack)

-- A message that does not decode is acknowledged and dropped.
abbrev handle_metric : Surroundings → Option MetricMsg → State → State × Delivery
handle_metric w none s = (
  record s {
    counters = record s.counters { decode_metric_errors = s.counters.decode_metric_errors + 1 };
  },
  ack,
)
handle_metric w (some msg) s =
    metric_stored w msg s.counters (insert_metric w.link (point_of msg) s.db)

abbrev handle_log : Link → Option LogMsg → State → State × Delivery
handle_log link none s = (s, ack)
handle_log link (some msg) s = log_stored s.counters (insert_log link (entry_of msg) s.db)

abbrev handle_span : Link → Option SpanMsg → State → State × Delivery
handle_span link none s = (s, ack)
handle_span link (some msg) s = span_stored s.counters (insert_span link (span_of msg) s.db)

abbrev pub decoded {ℓ} : {A : Type ℓ} → (Json → Option A) → Option Json → Option A
decoded decode none = none
decoded decode (some j) = decode j

-- The payload of a message is `none` where it is no JSON.
module _ (clock : TimeText) where
  unfoldable pub consume_metric : Surroundings → Option Json → State → State × Delivery
  unfolding point_of trace_metric
  consume_metric w payload s = handle_metric w (decoded (decode_metric clock) payload) s

  unfoldable pub consume_log : Link → Option Json → State → State × Delivery
  unfolding entry_of
  consume_log link payload s = handle_log link (decoded (decode_log clock) payload) s

  unfoldable pub consume_span : Link → Option Json → State → State × Delivery
  unfolding span_of
  consume_span link payload s = handle_span link (decoded (decode_span clock) payload) s
