-- ===== src/Aggregator/Consumer/Retry.antt =====
-- Acknowledged or delivered again: what each answer says of the tables.
use vkr_public.Base.{
  refl, ◌+◌, ◌≡◌, ◌⊎◌, inl, inr, Option, none, some, [], ◌∷◌, ◌++◌, arith, Option-cases, false,
}
use vkr_public.Instant.{TimeText}
use vkr_public.Json.{Json}
use vkr_public.Nats.{Delivery, ack, nak}
use vkr_public.Storage.Tables.{
  Link, up, refused, lost, metric_row, log_row, span_row, insert_metric, insert_log, insert_span,
  has_span,
}
use vkr_public.Aggregator.Messages.{
  MetricMsg, LogMsg, SpanMsg, decode_metric, decode_log, decode_span,
}
use vkr_public.Aggregator.Consumer.{
  State, Surroundings, point_of, trace_metric, handle_metric, decoded, consume_metric, handle_log,
  consume_log, handle_span, consume_span, entry_of, span_of,
}

-- What becomes of a metric message, by the fate of its statement. Executed and answered: the message
-- is acknowledged, its row is at the end of the table, no log or setting has changed, and the message
-- is counted. Otherwise it is not acknowledged, the row is there only where the statement was executed
-- and its answer lost, no log or span has changed, and the error is counted.
abbrev pub MetricDelivered : Link → MetricMsg → State → State × Delivery → Type 0
MetricDelivered link msg s (s', d) =
    let row = metric_row s.db.next_metric (point_of msg) in
    ((d ≡ ack)
      × (s'.db.metrics ≡ s.db.metrics ++ row ∷ [])
      × (s'.db.logs ≡ s.db.logs)
      × (s'.db.settings ≡ s.db.settings)
      × (s'.counters ≡ record s.counters { metrics_stored = s.counters.metrics_stored + 1 })
      × (link ≡ up))
    ⊎ ((d ≡ nak)
        × (((link ≡ refused) × (s'.db.metrics ≡ s.db.metrics))
            ⊎ ((link ≡ lost) × (s'.db.metrics ≡ s.db.metrics ++ row ∷ [])))
        × (s'.db.logs ≡ s.db.logs)
        × (s'.db.spans ≡ s.db.spans)
        × (s'.counters
            ≡ record s.counters { insert_metric_errors = s.counters.insert_metric_errors + 1 }))

handle_metric-MetricDelivered :
    (w : Surroundings) (msg : MetricMsg) (s : State)
    → MetricDelivered w.link msg s (handle_metric w (some msg) s)
unfolding insert_metric trace_metric insert_span
handle_metric-MetricDelivered w msg s = ground arith

-- A message is dropped only where it does not decode: then it is acknowledged with the tables as
-- they were, and counted as an error. Any other is acknowledged exactly when its statement is executed
-- and answered, with its row at the end of the table; otherwise it is not acknowledged, and the row
-- is there exactly when only the answer was lost.
pub consume_metric-MetricDelivered :
    (clock : TimeText) (w : Surroundings) (payload : Option Json) (s : State)
    → ((decoded (decode_metric clock) payload ≡ none)
        × ((consume_metric clock w payload s).1 ≡ ack)
        × ((consume_metric clock w payload s).0.db ≡ s.db)
        × ((consume_metric clock w payload s).0.counters
            ≡ record s.counters { decode_metric_errors = s.counters.decode_metric_errors + 1 }))
      ⊎ ((msg : MetricMsg) × (decoded (decode_metric clock) payload ≡ some msg)
          × MetricDelivered w.link msg s (consume_metric clock w payload s))
unfolding consume_metric
consume_metric-MetricDelivered clock w payload s =
    elim (Option-cases (decoded (decode_metric clock) payload)) [
      | inl bad ↦
          inl (bad, rw (bad, handle_metric), rw (bad, handle_metric), rw (bad, handle_metric))
      | inr (msg, good) ↦ inr (msg, good, rw good (handle_metric-MetricDelivered w msg s))
    ]

-- The same of a log message.
abbrev pub LogDelivered : LogMsg → State → State × Delivery → Type 0
LogDelivered msg s (s', d) =
    let row = log_row s.db.next_log (entry_of msg) in
    ((d ≡ ack)
      × (s'.db.logs ≡ s.db.logs ++ row ∷ [])
      × (s'.db.metrics ≡ s.db.metrics)
      × (s'.db.spans ≡ s.db.spans)
      × (s'.counters ≡ s.counters))
    ⊎ ((d ≡ nak)
        × ((s'.db.logs ≡ s.db.logs) ⊎ (s'.db.logs ≡ s.db.logs ++ row ∷ []))
        × (s'.db.metrics ≡ s.db.metrics)
        × (s'.db.spans ≡ s.db.spans)
        × (s'.counters.insert_log_errors ≡ s.counters.insert_log_errors + 1))

-- And of a span message: acknowledged, its identifier was new.
abbrev pub SpanDelivered : SpanMsg → State → State × Delivery → Type 0
SpanDelivered msg s (s', d) =
    let row = span_row s.db.next_span (span_of msg) in
    ((d ≡ ack)
      × (has_span msg.span_id s.db.spans ≡ false)
      × (s'.db.spans ≡ s.db.spans ++ row ∷ [])
      × (s'.db.metrics ≡ s.db.metrics)
      × (s'.db.logs ≡ s.db.logs))
    ⊎ ((d ≡ nak)
        × ((s'.db.spans ≡ s.db.spans) ⊎ (s'.db.spans ≡ s.db.spans ++ row ∷ []))
        × (s'.db.metrics ≡ s.db.metrics)
        × (s'.db.logs ≡ s.db.logs)
        × (s'.counters.insert_span_errors ≡ s.counters.insert_span_errors + 1))

handle_log-LogDelivered :
    (link : Link) (msg : LogMsg) (s : State) → LogDelivered msg s (handle_log link (some msg) s)
unfolding insert_log
handle_log-LogDelivered link msg s = ground arith

handle_span-SpanDelivered :
    (link : Link) (msg : SpanMsg) (s : State) → SpanDelivered msg s (handle_span link (some msg) s)
unfolding insert_span span_of
handle_span-SpanDelivered link msg s = ground arith

-- A log message is dropped only where it does not decode; any other is acknowledged exactly when the
-- aggregator knows that its row is stored.
pub consume_log-LogDelivered :
    (clock : TimeText) (link : Link) (payload : Option Json) (s : State)
    → ((decoded (decode_log clock) payload ≡ none)
        × ((consume_log clock link payload s).1 ≡ ack)
        × ((consume_log clock link payload s).0 ≡ s))
      ⊎ ((msg : LogMsg) × (decoded (decode_log clock) payload ≡ some msg)
          × LogDelivered msg s (consume_log clock link payload s))
unfolding consume_log
consume_log-LogDelivered clock link payload s =
    elim (Option-cases (decoded (decode_log clock) payload)) [
      | inl bad ↦ inl (bad, rw (bad, handle_log), rw (bad, handle_log))
      | inr (msg, good) ↦ inr (msg, good, rw good (handle_log-LogDelivered link msg s))
    ]

-- A span message is dropped only where it does not decode; any other is acknowledged exactly when the
-- aggregator knows that its row is stored, and then its identifier was new.
pub consume_span-SpanDelivered :
    (clock : TimeText) (link : Link) (payload : Option Json) (s : State)
    → ((decoded (decode_span clock) payload ≡ none)
        × ((consume_span clock link payload s).1 ≡ ack)
        × ((consume_span clock link payload s).0 ≡ s))
      ⊎ ((msg : SpanMsg) × (decoded (decode_span clock) payload ≡ some msg)
          × SpanDelivered msg s (consume_span clock link payload s))
unfolding consume_span
consume_span-SpanDelivered clock link payload s =
    elim (Option-cases (decoded (decode_span clock) payload)) [
      | inl bad ↦ inl (bad, rw (bad, handle_span), rw (bad, handle_span))
      | inr (msg, good) ↦ inr (msg, good, rw good (handle_span-SpanDelivered link msg s))
    ]

-- When the statement is executed, every metric message is acknowledged.
pub consume_metric-up :
    (clock : TimeText) (w : Surroundings) (m : Option Json) (s : State)
    → w.link ≡ up
    → (consume_metric clock w m s).1 ≡ ack
unfolding consume_metric insert_metric
consume_metric-up clock w m s works = elim (Option-cases (decoded (decode_metric clock) m)) [
  | inl bad ↦ rw (bad, handle_metric)
  | inr (msg, good) ↦ rw (good, handle_metric) (rw works refl)
]

-- And every log message.
pub consume_log-up :
    (clock : TimeText) (link : Link) (m : Option Json) (s : State)
    → link ≡ up
    → (consume_log clock link m s).1 ≡ ack
unfolding consume_log insert_log
consume_log-up clock link m s works = elim (Option-cases (decoded (decode_log clock) m)) [
  | inl bad ↦ rw (bad, handle_log)
  | inr (msg, good) ↦ rw (good, handle_log) (rw works refl)
]
