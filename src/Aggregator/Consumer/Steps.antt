-- ===== src/Aggregator/Consumer/Steps.antt =====
-- The aggregator at work: the three consumers handle deliveries in any order. A property of the
-- tables that every insert keeps holds in every state that the aggregator reaches.
use vkr_public.Base.{inl, inr, Option, none, some, ◌==◌, Option-cases, Bool-cases}
use vkr_public.Instant.{TimeText}
use vkr_public.Json.{Json}
use vkr_public.Storage.Tables.{
  Tables, Link, MetricPoint, LogEntry, TraceSpan, insert_metric, insert_log, insert_span,
}
use vkr_public.Storage.Tables.Inserts.{
  IsValid, insert_metric-IsValid, insert_log-IsValid, insert_span-IsValid,
}
use vkr_public.Aggregator.Messages.{MetricMsg, LogMsg, SpanMsg}
use vkr_public.Aggregator.Consumer.{
  State, Surroundings, point_of, entry_of, span_of, insert_metric_span, trace_metric, handle_metric,
  handle_log, handle_span, consume_metric, consume_log, consume_span,
}

pub data Step (clock : TimeText) (s : State) : State → Type 0 where
  metric_step :
      (w : Surroundings) (payload : Option Json) → Step clock s (consume_metric clock w payload s).0
  log_step :
      (link : Link) (payload : Option Json) → Step clock s (consume_log clock link payload s).0
  span_step :
      (link : Link) (payload : Option Json) → Step clock s (consume_span clock link payload s).0

pub data Reach (clock : TimeText) (s : State) : State → Type 0 where
  here : Reach clock s s
  next : {t u : State} → Reach clock s t → Step clock t u → Reach clock s u

-- Every insert keeps `P`.
pub record Keeps (P : Tables → Type 0) : Type 0 where
  pub metric : (link : Link) (m : MetricPoint) (db : Tables) → P db → P (insert_metric link m db).0
  pub log : (link : Link) (l : LogEntry) (db : Tables) → P db → P (insert_log link l db).0
  pub span : (link : Link) (s : TraceSpan) (db : Tables) → P db → P (insert_span link s db).0

module _ (P : Tables → Type 0) (keeps : Keeps P) where
  trace_metric-keeps :
      (w : Surroundings) (msg : MetricMsg) (db : Tables) → P db → P (trace_metric w msg db)
  unfolding trace_metric
  trace_metric-keeps w msg db v = elim (Bool-cases (msg.trace_id == "")) [
    | inl e ↦ rw e v
    | inr e ↦ rw e (keeps.span w.span_link (insert_metric_span w.fresh w.start w.finish msg) db v)
  ]

  handle_metric-keeps :
      (w : Surroundings) (o : Option MetricMsg) (s : State) → P s.db → P (handle_metric w o s).0.db
  handle_metric-keeps w none s v = v
  handle_metric-keeps w (some msg) s v =
      let kept = keeps.metric w.link (point_of msg) s.db v in
      elim (Option-cases (insert_metric w.link (point_of msg) s.db).1) [
        | inl e ↦ rw (e, handle_metric) (trace_metric-keeps w msg _ kept)
        | inr (x, e) ↦ rw (e, handle_metric) kept
      ]

  handle_log-keeps :
      (link : Link) (o : Option LogMsg) (s : State) → P s.db → P (handle_log link o s).0.db
  handle_log-keeps link none s v = v
  handle_log-keeps link (some msg) s v =
      let kept = keeps.log link (entry_of msg) s.db v in
      elim (Option-cases (insert_log link (entry_of msg) s.db).1) [
        | inl e ↦ rw (e, handle_log) kept
        | inr (x, e) ↦ rw (e, handle_log) kept
      ]

  handle_span-keeps :
      (link : Link) (o : Option SpanMsg) (s : State) → P s.db → P (handle_span link o s).0.db
  handle_span-keeps link none s v = v
  handle_span-keeps link (some msg) s v =
      let kept = keeps.span link (span_of msg) s.db v in
      elim (Option-cases (insert_span link (span_of msg) s.db).1) [
        | inl e ↦ rw (e, handle_span) kept
        | inr (x, e) ↦ rw (e, handle_span) kept
      ]

  pub Step-keeps : {clock : TimeText} {s t : State} → Step clock s t → P s.db → P t.db
  unfolding consume_metric consume_log consume_span
  Step-keeps (metric_step w payload) v = handle_metric-keeps w _ _ v
  Step-keeps (log_step link payload) v = handle_log-keeps link _ _ v
  Step-keeps (span_step link payload) v = handle_span-keeps link _ _ v

  pub Reach-keeps : {clock : TimeText} {s t : State} → Reach clock s t → P s.db → P t.db
  Reach-keeps here v = v
  Reach-keeps (next r st) v = Step-keeps st (Reach-keeps r v)

-- Whatever is delivered, in any order and with any failures, the serial numbers stay below the next
-- ones and no two spans have one identifier.
pub Reach-IsValid : {clock : TimeText} {s t : State} → Reach clock s t → IsValid s.db → IsValid t.db
Reach-IsValid = Reach-keeps IsValid (record {
  metric = insert_metric-IsValid;
  log = insert_log-IsValid;
  span = insert_span-IsValid;
})
