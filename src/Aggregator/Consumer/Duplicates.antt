-- ===== src/Aggregator/Consumer/Duplicates.antt =====
-- Deliveries of a span whose identifier the table already has.
use vkr_public.Base.{
  String, ◌≡◌, refl, inl, inr, true, Option, some, List, [], ◌∷◌, ◌++◌, arith, eq_iff, Bool-cases,
}
use vkr_public.Instant.{TimeText}
use vkr_public.Json.{Json}
use vkr_public.Nats.{nak}
use vkr_public.Storage.Tables.{
  Tables, Link, up, refused, lost, DbError, unreachable, unique_violation, MetricPoint, LogEntry,
  TraceSpan, insert_metric, insert_log, insert_span, has_span, span_row,
}
use vkr_public.Aggregator.Messages.{SpanMsg, decode_span}
use vkr_public.Aggregator.Consumer.{State, span_of, handle_span, span_stored, decoded, consume_span}
use vkr_public.Aggregator.Consumer.Steps.{Reach, Reach-keeps}

abbrev Holds : String → Tables → Type 0
Holds i db = has_span i db.spans ≡ true

has_span-append_left :
    (i : String) (ss ts : List TraceSpan) → has_span i ss ≡ true → has_span i (ss ++ ts) ≡ true
unfolding has_span
has_span-append_left i [] ts h = cc
has_span-append_left i (s ∷ ss) ts h = ground (arith, has_span-append_left i ss ts)

insert_span-Holds :
    (i : String) (link : Link) (s : TraceSpan) (db : Tables)
    → Holds i db
    → Holds i (insert_span link s db).0
unfolding insert_span
insert_span-Holds i refused s db h = h
insert_span-Holds i link s db h = elim (Bool-cases (has_span s.span_id db.spans)) [
  | inl old ↦ rw old h
  | inr new ↦ rw new (has_span-append_left i db.spans _ h)
]

insert_metric-Holds :
    (i : String) (link : Link) (m : MetricPoint) (db : Tables)
    → Holds i db
    → Holds i (insert_metric link m db).0
unfolding insert_metric
insert_metric-Holds i link m db h = ground arith

insert_log-Holds :
    (i : String) (link : Link) (l : LogEntry) (db : Tables)
    → Holds i db
    → Holds i (insert_log link l db).0
unfolding insert_log
insert_log-Holds i link l db h = ground arith

Reach-Holds :
    {clock : TimeText} {s t : State} (i : String) → Reach clock s t → Holds i s.db → Holds i t.db
Reach-Holds i = Reach-keeps (Holds i) (record {
  metric = insert_metric-Holds i;
  log = insert_log-Holds i;
  span = insert_span-Holds i;
})

-- A message whose span identifier is in the table is refused whatever becomes of the statement.
insert_span-refused :
    (link : Link) (s : TraceSpan) (db : Tables)
    → Holds s.span_id db
    → (e : DbError) × ((insert_span link s db).1 ≡ some e)
      × ((insert_span link s db).0.spans ≡ db.spans)
unfolding insert_span
insert_span-refused up s db h = (unique_violation, rw h, rw h)
insert_span-refused refused s db h = (unreachable, refl, refl)
insert_span-refused lost s db h = (unreachable, refl, rw h)

-- Once a span identifier is in the table, a delivery of a span with that identifier is answered by
-- a nak in every state that the aggregator reaches from there, and adds no row.
pub duplicate_never_acked :
    {clock : TimeText} {s t : State} (link : Link) (payload : Option Json) (msg : SpanMsg)
    → decoded (decode_span clock) payload ≡ some msg
    → has_span msg.span_id s.db.spans ≡ true
    → Reach clock s t
    → ((consume_span clock link payload t).1 ≡ nak)
      × ((consume_span clock link payload t).0.db.spans ≡ t.db.spans)
unfolding consume_span
duplicate_never_acked {t} link payload msg good old r =
    let (e, bad, same) =
      insert_span-refused link (span_of msg) t.db (Reach-Holds msg.span_id r old) in
    (
      rw (good, handle_span) (rw (bad, span_stored)),
      rw (good, handle_span) (rw (bad, span_stored) same),
    )

has_span-append_self :
    (i : String) (ss : List TraceSpan) (s : TraceSpan)
    → s.span_id ≡ i
    → has_span i (ss ++ s ∷ []) ≡ true
unfolding has_span
has_span-append_self i [] s h = ground (arith, eq_iff s.span_id i)
has_span-append_self i (t ∷ ss) s h = ground (arith, has_span-append_self i ss s)

insert_span_lost-Holds : (s : TraceSpan) (db : Tables) → Holds s.span_id (insert_span lost s db).0
unfolding insert_span
insert_span_lost-Holds s db = elim (Bool-cases (has_span s.span_id db.spans)) [
  | inl old ↦ rw old old
  | inr new ↦ rw new (has_span-append_self s.span_id db.spans (span_row db.next_span s) refl)
]

handle_span_lost :
    (msg : SpanMsg) (s : State)
    → ((handle_span lost (some msg) s).1 ≡ nak)
      × Holds msg.span_id (handle_span lost (some msg) s).0.db
unfolding insert_span span_of
handle_span_lost msg s = (refl, insert_span_lost-Holds (span_of msg) s.db)

-- A span whose statement is executed while its answer is lost is answered by a nak, and then by a nak
-- at every later delivery, in every state that the aggregator reaches from there.
pub lost_answer_never_acked :
    {clock : TimeText} (s : State) {t : State} (link : Link) (payload : Option Json) (msg : SpanMsg)
    → decoded (decode_span clock) payload ≡ some msg
    → Reach clock (consume_span clock lost payload s).0 t
    → ((consume_span clock lost payload s).1 ≡ nak) × ((consume_span clock link payload t).1 ≡ nak)
unfolding consume_span
lost_answer_never_acked s link payload msg good r =
    let (first, stored) = handle_span_lost msg s in
    (rw good first, (duplicate_never_acked link payload msg good (rw good stored) r).0)
