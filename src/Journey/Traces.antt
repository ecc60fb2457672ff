-- ===== src/Journey/Traces.antt =====
-- A span on its way from the agent to the API's answer (cmd/api/handler.go: getTrace).
use mathlib.Core.List.{Mem, not-mem-nil}
use mathlib.Core.List.Perm
use vkr_public.Base.{
  inl, inr, ℕ, String, ◌≡◌, refl, true, ap, ◌⊎◌, ◌∙◌, some, List, [], ◌∷◌, length, eq_refl,
}
use vkr_public.Instant.{Time, TimeText, timestamptz}
use vkr_public.Json.{Json, IsGoMap}
use vkr_public.Http.{Reply}
use vkr_public.Nats.{JetStream}
use vkr_public.Nats.Subscription.{IsKept}
use vkr_public.Agent.Client
use vkr_public.Agent.Client.{pb_span}
use vkr_public.Collector.Grpc.{accepted, send_spans}
use vkr_public.Storage.Tables.{TraceSpan, Tables, up, span_row}
use vkr_public.Storage.Select.Found.{Mem-where_rows}
use vkr_public.Storage.Queries.{is_span_of, query_spans_by_trace}
use vkr_public.Storage.Queries.Laws.{query_spans_by_trace-IsSorted}
use vkr_public.Aggregator.Messages.{decode_span}
use vkr_public.Aggregator.Consumer.{State, span_of}
use vkr_public.Aggregator.System.{Event, run}
use vkr_public.Aggregator.System.FromStream.{system_of}
use vkr_public.Aggregator.System.Reported.{span_told, sent_span_stored}
use vkr_public.Api.Handler.{ApiBody, rows, get_trace, traced}

-- The row says what the agent reported, with the times in microseconds.
pub record Tells (e : Client.SpanEntry) (x : TraceSpan) : Type 0 where
  pub trace_id : x.trace_id ≡ e.trace_id
  pub span_id : x.span_id ≡ e.span_id
  pub parent_span_id : x.parent_span_id ≡ e.parent_span_id
  pub service_name : x.service_name ≡ e.service_name
  pub operation_name : x.operation_name ≡ e.operation_name
  pub start_time : x.start_time ≡ timestamptz e.start_time
  pub end_time : x.end_time ≡ timestamptz e.end_time
  pub status : x.status ≡ e.status
  pub attributes : x.attributes ≡ e.attributes

-- A reply to a query for a trace: 200 with rows and their number, with a row for the span.
abbrev pub IsTraced : Reply (ApiBody TraceSpan) → Client.SpanEntry → Type 0
IsTraced r e =
    (found : List TraceSpan) × (r
      ≡ record { status = 200; body = rows e.trace_id (length found) found })
    × ((x : TraceSpan) × Mem x found × Tells e x)

row-Tells : (e : Client.SpanEntry) (id : ℕ) → Tells e (span_row id (span_of (span_told e)))
unfolding span_row span_of
row-Tells e id = record {
  trace_id = refl;
  span_id = refl;
  parent_span_id = refl;
  service_name = refl;
  operation_name = refl;
  start_time = refl;
  end_time = refl;
  status = refl;
  attributes = refl;
}

row-is_span_of :
    (e : Client.SpanEntry) (id : ℕ)
    → is_span_of e.trace_id (span_row id (span_of (span_told e))) ≡ true
unfolding is_span_of span_row span_of
row-is_span_of e id = eq_refl e.trace_id

pub answered_up :
    (trace_id : String) (db : Tables)
    → (found : List TraceSpan) × (query_spans_by_trace up trace_id db ≡ some found)
unfolding query_spans_by_trace
answered_up trace_id db = (_, refl)

-- A trace in which a span was found.
pub traced-rows :
    (trace_id : String) (x : TraceSpan) (found : List TraceSpan)
    → Mem x found
    → traced trace_id (some found)
      ≡ record { status = 200; body = rows trace_id (length found) found }
traced-rows trace_id x [] m = absurd (not-mem-nil m)
traced-rows trace_id x (s ∷ ss) m = refl

get_trace-IsTraced :
    (db : Tables) (e : Client.SpanEntry) (id : ℕ)
    → Mem (span_row id (span_of (span_told e))) db.spans
    → IsTraced (get_trace up e.trace_id db) e
unfolding get_trace
get_trace-IsTraced db e id stored =
    let x = span_row id (span_of (span_told e)) in
    let (found, answer) = answered_up e.trace_id db in
    let (all, _) = query_spans_by_trace-IsSorted up e.trace_id db answer in
    let here : Mem x found =
      (Perm.mem_iff all).1
        (Mem-where_rows (is_span_of e.trace_id) x db.spans (row-is_span_of e id) stored) in
    (
      found,
      ap (traced e.trace_id) answer ∙ traced-rows e.trace_id x found here,
      (x, here, row-Tells e id),
    )

-- A span that the agent sends, with attributes that are a Go map, and that the collector accepts. In
-- every run of new consumers of the stream, the server keeps the JSON of a message with all its
-- fields, or a query of the API that follows, for its trace and with a database that answers, is
-- answered 200 with a row of the span.
pub sent_span-IsTraced :
    (clock : TimeText) {S : Type 0} (js : JetStream S) (start finish : ℕ → Time)
    (e : Client.SpanEntry) (s : S) (k : ℕ) (state : State) (events : List Event)
    → IsGoMap e.attributes
    → let answer = send_spans clock js start finish (pb_span e ∷ []) s in
      answer.1 ≡ accepted k
      → let sys = run clock events (system_of (js.stored answer.0) state) in
        ((j : Json) × (decode_span clock j ≡ some (span_told e)) × IsKept (some j) sys.kept_spans)
        ⊎ IsTraced (get_trace up e.trace_id sys.state.db) e
sent_span-IsTraced clock js start finish e s k state events attributes ok =
    let (j, decodes, fate) =
      sent_span_stored clock js start finish e s k state events attributes ok in
    elim fate [
      | inl waits ↦ inl (j, decodes, waits)
      | inr (id, stored) ↦ inr (get_trace-IsTraced _ e id stored)
    ]
