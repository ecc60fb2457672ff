-- ===== src/Aggregator/System/Reported.antt =====
-- From the agent to the database: its log entries and its spans.
use vkr_public.Base.{ℕ, ◌≡◌, ◌⊎◌, some, List, [], ◌∷◌, All}
use vkr_public.Instant.{Time, TimeText}
use vkr_public.Json.{Json, IsGoMap}
use vkr_public.Nats.{JetStream}
use vkr_public.Nats.Subscription.{IsKept}
use vkr_public.Agent.Client.{LogEntry, SpanEntry, pb_log, pb_span}
use vkr_public.Collector.Requests.{Payload, marshal}
use vkr_public.Collector.Grpc.{
  Response, accepted, internal, log_messages, span_messages, log_request, span_request, send_logs,
  send_spans,
}
use vkr_public.Collector.Grpc.Delivery.{Outcome}
use vkr_public.Collector.Grpc.Calls.{send_logs-Outcome, send_spans-Outcome}
use vkr_public.Aggregator.Messages.{LogMsg, SpanMsg, decode_log, decode_span}
use vkr_public.Aggregator.Roundtrip.{decode_log-marshal_log, decode_span-marshal_span}
use vkr_public.Aggregator.Consumer.{State}
use vkr_public.Aggregator.System.{logs, spans, subject_of, Signal, Event, run}
use vkr_public.Aggregator.System.NothingLost.{HasLog, HasSpan}
use vkr_public.Aggregator.System.FromStream.{
  system_of, IsWaiting, Grown-IsWaiting, run-log, run-span,
}

-- The messages that say what the agent reported.
abbrev pub log_told : LogEntry → LogMsg
log_told e = record {
  service_name = e.service_name;
  level = e.level;
  message = e.message;
  trace_id = e.trace_id;
  fields = e.fields;
  timestamp = e.timestamp;
}

abbrev pub span_told : SpanEntry → SpanMsg
span_told s = record {
  trace_id = s.trace_id;
  span_id = s.span_id;
  parent_span_id = s.parent_span_id;
  service_name = s.service_name;
  operation_name = s.operation_name;
  start_time = s.start_time;
  end_time = s.end_time;
  status = s.status;
  attributes = s.attributes;
}

accepted_waits :
    (clock : TimeText) {S : Type 0} (js : JetStream S) (signal : Signal) (vs : List Payload)
    (s s' : S) (n k : ℕ) (response : Response)
    → response ≡ accepted k
    → Outcome clock js s s' (subject_of signal) vs n response
    → All (IsWaiting clock signal (js.stored s')) vs
accepted_waits clock js signal vs s s' n k (accepted m) h (_, grown) =
    Grown-IsWaiting clock js signal vs s s' grown
accepted_waits clock js signal vs s s' n k (internal e) h outcome = cc

-- A log entry that the agent sends, with fields that are a Go map, and that the collector accepts, is
-- in every run of new consumers of the stream kept by the server as the JSON of a message with all
-- its fields, or its row is in the table.
pub sent_log_stored :
    (clock : TimeText) {S : Type 0} (js : JetStream S) (now : ℕ → Time) (e : LogEntry) (s : S)
    (k : ℕ) (state : State) (events : List Event)
    → IsGoMap e.fields
    → let answer = send_logs clock js now (pb_log e ∷ []) s in
      answer.1 ≡ accepted k
      → let sys = run clock events (system_of (js.stored answer.0) state) in
        (j : Json) × (decode_log clock j ≡ some (log_told e))
        × (IsKept (some j) sys.kept_logs ⊎ HasLog (log_told e) sys.state.db)
unfolding log_messages pb_log marshal
sent_log_stored clock js now e s k state events fields ok =
    let answer = send_logs clock js now (pb_log e ∷ []) s in
    let (j, sent, waiting) =
      (accepted_waits clock js logs (log_messages now 0 (pb_log e ∷ [])) s answer.0 _ k answer.1 ok
        (send_logs-Outcome clock js now (pb_log e ∷ []) s)).0 in
    let decodes = decode_log-marshal_log clock (log_request (now 0) (pb_log e)) fields sent in
    (j, decodes, run-log clock j _ events (system_of (js.stored answer.0) state) decodes waiting)

-- A span that the agent sends, with attributes that are a Go map, and that the collector accepts, is
-- in every run of new consumers of the stream kept by the server as the JSON of a message with all
-- its fields, or its row is in the table.
pub sent_span_stored :
    (clock : TimeText) {S : Type 0} (js : JetStream S) (start finish : ℕ → Time) (e : SpanEntry)
    (s : S) (k : ℕ) (state : State) (events : List Event)
    → IsGoMap e.attributes
    → let answer = send_spans clock js start finish (pb_span e ∷ []) s in
      answer.1 ≡ accepted k
      → let sys = run clock events (system_of (js.stored answer.0) state) in
        (j : Json) × (decode_span clock j ≡ some (span_told e))
        × (IsKept (some j) sys.kept_spans ⊎ HasSpan (span_told e) sys.state.db)
unfolding span_messages pb_span marshal
sent_span_stored clock js start finish e s k state events attributes ok =
    let answer = send_spans clock js start finish (pb_span e ∷ []) s in
    let (j, sent, waiting) =
      (accepted_waits clock js spans (span_messages start finish 0 (pb_span e ∷ [])) s answer.0 _ k
        answer.1 ok (send_spans-Outcome clock js start finish (pb_span e ∷ []) s)).0 in
    let decodes =
      decode_span-marshal_span clock (span_request (start 0) (finish 0) (pb_span e)) attributes
        sent in
    (j, decodes, run-span clock j _ events (system_of (js.stored answer.0) state) decodes waiting)
