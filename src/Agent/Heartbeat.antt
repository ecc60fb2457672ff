-- ===== src/Agent/Heartbeat.antt =====
-- The heartbeat (cmd/agent/collector.go: streamLogs, sendSpan). A tick reports the worst status of its
-- interval in a log entry and in a span of one minute.
pub mod Reports
use Prim.Native.String
use vkr_public.Base.{ℕ, ◌-◌, ◌*◌, String, some, List, [], ◌∷◌, ◌++◌, StringMap}
use vkr_public.Float64.{FloatOps}
use vkr_public.Instant.{Time, second}
use vkr_public.Agent.Client.{SpanEntry, Action, send_span_call}
use vkr_public.Agent.Status.{pop_status}
use vkr_public.Agent.Send.{Agent, Surroundings, Result, send_log}

unfoldable pub started : Surroundings → Agent → Result
started w a =
    send_log w "info" "agent started" a.session_id
      (some (("host", w.host) ∷ ("session_id", a.session_id) ∷ [])) a

unfoldable pub stopping : Surroundings → Agent → Result
stopping w a = send_log w "info" "agent stopping" a.session_id (some (("host", w.host) ∷ [])) a

abbrev pub heartbeat_span : Surroundings → String → Time → String → String → Agent → SpanEntry
heartbeat_span w fresh now uptime span_status a = record {
  trace_id = a.session_id;
  span_id = fresh;
  parent_span_id = "";
  service_name = a.service_name;
  operation_name = "metric_collection_interval";
  start_time = now - 60 * second;
  end_time = now;
  status = span_status;
  attributes = some (("host", w.host) ∷ ("interval", "60s") ∷ ("uptime", uptime) ∷ []);
}

abbrev with_span : Action → Result → Result
with_span call (a, calls) = (a, calls ++ call ∷ [])

-- `start` is when the agent began and `now` the tick.
unfoldable pub tick : FloatOps → Surroundings → String → Time → Time → Agent → Result
unfolding pop_status send_span_call
tick ops w fresh start now a =
    let uptime = String.◌++◌ (ops.text_0 (ops.seconds (now - start))) "s" in
    let (span_status, left) = pop_status a.interval_status in
    with_span (send_span_call (heartbeat_span w fresh now uptime span_status a)) (
      send_log w "info" "agent heartbeat" a.session_id
        (some (("host", w.host) ∷ ("uptime", uptime) ∷ ("span_status", span_status) ∷ []))
        (record a { interval_status = left }))
