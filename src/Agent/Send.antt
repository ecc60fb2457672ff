-- ===== src/Agent/Send.antt =====
-- Sending a batch and the log entries about it (cmd/agent/collector.go: send, sendLog). Failures of
-- log calls change only the agent's own log. `fail_count` is an atomic int32, by its bit pattern.
pub mod Streak
use Prim.Native.String
use vkr_public.Base.{
  ℕ, ◌+◌, ◌-◌, ◌%◌, ◌^◌, String, Bool, Option, none, some, List, [], ◌∷◌, ◌++◌, ◌==◌, ◌&&◌, ◌||◌,
  ltb, leb, eqb, if◌then◌else◌, StringMap, decimal,
}
use vkr_public.Instant.{Time}
use vkr_public.Agent.Client.{MetricPoint, LogEntry, Action, send_batch_traced, send_log_call}
use vkr_public.Agent.Status.{status_warn, status_error, raise_status}
use vkr_public.Agent.Alerter.{Alerter, alert}

pub record Agent : Type 0 where
  pub service_name : String
  pub session_id : String
  pub alerter : Alerter
  pub fail_count : ℕ
  pub interval_status : String

-- Readings of the surroundings: the host name, the clock, and its text for an alert.
pub record Surroundings : Type 0 where
  pub host : String
  pub now : Time
  pub clock_text : String

abbrev pub Result : Type 0
Result = Agent × List Action

unfoldable pub send_log : Surroundings → String → String → String → StringMap → Agent → Result
unfolding raise_status alert send_log_call
send_log w level message trace_id fields a =
    let call = send_log_call (record {
      service_name = a.service_name;
      level = level;
      message = message;
      trace_id = trace_id;
      fields = fields;
      timestamp = w.now;
    }) in
    if level == status_warn || level == status_error
    then (
      record a { interval_status = raise_status level a.interval_status },
      alert a.alerter w.host w.clock_text level message ++ call ∷ [],
    )
    else (a, call ∷ [])

-- Add(1), and the readings of the sign.
abbrev pub add_int32 : ℕ → ℕ
add_int32 n = (n + 1) % 2 ^ 32

abbrev pub is_positive_over : ℕ → ℕ → Bool
is_positive_over k n = ltb k n && ltb n (2 ^ 31)

-- `%d` of an int32
unfoldable pub int32_text : ℕ → String
unfolding decimal
int32_text n = if ltb n (2 ^ 31) then decimal n else String.◌++◌ "-" (decimal (2 ^ 32 - n))

abbrev pub failure_fields : Surroundings → String → ℕ → StringMap
failure_fields w metric fc =
    some (("metric", metric) ∷ ("host", w.host) ∷ ("fail_count", int32_text fc) ∷ [])

unfoldable pub after_failure : Surroundings → String → String → Agent → Result
after_failure w metric e a =
    let fc = add_int32 a.fail_count in
    let counted = record a { fail_count = fc } in
    if eqb fc 3
    then send_log w "error" "collector unreachable, metric loss in progress" a.session_id
        (failure_fields w metric fc) counted
    else if is_positive_over 3 fc
    then (counted, [])
    else send_log w "warn" (String.◌++◌ "failed to send metric batch: " e) a.session_id
        (failure_fields w metric fc) counted

abbrev pub cleared : Result → Result
cleared (a, calls) = (record a { fail_count = 0 }, calls)

unfoldable pub after_success : Surroundings → Agent → Result
after_success w a =
    if is_positive_over 2 a.fail_count
    then cleared (
        send_log w "info"
          (String.◌++◌ "connectivity restored after "
            (String.◌++◌ (int32_text a.fail_count) " failures"))
          a.session_id (some (("host", w.host) ∷ [])) a)
    else (record a { fail_count = 0 }, [])

abbrev pub settle : Surroundings → String → Option String → Agent → Result
settle w metric (some e) a = after_failure w metric e a
settle w metric none a = after_success w a

-- A batch is its first point and the others: no caller sends an empty one. `outcome` is the error of
-- the call, and `fresh` the parent span identifier.
unfoldable pub send :
    Surroundings → String → MetricPoint → List MetricPoint → Option String → Agent → Result
unfolding send_batch_traced
send w fresh m ms outcome a =
    let (a', calls) = settle w m.metric_name outcome a in
    (a', send_batch_traced (m ∷ ms) a.session_id fresh ∷ calls)
