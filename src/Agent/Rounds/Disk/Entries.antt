-- ===== src/Agent/Rounds/Disk/Entries.antt =====
-- The log entries that name a mount point (cmd/agent/collector.go: streamDisk, send).
use Prim.Native.String
use vkr_public.Base.{
  ℕ, ◌+◌, String, ◌≡◌, refl, Bool, true, false, Option, none, some, List, [], ◌∷◌, ◌++◌, arith,
  ◌==◌, if◌then◌else◌, Option-cases, inl, inr, StringMap, lookup,
}
use vkr_public.Wire.{PbLogEntry}
use vkr_public.Agent.Alerter.{alert}
use vkr_public.Agent.Send.{
  Agent, Surroundings, send, send_log, after_failure, after_success, add_int32, failure_fields,
  int32_text,
}
use vkr_public.Agent.Rounds.{Round, warn_if, send_batch}
use vkr_public.Agent.Client.{
  Action, MetricPoint, send_metrics, send_logs, send_spans, post, send_log_call, pb_log,
}

-- The field of a log entry that names a mount point.
abbrev pub field_of : StringMap → Option String
field_of none = none
field_of (some m) = lookup "mountpoint" m

abbrev pub names : String → Option String → ℕ
names mount none = 0
names mount (some other) = if other == mount then 1 else 0

abbrev pub entries_for : String → List PbLogEntry → ℕ
entries_for mount [] = 0
entries_for mount (e ∷ es) = names mount (field_of e.fields) + entries_for mount es

-- How many log entries about the mount point are sent.
abbrev pub logs_for : String → List Action → ℕ
logs_for mount [] = 0
logs_for mount (send_logs es ∷ rest) = entries_for mount es + logs_for mount rest
logs_for mount (send_metrics md ms ∷ rest) = logs_for mount rest
logs_for mount (send_spans ss ∷ rest) = logs_for mount rest
logs_for mount (post url body ∷ rest) = logs_for mount rest

pub logs_for-append :
    (mount : String) (xs ys : List Action)
    → logs_for mount (xs ++ ys) ≡ logs_for mount xs + logs_for mount ys
logs_for-append mount [] ys = omega arith
logs_for-append mount (send_logs es ∷ xs) ys = omega (arith, logs_for-append mount xs ys)
logs_for-append mount (send_metrics md ms ∷ xs) ys = logs_for-append mount xs ys
logs_for-append mount (send_spans ss ∷ xs) ys = logs_for-append mount xs ys
logs_for-append mount (post url body ∷ xs) ys = logs_for-append mount xs ys

pub logs_for-send_log :
    (mount : String) (w : Surroundings) (level message trace_id : String) (fields : StringMap)
    (a : Agent)
    → logs_for mount (send_log w level message trace_id fields a).1 ≡ names mount (field_of fields)
unfolding send_log send_log_call pb_log alert
logs_for-send_log mount w level message trace_id fields a = ground arith

pub logs_for-after_failure :
    (mount : String) (w : Surroundings) (metric e : String) (a : Agent)
    → logs_for mount (after_failure w metric e a).1 ≡ 0
unfolding after_failure
logs_for-after_failure mount w metric e a =
    let counted = record a { fail_count = add_int32 a.fail_count } in
    let fields = failure_fields w metric (add_int32 a.fail_count) in
    let silent : names mount (field_of fields) ≡ 0 = unfold lookup in refl in
    let e₃ =
      logs_for-send_log mount w "error" "collector unreachable, metric loss in progress"
        a.session_id fields counted in
    let e₁ =
      logs_for-send_log mount w "warn" (String.◌++◌ "failed to send metric batch: " e) a.session_id
        fields counted in
    ground (arith, e₁, e₃, silent)

pub logs_for-after_success :
    (mount : String) (w : Surroundings) (a : Agent) → logs_for mount (after_success w a).1 ≡ 0
unfolding after_success
logs_for-after_success mount w a =
    let fields : StringMap = some (("host", w.host) ∷ []) in
    let silent : names mount (field_of fields) ≡ 0 = unfold lookup in refl in
    let told =
      logs_for-send_log mount w "info"
        (String.◌++◌ "connectivity restored after "
          (String.◌++◌ (int32_text a.fail_count) " failures"))
        a.session_id fields a in
    ground (arith, told, silent)

pub logs_for-send :
    (mount : String) (r : Round) (ms : List MetricPoint) (a : Agent)
    → logs_for mount (send_batch r ms a).1 ≡ 0
unfolding send
logs_for-send mount r [] a = refl
logs_for-send mount r (m ∷ ms) a = elim (Option-cases r.outcome) [
  | inl e ↦ rw e (logs_for-after_success mount r.sending a)
  | inr (text, e) ↦ rw e (logs_for-after_failure mount r.sending m.metric_name text a)
]

pub logs_for-warn_if :
    (mount : String) (b : Bool) (w : Surroundings) (message : String) (fields : StringMap)
    (a : Agent)
    → logs_for mount (warn_if b w message fields a).1
      ≡ (if b then names mount (field_of fields) else 0)
unfolding warn_if
logs_for-warn_if mount false w message fields a = refl
logs_for-warn_if mount true w message fields a =
    logs_for-send_log mount w "warn" message a.session_id fields a
