-- ===== src/Collector/Handler.antt =====
-- The HTTP handlers of the collector (cmd/collector/handler.go). A body that is no JSON is `none`, and
-- `now` is the clock. Logging and tracing of the handlers themselves are left out.
pub mod Replies
pub mod Filled
use mathlib.Core.Option
use vkr_public.Base.{ℕ, String, Bool, Option, none, some, ◌==◌, if◌then◌else◌}
use vkr_public.Instant.{Time, TimeText, is_zero}
use vkr_public.Json.{Json, struct_into}
use vkr_public.Nats.{JetStream, subject_metrics, subject_logs, subject_spans}
use vkr_public.Http.{Body, bind_failure, error_text, accepted_true, Reply}
use vkr_public.Collector.Requests.{
  MetricRequest, LogRequest, SpanRequest, Payload, metric, log, span, zero_metric_request,
  zero_log_request, zero_span_request, set_metric, set_log, set_span, metric_complete, log_complete,
  span_complete,
}
use vkr_public.Collector.Publisher.{PublishError, publish}

-- The validation of ShouldBindJSON.
abbrev validated {ℓ} : {A : Type ℓ} → (A → Bool) → A → Option A
validated complete r = if complete r then some r else none

unfoldable pub default_time : Time → Time → Time
default_time now t = if is_zero t then now else t

unfoldable pub stamp_metric : Time → MetricRequest → MetricRequest
unfolding default_time
stamp_metric now r = record r { timestamp = default_time now r.timestamp }

unfoldable pub stamp_log : Time → LogRequest → LogRequest
unfolding default_time
stamp_log now r = record r { timestamp = default_time now r.timestamp }

unfoldable pub default_status : SpanRequest → SpanRequest
default_status r = record r { status = if r.status == "" then "ok" else r.status }

module _ (clock : TimeText) where
  unfoldable pub bind_metric : Option Json → Option MetricRequest
  unfolding set_metric struct_into metric_complete Option.bind
  bind_metric none = none
  bind_metric (some j) =
      Option.bind (struct_into (set_metric clock) j zero_metric_request) (validated metric_complete)

  unfoldable pub bind_log : Option Json → Option LogRequest
  unfolding set_log struct_into log_complete Option.bind
  bind_log none = none
  bind_log (some j) =
      Option.bind (struct_into (set_log clock) j zero_log_request) (validated log_complete)

  unfoldable pub bind_span : Option Json → Option SpanRequest
  unfolding set_span struct_into span_complete Option.bind
  bind_span none = none
  bind_span (some j) =
      Option.bind (struct_into (set_span clock) j zero_span_request) (validated span_complete)

abbrev pub bad_request : Reply Body
bad_request = record { status = 400; body = bind_failure }

abbrev pub publish_failure : Reply Body
publish_failure = record { status = 500; body = error_text "publish failed" }

abbrev pub accepted_reply : Reply Body
accepted_reply = record { status = 202; body = accepted_true }

abbrev answer {ℓ} : {S : Type ℓ} → S × Option PublishError → S × Reply Body
answer (s, none) = (s, accepted_reply)
answer (s, some e) = (s, publish_failure)

module _ (clock : TimeText) {S : Type 0} (js : JetStream S) where
  abbrev forward : String → Option Payload → S → S × Reply Body
  forward subject none s = (s, bad_request)
  forward subject (some v) s = answer (publish clock js s subject v)

  unfoldable pub receive_metrics : Time → Option Json → S → S × Reply Body
  unfolding stamp_metric
  receive_metrics now body s =
      forward subject_metrics
        (Option.map (λ r. metric (stamp_metric now r)) (bind_metric clock body)) s

  unfoldable pub receive_logs : Time → Option Json → S → S × Reply Body
  unfolding stamp_log
  receive_logs now body s =
      forward subject_logs (Option.map (λ r. log (stamp_log now r)) (bind_log clock body)) s

  unfoldable pub receive_spans : Option Json → S → S × Reply Body
  unfolding default_status
  receive_spans body s =
      forward subject_spans (Option.map (λ r. span (default_status r)) (bind_span clock body)) s
