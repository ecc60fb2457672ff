-- ===== src/Agent/Heartbeat/Reports.antt =====
-- The span of a heartbeat carries the worst level that was logged since the one before.
use vkr_public.Base.{String, ◌≡◌, refl, ap, ◌∙◌, List, [], ◌∷◌, ◌++◌, arith, eq_iff, StringMap}
use vkr_public.Float64.{FloatOps}
use vkr_public.Instant.{Time}
use vkr_public.Wire.{PbTraceSpan}
use vkr_public.Agent.Client.{Action, send_metrics, send_logs, send_spans, post}
use vkr_public.Agent.Status.{status_ok, status_warn, status_error, raise_status, raise_all}
use vkr_public.Agent.Status.Worst.{worst, raise_all-ok}
use vkr_public.Agent.Send.{Agent, Surroundings, send_log}
use vkr_public.Agent.Heartbeat.{tick}

-- The statuses of the spans that are sent.
abbrev statuses_of : List PbTraceSpan → List String
statuses_of [] = []
statuses_of (s ∷ ss) = s.status ∷ statuses_of ss

abbrev pub span_statuses : List Action → List String
span_statuses [] = []
span_statuses (send_spans ss ∷ rest) = statuses_of ss ++ span_statuses rest
span_statuses (send_metrics md ms ∷ rest) = span_statuses rest
span_statuses (send_logs es ∷ rest) = span_statuses rest
span_statuses (post url body ∷ rest) = span_statuses rest

-- A log entry that the agent writes.
pub record Entry : Type 0 where
  pub surroundings : Surroundings
  pub level : String
  pub message : String
  pub trace_id : String
  pub fields : StringMap

abbrev pub write_all : List Entry → Agent → Agent
write_all [] a = a
write_all (e ∷ es) a =
    write_all es (send_log e.surroundings e.level e.message e.trace_id e.fields a).0

abbrev pub levels : List Entry → List String
levels [] = []
levels (e ∷ es) = e.level ∷ levels es

send_log-raise :
    (w : Surroundings) (level message trace_id : String) (fields : StringMap) (a : Agent)
    → (send_log w level message trace_id fields a).0
      ≡ record a { interval_status = raise_status level a.interval_status }
unfolding send_log raise_status
send_log-raise w level message trace_id fields a =
    ground (arith, eq_iff level status_warn, eq_iff level status_error)

write_all-raise :
    (es : List Entry) (a : Agent)
    → (write_all es a).interval_status ≡ raise_all (levels es) a.interval_status
unfolding raise_all
write_all-raise [] a = refl
write_all-raise (e ∷ es) a =
    write_all-raise es (send_log e.surroundings e.level e.message e.trace_id e.fields a).0
    ∙ ap (λ (b : Agent). raise_all (levels es) b.interval_status)
        (send_log-raise e.surroundings e.level e.message e.trace_id e.fields a)

tick-reports :
    (ops : FloatOps) (w : Surroundings) (fresh : String) (start now : Time) (a : Agent)
    → (span_statuses (tick ops w fresh start now a).1 ≡ a.interval_status ∷ [])
      × ((tick ops w fresh start now a).0.interval_status ≡ status_ok)
unfolding tick send_log
tick-reports ops w fresh start now a = (refl, refl)

-- Whatever log entries the agent writes between two heartbeats, the second sends one span, whose
-- status is the worst level among them, and the interval begins anew with "ok".
pub tick-worst :
    (ops : FloatOps) (w w' : Surroundings) (fresh fresh' : String) (start now now' : Time)
    (es : List Entry) (a : Agent)
    → let between = write_all es (tick ops w fresh start now a).0 in
      (span_statuses (tick ops w' fresh' start now' between).1 ≡ worst (levels es) ∷ [])
      × ((tick ops w' fresh' start now' between).0.interval_status ≡ status_ok)
tick-worst ops w w' fresh fresh' start now now' es a =
    let first = tick-reports ops w fresh start now a in
    let between = write_all es (tick ops w fresh start now a).0 in
    let second = tick-reports ops w' fresh' start now' between in
    (
      second.0 ∙ ap (λ s. s ∷ []) (write_all-raise es _ ∙ rw first.1 (raise_all-ok (levels es))),
      second.1,
    )
