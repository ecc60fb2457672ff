-- ===== src/Collector/Handler/Replies.antt =====
-- What each reply of the HTTP handlers says of the stream.
use mathlib.Core.Option
use vkr_public.Base.{
  String, ◌≡◌, refl, ◌⊎◌, inl, inr, Option, none, some, Bool, true, [], ◌∷◌, arith, Option-cases,
}
use vkr_public.Instant.{Time, TimeText}
use vkr_public.Json.{Json}
use vkr_public.Nats.{JetStream, subject_metrics, subject_logs, subject_spans}
use vkr_public.Http.{Body, Reply}
use vkr_public.Collector.Requests.{Payload, metric, log, span}
use vkr_public.Collector.Publisher.{publish, Publishes, publish-Publishes, Publishes-publish}
use vkr_public.Collector.Grpc.Delivery.{Grown, publish-Grown, GrownPrefix, publish-GrownPrefix}
use vkr_public.Collector.Handler.{
  validated, bind_metric, bind_log, bind_span, stamp_metric, stamp_log, default_status, bad_request,
  publish_failure, accepted_reply, answer, forward, receive_metrics, receive_logs, receive_spans,
}

module _ (clock : TimeText) {S : Type 0} (js : JetStream S) where
  -- 202: the value is published and is in the stream. 500: it is not published, and is there or the
  -- stream is unchanged.
  abbrev pub Answered : String → Payload → S → S × Reply Body → Type 0
  Answered subject v s (s', r) =
      ((r ≡ accepted_reply) × Grown clock js s s' subject (v ∷ []) × Publishes clock js subject v s)
      ⊎ ((r ≡ publish_failure)
          × GrownPrefix clock js s s' subject (v ∷ [])
          × (Publishes clock js subject v s → ⊥))

  answer-Answered :
      (subject : String) (v : Payload) (s : S)
      → Answered subject v s (answer (publish clock js s subject v))
  answer-Answered subject v s = elim (Option-cases (publish clock js s subject v).1) [
    | inl sent ↦
        rw (sent, answer)
          (inl (
            refl,
            publish-Grown clock js s subject v sent,
            publish-Publishes clock js subject v s sent,
          ))
    | inr (e, failed) ↦
        rw (failed, answer)
          (inr (
            refl,
            publish-GrownPrefix clock js s subject v [] failed,
            λ p. cc (failed, Publishes-publish clock js subject v s p),
          ))
  ]

  -- 400 without a change, exactly when the body does not bind.
  abbrev pub Received :
      {R : Type 0} → String → (R → Payload) → Option R → S → S × Reply Body → Type 0
  Received subject v none s result = result ≡ (s, bad_request)
  Received subject v (some r) s result = Answered subject (v r) s result

  forward-Received :
      {R : Type 0} (subject : String) (v : R → Payload) (o : Option R) (s : S)
      → Received subject v o s (forward clock js subject (Option.map v o) s)
  forward-Received subject v none s = refl
  forward-Received subject v (some r) s = answer-Answered subject (v r) s

  -- What becomes of the message that stamp_metric makes of the body.
  pub receive_metrics-Stamped :
      (now : Time) (body : Option Json) (s : S)
      → Received subject_metrics
          (λ r. metric (stamp_metric now r))
          (bind_metric clock body)
          s
          (receive_metrics clock js now body s)
  unfolding receive_metrics
  receive_metrics-Stamped now body s =
      forward-Received subject_metrics (λ r. metric (stamp_metric now r)) (bind_metric clock body) s

  -- POST /api/v1/logs answers 400 and leaves the stream alone when the body does not bind;
  -- otherwise it answers 202 with the one log entry, its missing timestamp filled in, at the end of
  -- the stream, or 500 with the stream unchanged or grown by that entry.
  pub receive_logs-Received :
      (now : Time) (body : Option Json) (s : S)
      → Received subject_logs
          (λ r. log (stamp_log now r))
          (bind_log clock body)
          s
          (receive_logs clock js now body s)
  unfolding receive_logs
  receive_logs-Received now body s =
      forward-Received subject_logs (λ r. log (stamp_log now r)) (bind_log clock body) s

  -- POST /api/v1/traces answers 400 and leaves the stream alone when the body does not bind;
  -- otherwise it answers 202 with the one span, its empty status made "ok", at the end of the
  -- stream, or 500 with the stream unchanged or grown by that span.
  pub receive_spans-Received :
      (body : Option Json) (s : S)
      → Received subject_spans
          (λ r. span (default_status r))
          (bind_span clock body)
          s
          (receive_spans clock js body s)
  unfolding receive_spans
  receive_spans-Received body s =
      forward-Received subject_spans (λ r. span (default_status r)) (bind_span clock body) s

  validated_complete :
      {A : Type 0} (complete : A → Bool) (o : Option A) {r : A}
      → Option.bind o (validated complete) ≡ some r
      → complete r ≡ true
  unfolding Option.bind
  validated_complete complete none h = cc
  validated_complete complete (some a) h = ground arith
