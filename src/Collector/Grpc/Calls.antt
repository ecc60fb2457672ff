-- ===== src/Collector/Grpc/Calls.antt =====
-- The three methods of the gRPC server, on success and on failure.
use vkr_public.Base.{
  ℕ, String, ◌≡◌, refl, ◌⊎◌, inl, inr, none, Bool, true, false, List, [], ◌∷◌, Option-cases,
}
use vkr_public.Instant.{Time, TimeText}
use vkr_public.Nats.{JetStream, subject_metrics, subject_logs, subject_spans}
use vkr_public.Wire.{PbMetricPoint, PbLogEntry, PbTraceSpan, Metadata}
use vkr_public.Collector.Requests.{SpanRequest, Payload, span}
use vkr_public.Collector.Publisher.{publish, publish_failed}
use vkr_public.Collector.Grpc.{
  Response, accepted, internal, count32, traced, collector_span_id, extract_trace_meta,
  metric_messages, log_messages, span_messages, collector_span, publish_each, with_span,
  send_metrics, send_logs, send_spans,
}
use vkr_public.Collector.Grpc.Delivery.{
  Grown, Outcome, publish_each-Grown, publish_each-GrownPrefix, publish-Grown, respond-Outcome,
}

module _ (clock : TimeText) {S : Type 0} (js : JetStream S) where
  -- SendLogs that returns `accepted` has put every entry into the stream, in order, and reports how
  -- many there are as a uint32; when it returns an error, the stream has grown by the first entries
  -- up to some place and by nothing else.
  pub send_logs-Outcome :
      (now : ℕ → Time) (ls : List PbLogEntry) (s : S)
      → let r = send_logs clock js now ls s in
        Outcome clock js s r.0 subject_logs (log_messages now 0 ls) (count32 ls) r.1
  unfolding send_logs
  send_logs-Outcome now ls s =
      respond-Outcome clock js subject_logs (log_messages now 0 ls) (count32 ls) s

  -- SendSpans that returns `accepted` has put every span into the stream, in order, and reports how
  -- many there are as a uint32; when it returns an error, the stream has grown by the first spans up
  -- to some place and by nothing else.
  pub send_spans-Outcome :
      (start finish : ℕ → Time) (ss : List PbTraceSpan) (s : S)
      → let r = send_spans clock js start finish ss s in
        Outcome clock js s r.0 subject_spans (span_messages start finish 0 ss) (count32 ss) r.1
  unfolding send_spans
  send_spans-Outcome start finish ss s =
      respond-Outcome clock js subject_spans (span_messages start finish 0 ss) (count32 ss) s

  -- Either the stream stays, or it grows by the span.
  abbrev pub MaybeSpan : S → S → SpanRequest → Type 0
  MaybeSpan s s' sp =
      (js.stored s' ≡ js.stored s) ⊎ Grown clock js s s' subject_spans (span sp ∷ [])

  publish-MaybeSpan :
      (s : S) (sp : SpanRequest) → MaybeSpan s (publish clock js s subject_spans (span sp)).0 sp
  publish-MaybeSpan s sp = elim (Option-cases (publish clock js s subject_spans (span sp)).1) [
    | inl sent ↦ inr (publish-Grown clock js s subject_spans (span sp) sent)
    | inr (e, failed) ↦ elim (publish_failed clock js s subject_spans (span sp) failed) [
      | inl same ↦ inl same
      | inr (j, enc, added) ↦ inr ((subject_spans, j) ∷ [], (refl, enc, tt), added)
    ]
  ]

  -- What the response to SendMetrics says of the stream: after `accepted k` it holds all the metrics,
  -- and behind them at most the span of the batch, and no span where the batch is not traced.
  abbrev pub BatchOutcome : S → S → List Payload → ℕ → Bool → SpanRequest → Response → Type 0
  BatchOutcome s s' vs n b sp (accepted k) =
      (k ≡ n)
      × ((s₁ : S) × Grown clock js s s₁ subject_metrics vs
          × MaybeSpan s₁ s' sp
          × (b ≡ false → s₁ ≡ s'))
  BatchOutcome s s' vs n b sp (internal e) = Outcome clock js s s' subject_metrics vs n (internal e)

  with_span-BatchOutcome :
      (b : Bool) (vs : List Payload) (n : ℕ) (sp : SpanRequest) (s : S)
      → let r = with_span clock js b n sp (publish_each clock js subject_metrics vs s) in
        BatchOutcome s r.0 vs n b sp r.1
  with_span-BatchOutcome b vs n sp s =
      elim (Option-cases (publish_each clock js subject_metrics vs s).1) [
        | inl sent ↦ rw (sent, with_span) (by_trace b (publish_each-Grown clock js _ vs s sent))
        | inr (e, failed) ↦
            rw (failed, with_span) (publish_each-GrownPrefix clock js subject_metrics vs s failed)
      ]
    where
      s₁ : S
      s₁ = (publish_each clock js subject_metrics vs s).0

      by_trace :
          (b : Bool)
          → Grown clock js s s₁ subject_metrics vs
          → let r = with_span clock js b n sp (s₁, none) in BatchOutcome s r.0 vs n b sp r.1
      by_trace false g = (refl, (s₁, g, inl refl, λ _. refl))
      by_trace true g = (refl, (s₁, g, publish-MaybeSpan s₁ sp, λ h. cc))

  -- SendMetrics that returns `accepted` has put every metric into the stream, in order and with the
  -- trace identifier of the call, and behind them the span of the batch or nothing, and reports how
  -- many metrics there are as a uint32; it puts no span where the call has no trace identifier or
  -- the batch is empty. When it returns an error, the stream has grown by the first metrics up to
  -- some place, and by no span.
  pub send_metrics-BatchOutcome :
      (md : Metadata) (fresh : String) (start finish : Time) (now : ℕ → Time)
      (ms : List PbMetricPoint) (s : S)
      → let r = send_metrics clock js md fresh start finish now ms s in
        let (trace_id, parent) = extract_trace_meta md in
        let id = collector_span_id trace_id fresh ms in
        BatchOutcome s r.0
          (metric_messages trace_id id now 0 ms)
          (count32 ms)
          (traced trace_id ms)
          (collector_span trace_id id parent start finish ms)
          r.1
  unfolding send_metrics
  send_metrics-BatchOutcome md fresh start finish now ms s = with_span-BatchOutcome _ _ _ _ s
