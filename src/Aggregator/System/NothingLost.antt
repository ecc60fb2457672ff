-- ===== src/Aggregator/System/NothingLost.antt =====
-- No message is lost between the stream and the tables.
use mathlib.Core.List.{Mem, mem-append_right, mem-cons_self}
use vkr_public.Base.{
  ℕ, ◌≡◌, refl, ◌⊎◌, inl, inr, String, Bool, Option, none, some, List, [], ◌∷◌, ◌==◌, Bool-cases,
}
use vkr_public.Instant.{TimeText}
use vkr_public.Json.{Json}
use vkr_public.Nats.{ack}
use vkr_public.Nats.Subscription.{
  IsKept, IsKept-append_left, deliver, deliver-IsKept, deliver-keeps,
}
use vkr_public.Storage.Tables.{Tables, metric_row, log_row, span_row}
use vkr_public.Aggregator.Messages.{
  MetricMsg, LogMsg, SpanMsg, decode_metric, decode_log, decode_span,
}
use vkr_public.Aggregator.Consumer.{State, Surroundings, decoded, point_of, entry_of, span_of}
use vkr_public.Aggregator.Consumer.Steps.{Step, Step-keeps, metric_step, log_step, span_step}
use vkr_public.Aggregator.Consumer.Growth.{Grows, Mem-Grown, Keeps_of_Grows}
use vkr_public.Aggregator.Consumer.Retry.{
  consume_metric-MetricDelivered, consume_log-LogDelivered, consume_span-SpanDelivered,
}
use vkr_public.Aggregator.System.{
  Signal, metrics, logs, spans, System, kept, put, arrived, subject_of, arrive, Event, published,
  delivered, handle, play, run,
}

-- A row of the message is in its table.
abbrev pub HasMetric : MetricMsg → Tables → Type 0
HasMetric msg db = (id : ℕ) × Mem (metric_row id (point_of msg)) db.metrics

abbrev pub HasLog : LogMsg → Tables → Type 0
HasLog msg db = (id : ℕ) × Mem (log_row id (entry_of msg)) db.logs

abbrev pub HasSpan : SpanMsg → Tables → Type 0
HasSpan msg db = (id : ℕ) × Mem (span_row id (span_of msg)) db.spans

-- The message is done with: it does not decode, or its row is stored.
abbrev pub IsDone : TimeText → Signal → Option Json → Tables → Type 0
IsDone clock metrics m db =
    (decoded (decode_metric clock) m ≡ none)
    ⊎ ((msg : MetricMsg) × (decoded (decode_metric clock) m ≡ some msg) × HasMetric msg db)
IsDone clock logs m db =
    (decoded (decode_log clock) m ≡ none)
    ⊎ ((msg : LogMsg) × (decoded (decode_log clock) m ≡ some msg) × HasLog msg db)
IsDone clock spans m db =
    (decoded (decode_span clock) m ≡ none)
    ⊎ ((msg : SpanMsg) × (decoded (decode_span clock) m ≡ some msg) × HasSpan msg db)

IsDone-Grows :
    (clock : TimeText) (signal : Signal) (m : Option Json) (db db' : Tables)
    → Grows db db'
    → IsDone clock signal m db
    → IsDone clock signal m db'
IsDone-Grows clock metrics m db db' g (inl bad) = inl bad
IsDone-Grows clock metrics m db db' g (inr (msg, e, (id, h))) = inr (msg, e, (id, Mem-Grown g.0 h))
IsDone-Grows clock logs m db db' g (inl bad) = inl bad
IsDone-Grows clock logs m db db' g (inr (msg, e, (id, h))) = inr (msg, e, (id, Mem-Grown g.1 h))
IsDone-Grows clock spans m db db' g (inl bad) = inl bad
IsDone-Grows clock spans m db db' g (inr (msg, e, (id, h))) = inr (msg, e, (id, Mem-Grown g.2 h))

handle-IsDone :
    (clock : TimeText) (signal : Signal) (w : Surroundings) (m : Option Json) (s : State)
    → (handle clock signal w m s).1 ≡ ack
    → IsDone clock signal m (handle clock signal w m s).0.db
handle-IsDone clock metrics w m s acked = elim (consume_metric-MetricDelivered clock w m s) [
  | inl dropped ↦ inl dropped.0
  | inr (msg, good, inl done) ↦
      inr (msg, good, (s.db.next_metric, rw (done.1) (mem-append_right s.db.metrics mem-cons_self)))
  | inr (msg, good, inr failed) ↦ cc (acked, failed.0)
]
handle-IsDone clock logs w m s acked = elim (consume_log-LogDelivered clock w.link m s) [
  | inl dropped ↦ inl dropped.0
  | inr (msg, good, inl done) ↦
      inr (msg, good, (s.db.next_log, rw (done.1) (mem-append_right s.db.logs mem-cons_self)))
  | inr (msg, good, inr failed) ↦ cc (acked, failed.0)
]
handle-IsDone clock spans w m s acked = elim (consume_span-SpanDelivered clock w.link m s) [
  | inl dropped ↦ inl dropped.0
  | inr (msg, good, inl done) ↦
      inr (msg, good, (s.db.next_span, rw (done.2) (mem-append_right s.db.spans mem-cons_self)))
  | inr (msg, good, inr failed) ↦ cc (acked, failed.0)
]

module _ (clock : TimeText) where
  handle-Step :
      (signal : Signal) (w : Surroundings) (m : Option Json) (s : State)
      → Step clock s (handle clock signal w m s).0
  handle-Step metrics w m s = metric_step w m
  handle-Step logs w m s = log_step w.link m
  handle-Step spans w m s = span_step w.link m

  handle-keeps :
      (signal other : Signal) (n : Option Json) (w : Surroundings) (m : Option Json) (s : State)
      → IsDone clock signal n s.db
      → IsDone clock signal n (handle clock other w m s).0.db
  handle-keeps signal other n w m s =
      Step-keeps (IsDone clock signal n) (Keeps_of_Grows _ (IsDone-Grows clock signal n))
        (handle-Step other w m s)

  pub put-state :
      (signal : Signal) (sys : System) (r : List (Option Json) × State)
      → (put signal sys r).state ≡ r.1
  put-state metrics sys r = refl
  put-state logs sys r = refl
  put-state spans sys r = refl

  pub put-kept :
      (signal other : Signal) (sys : System) (r : List (Option Json) × State)
      → ((signal ≡ other) × (kept signal (put other sys r) ≡ r.0))
        ⊎ (kept signal (put other sys r) ≡ kept signal sys)
  put-kept metrics metrics sys r = inl (refl, refl)
  put-kept logs logs sys r = inl (refl, refl)
  put-kept spans spans sys r = inl (refl, refl)
  put-kept metrics logs sys r = inr refl
  put-kept metrics spans sys r = inr refl
  put-kept logs metrics sys r = inr refl
  put-kept logs spans sys r = inr refl
  put-kept spans metrics sys r = inr refl
  put-kept spans logs sys r = inr refl

  play-IsDone :
      (signal : Signal) (n : Option Json) (e : Event) (sys : System)
      → IsDone clock signal n sys.state.db
      → IsDone clock signal n (play clock e sys).state.db
  unfolding arrive
  play-IsDone signal n (published subject m) sys h = h
  play-IsDone signal n (delivered other k w arrives) sys h = rw (put-state other sys) (
      deliver-keeps (handle clock other) (λ s. IsDone clock signal n s.db)
        (handle-keeps signal other n) k w arrives _ sys.state h)

  pub kept-arrive :
      (signal : Signal) (subject : String) (m : Option Json) (sys : System)
      → kept signal (arrive subject m sys) ≡ arrived subject signal m sys
  unfolding arrive
  kept-arrive metrics subject m sys = refl
  kept-arrive logs subject m sys = refl
  kept-arrive spans subject m sys = refl

  arrive-IsKept :
      (signal : Signal) (n : Option Json) (subject : String) (m : Option Json) (sys : System)
      → IsKept n (kept signal sys)
      → IsKept n (kept signal (arrive subject m sys))
  arrive-IsKept signal n subject m sys h =
      rw (kept-arrive signal subject m sys) (elim (Bool-cases (subject == subject_of signal)) [
        | inl own ↦ rw own (IsKept-append_left n (kept signal sys) (m ∷ []) h)
        | inr foreign ↦ rw foreign h
      ])

  own-IsKept :
      (signal : Signal) (n : Option Json) (k : ℕ) (w : Surroundings) (arrives : Bool) (sys : System)
      → IsKept n (kept signal sys)
      → let after = deliver (handle clock signal) k w arrives (kept signal sys, sys.state) in
        IsKept n after.0 ⊎ IsDone clock signal n after.1.db
  own-IsKept signal n k w arrives sys h =
      elim (deliver-IsKept (handle clock signal) n k w arrives (kept signal sys) sys.state h) [
        | inl stays ↦ inl stays
        | inr (acked, same) ↦ inr (rw same (handle-IsDone clock signal w n sys.state acked))
      ]

  play-IsKept :
      (signal : Signal) (n : Option Json) (e : Event) (sys : System)
      → IsKept n (kept signal sys)
      → IsKept n (kept signal (play clock e sys))
        ⊎ IsDone clock signal n (play clock e sys).state.db
  play-IsKept signal n (published subject m) sys h = inl (arrive-IsKept signal n subject m sys h)
  play-IsKept signal n (delivered other k w arrives) sys h =
      let after = deliver (handle clock other) k w arrives (kept other sys, sys.state) in
      elim (put-kept signal other sys after) [
        | inl (own, now) ↦
            rw (now, put-state other sys, ← own) (own-IsKept signal n k w arrives sys h)
        | inr same ↦ inl (rw same h)
      ]

  run-IsDone :
      (signal : Signal) (m : Option Json) (events : List Event) (sys : System)
      → IsDone clock signal m sys.state.db
      → IsDone clock signal m (run clock events sys).state.db
  unfolding run
  run-IsDone signal m [] sys h = h
  run-IsDone signal m (e ∷ es) sys h =
      run-IsDone signal m es (play clock e sys) (play-IsDone signal m e sys h)

  -- In every run of publications and deliveries, in any order and with any failures and lost answers,
  -- a message that the server keeps for a consumer stays kept for it, or does not decode, or has its
  -- row in the table.
  pub run-IsKept :
      (signal : Signal) (m : Option Json) (events : List Event) (sys : System)
      → IsKept m (kept signal sys)
      → IsKept m (kept signal (run clock events sys))
        ⊎ IsDone clock signal m (run clock events sys).state.db
  unfolding run
  run-IsKept signal m [] sys h = inl h
  run-IsKept signal m (e ∷ es) sys h = elim (play-IsKept signal m e sys h) [
    | inl stays ↦ run-IsKept signal m es (play clock e sys) stays
    | inr done ↦ inr (run-IsDone signal m es (play clock e sys) done)
  ]
