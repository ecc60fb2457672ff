-- ===== src/Aggregator/System/Drain.antt =====
-- The consumers come to an end: once the database answers and the answers arrive, as many deliveries
-- as there are messages empty what the server keeps. Of spans this is false, since a span whose
-- identifier is in the table is never acknowledged.
use vkr_public.Base.{
  ℕ, suc, ◌≤◌, ◌≡◌, ◌≢◌, refl, true, Option, List, [], ◌∷◌, arith, length, All, nil_of_length,
}
use vkr_public.Instant.{TimeText}
use vkr_public.Json.{Json}
use vkr_public.Nats.{ack}
use vkr_public.Nats.Subscription.{deliver, settled}
use vkr_public.Storage.Tables.{up}
use vkr_public.Aggregator.Consumer.{State, Surroundings}
use vkr_public.Aggregator.Consumer.Retry.{consume_metric-up, consume_log-up}
use vkr_public.Aggregator.System.{
  Signal, metrics, logs, spans, System, kept, put, Event, delivered, handle, play, run,
}

-- The server delivers its first message in these surroundings, and the answer arrives.
abbrev pub deliveries : Signal → List Surroundings → List Event
deliveries signal [] = []
deliveries signal (w ∷ ws) = delivered signal 0 w true ∷ deliveries signal ws

module _ (clock : TimeText) where
  handle-up :
      (signal : Signal) (w : Surroundings) (m : Option Json) (s : State)
      → signal ≢ spans
      → w.link ≡ up
      → (handle clock signal w m s).1 ≡ ack
  handle-up metrics w m s other works = consume_metric-up clock w m s works
  handle-up logs w m s other works = consume_log-up clock w.link m s works
  handle-up spans w m s other works = absurd (other refl)

  -- One such delivery leaves one message less.
  deliver_first :
      (signal : Signal) (w : Surroundings) (m : Option Json) (ms : List (Option Json)) (s : State)
      → signal ≢ spans
      → w.link ≡ up
      → (deliver (handle clock signal) 0 w true (m ∷ ms, s)).0 ≡ ms
  unfolding deliver
  deliver_first signal w m ms s other works = rw (handle-up signal w m s other works, settled)

  first_shorter :
      (n : ℕ) (signal : Signal) (w : Surroundings) (ms : List (Option Json)) (s : State)
      → signal ≢ spans
      → w.link ≡ up
      → length ms ≤ suc n
      → length (deliver (handle clock signal) 0 w true (ms, s)).0 ≤ n
  unfolding deliver
  first_shorter n signal w [] s other works short = omega arith
  first_shorter n signal w (m ∷ ms) s other works short =
      rw (deliver_first signal w m ms s other works) (omega arith)

  kept-put :
      (signal : Signal) (sys : System) (r : List (Option Json) × State)
      → kept signal (put signal sys r) ≡ r.0
  kept-put metrics sys r = refl
  kept-put logs sys r = refl
  kept-put spans sys r = refl

  play_first :
      (n : ℕ) (signal : Signal) (w : Surroundings) (sys : System)
      → signal ≢ spans
      → w.link ≡ up
      → length (kept signal sys) ≤ suc n
      → length (kept signal (play clock (delivered signal 0 w true) sys)) ≤ n
  play_first n signal w sys other works short =
      rw (kept-put signal sys)
        (first_shorter n signal w (kept signal sys) sys.state other works short)

  -- From any state, as many deliveries of metrics or of logs as the server keeps messages, each with
  -- a database that executes the statement and an answer that arrives, leave no message.
  pub run-deliveries_empty :
      (signal : Signal) (ws : List Surroundings) (sys : System)
      → signal ≢ spans
      → All (λ w. w.link ≡ up) ws
      → length (kept signal sys) ≤ length ws
      → kept signal (run clock (deliveries signal ws) sys) ≡ []
  unfolding run
  run-deliveries_empty signal [] sys other works short = nil_of_length (kept signal sys) short
  run-deliveries_empty signal (w ∷ ws) sys other (work, works) short =
      run-deliveries_empty signal ws _ other works
        (play_first (length ws) signal w sys other work short)
