-- ===== src/Aggregator/Examples/Runs.antt =====
-- Aggregators whose subscriptions fail.
use mathlib.Core.List.{Mem}
use vkr_public.Base.{◌⊎◌, ◌≡◌, refl, String, true, none, some, List, [], ◌∷◌, ◌++◌}
use vkr_public.Nats.{subject_logs, subject_metrics}
use vkr_public.Nats.Connection.{ConsumerCalls, subscribe_error}
use vkr_public.Startup.{stdout, running}
use vkr_public.Storage.Connection.{applied}
use vkr_public.Aggregator.System.{System, Signal, metrics, logs, spans, kept, run}
use vkr_public.Aggregator.System.Running.{
  RunEvent, returned, subscribes, publishes, takes, cancelled, stops, start_run, run_on,
}
use vkr_public.Aggregator.System.Starved.{Starved, own_published}
use vkr_public.Aggregator.System.Runs.{run_on-returned}
use vkr_public.Aggregator.Process.{Aggregator, AggregatorCalls, start_aggregator, health_status}
use vkr_public.Aggregator.Process.Health.{failed_subscription-healthy}
use vkr_public.Aggregator.Examples.{empty, calm}
use vkr_public.Fixtures.{tallies}

abbrev good : ConsumerCalls
good = record { create_consumer = none; consume = none }

abbrev bad : ConsumerCalls
bad = record { create_consumer = some "timeout"; consume = none }

abbrev system : System
system = record { kept_metrics = []; kept_logs = []; kept_spans = []; state = empty }

-- The logs have no consumer.
abbrev events : List RunEvent
events =
    subscribes metrics good
    ∷ publishes subject_logs none
    ∷ publishes subject_metrics none
    ∷ takes logs 0 calm true
    ∷ takes metrics 0 calm true
    ∷ cancelled
    ∷ stops metrics
    ∷ []

events_test :
    (run_on tallies (subscribes logs bad ∷ events) (start_run system)).system.kept_logs ≡ none ∷ []
unfolding run_on subscribe_error run
events_test = refl

abbrev calls : AggregatorCalls
calls = record {
  resource = none;
  make_exporter = λ e. none;
  pool = record { new_pool = none; ping = none; new_migrate = none; up = applied };
  nats = record { dial = none; jetstream = none; create_stream = none };
}

abbrev unset : String → String
unset key = ""

abbrev aggregator : Aggregator
aggregator = record { exporter = stdout; health_addr = ":8082"; ready = true; system = system }

aggregator_starts : start_aggregator unset calls [] [] [] empty.db ≡ running aggregator
unfolding start_aggregator
aggregator_starts = refl

bad_fails : subscribe_error bad ≡ some "create consumer: timeout"
unfolding subscribe_error
bad_fails = refl

failed_subscription-healthy_example :
    (health_status true ≡ 200)
    × Starved logs
        (kept logs system ++ own_published logs events)
        (run_on tallies (subscribes logs bad ∷ events) (start_run system))
failed_subscription-healthy_example =
    failed_subscription-healthy tallies unset calls [] [] [] empty.db aggregator logs bad
      "create consumer: timeout" events aggregator_starts bad_fails

-- No subscription comes about.
abbrev failures : List RunEvent
failures = subscribes logs bad ∷ subscribes metrics bad ∷ subscribes spans bad ∷ []

failures-returned : returned (run_on tallies failures (start_run system)) ≡ true
unfolding run_on subscribe_error
failures-returned = refl

run_on-returned_example :
    ((run_on tallies failures (start_run system)).done ≡ true)
    ⊎ ((signal : Signal)
        → (e : String) × Mem (signal, e) (run_on tallies failures (start_run system)).exits)
run_on-returned_example = run_on-returned tallies failures system failures-returned
