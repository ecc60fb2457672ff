-- ===== src/Aggregator/Process/Health.antt =====
-- What /health says of a consumer that does not run (cmd/aggregator/main.go: startHealthServer).
use vkr_public.Base.{◌≡◌, refl, String, true, some, List, ◌∷◌, ◌++◌, Option}
use vkr_public.Instant.{TimeText}
use vkr_public.Json.{Json}
use vkr_public.Storage.Tables.{Tables}
use vkr_public.Startup.{running, must-running}
use vkr_public.Nats.Connection.{ConsumerCalls, subscribe_error}
use vkr_public.Aggregator.System.{Signal, metrics, logs, spans, kept}
use vkr_public.Aggregator.System.Running.{RunEvent, subscribes, start_run, run_on, starting, phase}
use vkr_public.Aggregator.System.Starved.{Starved, own_published, failed_subscription-Starved}
use vkr_public.Aggregator.Process.{Aggregator, AggregatorCalls, start_aggregator, health_status}

phase-start_run :
    (signal : Signal) (a : Aggregator) → phase signal (start_run a.system).phases ≡ starting
phase-start_run metrics a = refl
phase-start_run logs a = refl
phase-start_run spans a = refl

ready_of : (x a : Aggregator) → running x ≡ running a → x.ready ≡ true → a.ready ≡ true
ready_of x a h r = cc

start_aggregator-ready :
    (getenv : String → String) (calls : AggregatorCalls) (m l s : List (Option Json)) (db : Tables)
    (a : Aggregator)
    → start_aggregator getenv calls m l s db ≡ running a
    → a.ready ≡ true
unfolding start_aggregator
start_aggregator-ready getenv calls m l s db a h =
    ready_of _ a
      (must-running _ "nats connect" _ a
        (must-running _ "postgres connect" _ a (must-running _ "otel setup" _ a h)))
      refl

-- An aggregator that has started, where the subscription of a consumer fails, whatever is published,
-- delivered and cancelled after it: /health answers 200, the consumer has ended, and the server keeps
-- all that it kept for it and all that is published for it.
pub failed_subscription-healthy :
    (clock : TimeText) (getenv : String → String) (calls : AggregatorCalls)
    (m l s : List (Option Json)) (db : Tables) (a : Aggregator) (signal : Signal)
    (sub : ConsumerCalls) (e : String) (events : List RunEvent)
    → start_aggregator getenv calls m l s db ≡ running a
    → subscribe_error sub ≡ some e
    → (health_status a.ready ≡ 200)
      × Starved signal
          (kept signal a.system ++ own_published signal events)
          (run_on clock (subscribes signal sub ∷ events) (start_run a.system))
unfolding health_status
failed_subscription-healthy clock getenv calls m l s db a signal sub e events started failed = (
  rw (start_aggregator-ready getenv calls m l s db a started) refl,
  failed_subscription-Starved clock signal sub e events (start_run a.system)
      (phase-start_run signal a) failed,
)
