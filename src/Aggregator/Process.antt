-- ===== src/Aggregator/Process.antt =====
-- The aggregator process (cmd/aggregator/main.go): its start, its health server and the state that its
-- consumers begin with, and all that main does up to its end.
pub mod Health
use vkr_public.Base.{ℕ, String, Bool, true, Option, List, [], ◌∷◌, if◌then◌else◌}
use vkr_public.Json.{Json}
use vkr_public.Storage.Tables.{Tables}
use vkr_public.Storage.Connection.{PoolCalls, postgres_error}
use vkr_public.Nats.Connection.{ConnectCalls, nats_error}
use vkr_public.Startup.{Startup, running, must, Exporter, build_exporter, setup_error}
use vkr_public.Lifecycle.{
  signals, tracer, database, stream, health_server, logs, runs, Main, body, opening, required,
}
use vkr_public.Config.{load_aggregator}
use vkr_public.Aggregator.Consumer.{Counters}
use vkr_public.Aggregator.System.{System}

-- What the libraries answer while the process starts.
pub record AggregatorCalls : Type 0 where
  pub resource : Option String
  pub make_exporter : Exporter → Option String
  pub pool : PoolCalls
  pub nats : ConnectCalls

pub record Aggregator : Type 0 where
  pub exporter : Exporter
  pub health_addr : String
  pub ready : Bool
  pub system : System

abbrev pub no_counts : Counters
no_counts = record {
  decode_metric_errors = 0;
  insert_metric_errors = 0;
  insert_log_errors = 0;
  insert_span_errors = 0;
  metrics_stored = 0;
}

-- What the server keeps for the consumers, and the tables, are there before the process.
unfoldable pub start_aggregator :
    (String → String)
    → AggregatorCalls
    → (of_metrics of_logs of_spans : List (Option Json)) → Tables
    → Startup Aggregator
unfolding load_aggregator setup_error postgres_error nats_error
start_aggregator getenv calls of_metrics of_logs of_spans db =
    must (setup_error getenv calls.resource calls.make_exporter) "otel setup" (
      must (postgres_error "migrations" calls.pool) "postgres connect" (
        must (nats_error calls.nats) "nats connect" (
          running (record {
            exporter = build_exporter getenv;
            health_addr = (load_aggregator getenv).health_addr;
            ready = true;
            system = record {
              kept_metrics = of_metrics;
              kept_logs = of_logs;
              kept_spans = of_spans;
              state = record { db = db; counters = no_counts };
            };
          }))))

-- The status of /health, which has no body until the flag is set.
unfoldable pub health_status : Bool → ℕ
health_status ready = if ready then 200 else 503

-- The consumers run until Run returns; the health server's errors are only logged.
unfoldable pub main_aggregator : (String → String) → AggregatorCalls → Main
unfolding setup_error postgres_error nats_error
main_aggregator getenv calls = opening signals (
    required (setup_error getenv calls.resource calls.make_exporter) "otel setup" (
      opening tracer (
        required (postgres_error "migrations" calls.pool) "postgres connect" (
          opening database (
            required (nats_error calls.nats) "nats connect" (
              opening stream (
                opening health_server (
                  body (
                    logs "aggregator started, consuming telemetry"
                    ∷ runs "consumers"
                    ∷ logs "aggregator stopped"
                    ∷ [])))))))))
