-- ===== src/Shutdown.antt =====
-- How the four processes end (the main functions of cmd/aggregator, cmd/collector, cmd/api and
-- cmd/agent).
mod Examples
use vkr_public.Base.{String, none, some, ◌<◌}
use vkr_public.Json.{Json}
use vkr_public.Startup.{running}
use vkr_public.Storage.Tables.{Tables}
use vkr_public.Lifecycle.{
  Crash, interrupted, waits, logs, signals, tracer, database, stream, http_server, grpc_server,
}
use vkr_public.Lifecycle.Release.{
  IsOrderly, crashed, required-crashed, interrupted-IsOrderly, opening-IsOrderly,
}
use vkr_public.Collector.Process.{CollectorCalls, start_collector, main_collector}
use vkr_public.Api.Process.{ApiCalls, start_api, main_api}

-- The HTTP server of the API, or the gRPC server of the collector, fails before its process stops it:
-- where the start succeeds, the process exits with the message and the error of the server, where it
-- fails, with its own, and nothing that the process opened is closed.
pub crashes-IsOrderly :
    (L : Type 0) {S C : Type 0} (getenv : String → String) (api : ApiCalls) (db : Tables)
    (collector : CollectorCalls) (found : S) (counters : C) (c : Crash)
    → c.after < 3
    → IsOrderly
        (crashed "server error" c.error (start_api getenv api db))
        (main_api getenv api (some c))
      × IsOrderly
          (crashed "grpc server error" c.error
            (start_collector {L = L} {S = S} {C = C} getenv collector found counters))
          (main_collector getenv collector none (some c))
unfolding start_api main_api start_collector main_collector interrupted
crashes-IsOrderly L getenv api db collector found counters c early = (
  opening-IsOrderly signals _ _ (
      required-crashed _ "otel setup" _ _ _ _ (
        opening-IsOrderly tracer _ _ (
          required-crashed _ "postgres connect" _ _ _ _ (
            opening-IsOrderly database _ _
              (interrupted-IsOrderly "server error" c http_server "shutting down api" early))))),
  opening-IsOrderly signals _ _ (
      required-crashed _ "otel setup" _ _ _ _ (
        opening-IsOrderly tracer _ _ (
          required-crashed _ "nats connect" _ _ _ _ (
            opening-IsOrderly stream _ _ (
              opening-IsOrderly http_server _ _ (
                required-crashed _ "grpc listen" _ _ _ _ (
                  interrupted-IsOrderly "grpc server error" c grpc_server "shutting down collector"
                    early))))))),
)
