-- ===== src/Collector/Process.antt =====
-- The collector process (cmd/collector/main.go): its start, with the HTTP server and the gRPC server
-- that publish to one stream, and all that main does up to its end.
use vkr_public.Base.{String, Option, [], ◌∷◌}
use vkr_public.Nats.Connection.{ConnectCalls, nats_error}
use vkr_public.Startup.{Startup, running, must, Exporter, build_exporter, setup_error}
use vkr_public.Config.{load_collector}
use vkr_public.Lifecycle.{
  signals, tracer, stream, http_server, grpc_server, waits, logs, Main, body, opening, required,
  Crash, interrupted,
}
use vkr_public.Collector.Server.{Server}

-- What the libraries answer while the process starts.
pub record CollectorCalls : Type 0 where
  pub resource : Option String
  pub make_exporter : Exporter → Option String
  pub nats : ConnectCalls
  pub listen : Option String

pub record Collector (L S C : Type 0) : Type 0 where
  pub exporter : Exporter
  pub http_addr : String
  pub grpc_addr : String
  pub server : Server L S C

-- The stream is as the connection finds it, and the counters are new.
unfoldable pub start_collector :
    {L S C : Type 0} → (String → String) → CollectorCalls → S → C → Startup (Collector L S C)
unfolding load_collector setup_error nats_error
start_collector getenv calls found counters =
    must (setup_error getenv calls.resource calls.make_exporter) "otel setup" (
      must (nats_error calls.nats) "nats connect" (
        must calls.listen "grpc listen" (
          running (record {
            exporter = build_exporter getenv;
            http_addr = (load_collector getenv).http_addr;
            grpc_addr = (load_collector getenv).grpc_addr;
            server = record { clients = []; stream = found; requests = counters };
          }))))

-- The servers run in goroutines, and one that stops with an error ends the process. The gRPC server is
-- stopped before the HTTP server. What the goroutines log when they start is left out.
unfoldable pub main_collector :
    (String → String) → CollectorCalls → (http grpc : Option Crash) → Main
unfolding setup_error nats_error
main_collector getenv calls http grpc = opening signals (
    required (setup_error getenv calls.resource calls.make_exporter) "otel setup" (
      opening tracer (
        required (nats_error calls.nats) "nats connect" (
          opening stream (
            interrupted "http server error" http (
              opening http_server (
                required calls.listen "grpc listen" (
                  interrupted "grpc server error" grpc (
                    opening grpc_server
                      (body (waits ∷ logs "shutting down collector" ∷ [])))))))))))
