-- ===== src/Api/Process.antt =====
-- The API process (cmd/api/main.go): its start, a run of its server, and all
-- that main does up to its end.
pub mod Servable
use vkr_public.Base.{ℕ, String, Option, none, List, [], ◌∷◌}
use vkr_public.Instant.{Time, TimeText}
use vkr_public.Storage.Tables.{Tables, Link}
use vkr_public.Storage.Services.{Collation}
use vkr_public.Storage.Connection.{PoolCalls, postgres_error}
use vkr_public.Startup.{Startup, running, must, Exporter, build_exporter, setup_error}
use vkr_public.Lifecycle.{
  signals, tracer, database, http_server, waits, logs, Main, body, opening, required, Crash,
  interrupted,
}
use vkr_public.Config.{load_api}
use vkr_public.Api.Thresholds.{Store, new_threshold_store}
use vkr_public.Api.Handler.{Atoi}
use vkr_public.Api.Router.{Request, Answer, serve_api}

pub record Api : Type 0 where
  pub exporter : Exporter
  pub addr : String
  pub api_key : String
  pub store : Store

-- What the libraries answer while the process starts.
pub record ApiCalls : Type 0 where
  pub resource : Option String
  pub make_exporter : Exporter → Option String
  pub pool : PoolCalls
  pub settings_link : Link

-- The API runs no migrations.
unfoldable pub start_api : (String → String) → ApiCalls → Tables → Startup Api
unfolding load_api setup_error postgres_error new_threshold_store
start_api getenv calls db =
    must (setup_error getenv calls.resource calls.make_exporter) "otel setup" (
      must (postgres_error "" calls.pool) "postgres connect" (
        running (record {
          exporter = build_exporter getenv;
          addr = (load_api getenv).http_addr;
          api_key = (load_api getenv).api_key;
          store = new_threshold_store calls.settings_link db;
        })))

-- The server runs in a goroutine, and its error ends the process. What it logs when it starts is left
-- out.
unfoldable pub main_api : (String → String) → ApiCalls → (server : Option Crash) → Main
unfolding setup_error postgres_error
main_api getenv calls server = opening signals (
    required (setup_error getenv calls.resource calls.make_exporter) "otel setup" (
      opening tracer (
        required (postgres_error "" calls.pool) "postgres connect" (
          opening database (
            interrupted "server error" server
              (opening http_server (body (waits ∷ logs "shutting down api" ∷ []))))))))

-- A request, or a change that the aggregator makes to the tables.
pub data ApiEvent : Type 0 where
  asked : Link → Time → (header : String) → Request → ApiEvent
  tables_changed : Tables → ApiEvent

module _ (clock : TimeText) (atoi : Atoi) (larger_text : Collation) (api_key : String) where
  abbrev pub api_step : ApiEvent → Store → Store
  api_step (asked link now header request) s =
      (serve_api clock atoi larger_text api_key link now header request s).0
  api_step (tables_changed db) s = record s { db = db }

  unfoldable pub run_api : List ApiEvent → Store → Store
  run_api [] s = s
  run_api (e ∷ es) s = run_api es (api_step e s)
