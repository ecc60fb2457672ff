-- ===== src/Api/Process/Servable.antt =====
-- The thresholds that the API serves, from its start on.
use vkr_public.Base.{String, ◌≡◌, inl, inr, List, [], ◌∷◌}
use vkr_public.Instant.{TimeText}
use vkr_public.Storage.Tables.{Tables}
use vkr_public.Storage.Services.{Collation}
use vkr_public.Startup.{running, must-running, setup_error}
use vkr_public.Storage.Connection.{postgres_error}
use vkr_public.Agent.Thresholds.{Thresholds, fetch}
use vkr_public.Api.Thresholds.{Store, new_threshold_store, handle_get, response_of}
use vkr_public.Api.Thresholds.Durable.{
  IsServable, new_threshold_store-IsServable, handle_set-IsServable, fetch-handle_get,
}
use vkr_public.Api.Handler.{Atoi}
use vkr_public.Api.Router.Stores.{serve_api_store}
use vkr_public.Api.Process.{
  Api, ApiCalls, start_api, ApiEvent, asked, tables_changed, api_step, run_api,
}

start_api-store :
    (getenv : String → String) (calls : ApiCalls) (db : Tables) (api : Api)
    → start_api getenv calls db ≡ running api
    → api.store ≡ new_threshold_store calls.settings_link db
unfolding start_api
start_api-store getenv calls db api started =
    let connected =
      must-running (setup_error getenv calls.resource calls.make_exporter) "otel setup" _ api
        started in
    let h = must-running (postgres_error "" calls.pool) "postgres connect" _ api connected in cc h

module _ (clock : TimeText) (atoi : Atoi) (larger_text : Collation) (api_key : String) where
  api_step-IsServable :
      (e : ApiEvent) (s : Store)
      → IsServable s.cfg
      → IsServable (api_step clock atoi larger_text api_key e s).cfg
  api_step-IsServable (tables_changed db) s v = v
  api_step-IsServable (asked link now header request) s v =
      elim (serve_api_store clock atoi larger_text api_key link now header request s) [
        | inl same ↦ rw same v
        | inr (body, set) ↦ rw set (handle_set-IsServable link body s v)
      ]

  run_api-IsServable :
      (es : List ApiEvent) (s : Store)
      → IsServable s.cfg
      → IsServable (run_api clock atoi larger_text api_key es s).cfg
  unfolding run_api
  run_api-IsServable [] s v = v
  run_api-IsServable (e ∷ es) s v =
      run_api-IsServable es (api_step clock atoi larger_text api_key e s)
        (api_step-IsServable e s v)

-- Whatever the database holds when the API starts, whatever is asked of it afterwards, in any order
-- and with any failures, and however the tables change, an agent that fetches the thresholds takes
-- exactly those of the store.
pub start_api-fetch :
    (clock : TimeText) (atoi : Atoi) (larger_text : Collation) (getenv : String → String)
    (calls : ApiCalls) (db : Tables) (api : Api) (es : List ApiEvent) (t : Thresholds)
    → start_api getenv calls db ≡ running api
    → let s = run_api clock atoi larger_text api.api_key es api.store in
      fetch (response_of (handle_get s)) t
      ≡ record { cpu = s.cfg.cpu_warn; mem = s.cfg.mem_warn; disk = s.cfg.disk_warn }
start_api-fetch clock atoi larger_text getenv calls db api es t started =
    fetch-handle_get (run_api clock atoi larger_text api.api_key es api.store) t (
      run_api-IsServable clock atoi larger_text api.api_key es api.store (
        rw (start_api-store getenv calls db api started)
          (new_threshold_store-IsServable calls.settings_link db)))
