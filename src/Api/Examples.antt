-- ===== src/Api/Examples.antt =====
-- The API at concrete requests.
mod Streams
mod Counts
use mathlib.Core.Option
use vkr_public.Base.{List, ◌≡◌, refl, ◌⊎◌, Option, some, []}
use vkr_public.Float64.{one_f, zero_f, ninety_f, is_finite, ltf}
use vkr_public.Json.{Json, struct_into, members_into, float_into}
use vkr_public.Warn.{encode_warn, warn_is_finite, all_positive, decode_warn}
use vkr_public.Storage.Select.Limit.{IsLatest}
use vkr_public.Storage.Tables.{Tables, up, lost, refused}
use vkr_public.Storage.Queries.{in_range, is_log_of}
use vkr_public.Agent.Thresholds.{new_thresholds, fetch}
use vkr_public.Api.Thresholds.{
  Store, new_threshold_store, handle_get, handle_set, response_of, default_warn,
}
use vkr_public.Api.Thresholds.Accepted.{WasSet, WasRefused, handle_set_outcome}
use vkr_public.Api.Thresholds.Durable.{IsServable, new_threshold_store-handle_set}
use vkr_public.Api.Handler.{Atoi, limit_of, parse_time_range, get_metrics, get_logs}
use vkr_public.Api.Handler.Replies.{Answers, get_metrics-Answers, get_logs-Answers}
use mathlib.Core.List.{mem-cons_self}
use vkr_public.Startup.{stdout, running}
use vkr_public.Storage.Connection.{no_change}
use vkr_public.Api.Process.{Api, ApiCalls, start_api, ApiEvent, asked, tables_changed, run_api}
use vkr_public.Api.Process.Servable.{start_api-fetch}
use vkr_public.Base.{◌≢◌, ◌∷◌, ◌*◌, none, arith, String}
use vkr_public.Instant.{second}
use vkr_public.Storage.Tables.{MetricPoint}
use vkr_public.Storage.Queries.{query_metrics}
use vkr_public.Api.Stream.{Tick, push_updates}
use vkr_public.Api.Stream.Windows.{Sent, push_updates-Sent}
use vkr_public.Api.Router.{put_thresholds, serve_api}
use vkr_public.Api.Router.Guard.{Denied, serve_api-Denied}
use vkr_public.Api.Handler.{get_trace}
use vkr_public.Api.Handler.Replies.{Traced, get_trace-Traced}
use vkr_public.Fixtures.{byte_order, tallies, noon, count_letters}

abbrev empty : Tables
empty = record {
  metrics = [];
  logs = [];
  spans = [];
  settings = [];
  next_metric = 1;
  next_log = 1;
  next_span = 1;
}

abbrev started : Store
started = record { cfg = default_warn; db = empty }

abbrev body : Option Json
body = some (encode_warn (record { cpu_warn = ninety_f; mem_warn = one_f; disk_warn = ninety_f }))

abbrev low : Option Json
low = some (encode_warn (record { cpu_warn = zero_f; mem_warn = one_f; disk_warn = ninety_f }))

handle_set_outcome_example :
    WasSet low (handle_set up low started) ⊎ WasRefused low started (handle_set up low started)
handle_set_outcome_example = handle_set_outcome up low started

started-IsServable : IsServable started.cfg
unfolding warn_is_finite all_positive is_finite ltf
started-IsServable = record { finite = refl; positive = refl }

body_accepted : (handle_set up body started).1.status ≡ 200
unfolding handle_set decode_warn struct_into members_into float_into is_finite ltf Option.bind
body_accepted = refl

new_threshold_store-handle_set_example :
    (new_threshold_store up (handle_set up body started).0.db).cfg
    ≡ (handle_set up body started).0.cfg
new_threshold_store-handle_set_example = new_threshold_store-handle_set body started body_accepted

abbrev letters : Atoi
letters = record { parse = λ l. some (count_letters l) }

abbrev held : MetricPoint
held = record {
  id = 1;
  service_name = "host-agent";
  metric_name = "cpu_usage_percent";
  value = ninety_f;
  labels = none;
  timestamp = 7 * second;
}

abbrev holding : Tables
holding = record empty { metrics = held ∷ [] }

-- Two ticks: the row falls into the window of the second.
abbrev tick_1 : Tick
tick_1 = record { now = 3 * second; until = 3 * second; link = up; db = holding }

abbrev tick_2 : Tick
tick_2 = record { now = 6 * second; until = 8 * second; link = up; db = holding }

nothing_yet : query_metrics up "host-agent" 0 (3 * second) holding ≡ some []
unfolding query_metrics
nothing_yet = refl

one_row : query_metrics up "host-agent" (3 * second) (8 * second) holding ≡ some (held ∷ [])
unfolding query_metrics
one_row = refl

push_updates-Sent_example : Sent held (push_updates "host-agent" 0 (tick_1 ∷ tick_2 ∷ []))
push_updates-Sent_example =
    push_updates-Sent "host-agent" held 0 tick_1 (tick_2 ∷ []) refl (omega arith) (omega arith) (
      omega arith,
      omega arith,
      record { rows = []; answer = nothing_yet; short = omega arith },
      mem-cons_self,
      (
        omega arith,
        omega arith,
        record { rows = held ∷ []; answer = one_row; short = omega arith },
        mem-cons_self,
        tt,
      ),
    )

no_key : ◌≢◌ {A = String} "" "secret"
no_key h = cc

key_set : ◌≢◌ {A = String} "secret" ""
key_set h = cc

serve_api-Denied_example :
    ((serve_api tallies letters byte_order "secret" up noon "" (put_thresholds body) started).0
      ≡ started)
    × Denied started
        (put_thresholds body)
        (serve_api tallies letters byte_order "secret" up noon "" (put_thresholds body) started).1
serve_api-Denied_example =
    serve_api-Denied tallies letters byte_order "secret" up noon "" (put_thresholds body) started
      key_set no_key

get_trace-Traced_example : Traced up "t1" empty (get_trace up "t1" empty)
get_trace-Traced_example = get_trace-Traced up "t1" empty

-- The API starts while the database does not answer its first query, and later takes a PUT.
abbrev calls : ApiCalls
calls = record {
  resource = none;
  make_exporter = λ e. none;
  pool = record { new_pool = none; ping = none; new_migrate = none; up = no_change };
  settings_link = refused;
}

abbrev unset : String → String
unset key = ""

abbrev api : Api
api = record { exporter = stdout; addr = ":8081"; api_key = ""; store = started }

abbrev api_events : List ApiEvent
api_events = asked lost noon "" (put_thresholds body) ∷ tables_changed empty ∷ []

api_starts : start_api unset calls empty ≡ running api
unfolding start_api
api_starts = refl

start_api-fetch_example :
    let s = run_api tallies letters byte_order "" api_events started in
    fetch (response_of (handle_get s)) new_thresholds
    ≡ record { cpu = s.cfg.cpu_warn; mem = s.cfg.mem_warn; disk = s.cfg.disk_warn }
start_api-fetch_example =
    start_api-fetch tallies letters byte_order unset calls empty api api_events new_thresholds
      api_starts
