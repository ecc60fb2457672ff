-- ===== src/Shutdown/Examples.antt =====
-- Ends of processes at concrete answers of their libraries.
use vkr_public.Base.{◌≡◌, refl, ℕ, arith, String, none, some, [], ◌∷◌}
use vkr_public.Storage.Connection.{PoolCalls, applied}
use vkr_public.Storage.Tables.{Tables, refused}
use vkr_public.Nats.Connection.{ConnectCalls}
use vkr_public.Lifecycle.{opens, exited, signals, tracer, database, Crash, opening, required}
use vkr_public.Lifecycle.Release.{IsOrderly, crashed}
use vkr_public.Aggregator.Process.{AggregatorCalls, main_aggregator}
use vkr_public.Collector.Process.{CollectorCalls, start_collector, main_collector}
use vkr_public.Api.Process.{ApiCalls, start_api, main_api}
use vkr_public.Shutdown.{crashes-IsOrderly}

abbrev unset : String → String
unset key = ""

abbrev pool : PoolCalls
pool = record { new_pool = none; ping = none; new_migrate = none; up = applied }

abbrev unreachable : ConnectCalls
unreachable = record { dial = some "no servers"; jetstream = none; create_stream = none }

abbrev aggregator : AggregatorCalls
aggregator = record { resource = none; make_exporter = λ e. none; pool = pool; nats = unreachable }

abbrev collector : CollectorCalls
collector = record {
  resource = none;
  make_exporter = λ e. none;
  nats = record { dial = none; jetstream = none; create_stream = none };
  listen = none;
}

abbrev api : ApiCalls
api = record { resource = none; make_exporter = λ e. none; pool = pool; settings_link = refused }

abbrev empty : Tables
empty = record {
  metrics = [];
  logs = [];
  spans = [];
  settings = [];
  next_metric = 1;
  next_log = 1;
  next_span = 1;
}

-- The pool and the tracer stay open where the stream cannot be reached.
unreachable_test : main_aggregator unset aggregator ≡ record {
  acts = opens signals ∷ opens tracer ∷ opens database ∷ [];
  ending = exited "nats connect" "nats connect: no servers";
}
unfolding main_aggregator opening required
unreachable_test = refl

abbrev crash : Crash
crash = record { after = 1; error = "address already in use" }

crashes-IsOrderly_example :
    IsOrderly
      (crashed "server error" "address already in use" (start_api unset api empty))
      (main_api unset api (some crash))
    × IsOrderly
        (crashed "grpc server error" "address already in use"
          (start_collector {L = ℕ} {S = ℕ} {C = ℕ} unset collector 0 0))
        (main_collector unset collector none (some crash))
crashes-IsOrderly_example = crashes-IsOrderly ℕ unset api empty collector 0 0 crash (omega arith)
