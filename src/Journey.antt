-- ===== src/Journey.antt =====
-- A metric on its way through the whole system: sampled by the agent (cmd/agent/client.go), accepted by
-- the collector (cmd/collector/grpc_server.go), stored by the aggregator (cmd/aggregator/consumer.go)
-- and shown by the API (cmd/api/handler.go: getMetrics).
mod Examples
pub mod Logs
pub mod Traces
pub mod Settings
pub mod Tree
use mathlib.Core.List.{Mem}
use vkr_public.Base.{
  not_empty, inl, inr, ℕ, ◌≤◌, String, ◌≡◌, ◌≢◌, ◌∙◌, refl, true, false, ap, ◌⊎◌, Option, some,
  List, [], ◌∷◌, ◌++◌, All, length, ◌==◌, eq_iff, eq_refl, arith, Bool-cases, leb, ltb, ltb→lt,
  if◌then◌else◌,
}
use vkr_public.Instant.{Time, TimeText, timestamptz}
use vkr_public.Json.{Json, IsGoMap}
use vkr_public.Http.{Reply}
use vkr_public.Nats.{JetStream}
use vkr_public.Nats.Subscription.{IsKept}
use vkr_public.Agent.Client.{pb_metrics, trace_metadata}
use vkr_public.Agent.Client
use vkr_public.Collector.Grpc.{accepted, send_metrics}
use vkr_public.Storage.Tables.{MetricPoint, Tables, up, metric_row}
use vkr_public.Storage.Select.Found.{Mem-IsLatest}
use vkr_public.Storage.Select.Limit.{IsLatest}
use vkr_public.Storage.Queries.{in_range, query_metrics}
use vkr_public.Storage.Queries.Laws.{query_metrics-IsLatest}
use vkr_public.Aggregator.Messages.{MetricMsg}
use vkr_public.Aggregator.Consumer.{State, Surroundings, point_of}
use vkr_public.Aggregator.System.{Event, System, metrics, kept, run}
use vkr_public.Aggregator.System.NothingLost.{HasMetric}
use vkr_public.Aggregator.System.FromStream.{system_of}
use vkr_public.Aggregator.System.Sent.{Carries, IsDelivered, sent_batch_stored}
use vkr_public.Aggregator.System.Drain.{deliveries, run-deliveries_empty}
use vkr_public.Aggregator.System.Runs.{run-append}
use vkr_public.Api.Handler.{ApiBody, rows, get_metrics, parse_time_range, listed}

-- The row says what the agent measured, with the time in microseconds.
pub record Shows (m : Client.MetricPoint) (x : MetricPoint) : Type 0 where
  pub service_name : x.service_name ≡ m.service_name
  pub metric_name : x.metric_name ≡ m.metric_name
  pub value : x.value ≡ m.value
  pub labels : x.labels ≡ m.labels
  pub timestamp : x.timestamp ≡ timestamptz m.timestamp

-- A reply to a query for a service: 200 with rows and their number, 1000 of them or a row for the
-- point.
abbrev pub IsShown : String → Reply (ApiBody MetricPoint) → Client.MetricPoint → Type 0
IsShown service r m =
    (found : List MetricPoint) × (r
      ≡ record { status = 200; body = rows service (length found) found })
    × ((1000 ≤ length found) ⊎ ((x : MetricPoint) × Mem x found × Shows m x))

-- A query for the service, and a range that holds the time of the point.
abbrev pub IsAsked : String → Time × Time → Client.MetricPoint → Type 0
IsAsked service (from, to) m =
    (m.service_name ≡ service)
    × ((timestamptz from ≤ timestamptz m.timestamp) × (timestamptz m.timestamp ≤ timestamptz to))

pub none_kept : {A : Type 0} (m : A) (l : List A) → l ≡ [] → IsKept m l → ⊥
none_kept m [] e h = h
none_kept m (x ∷ l) e h = cc

row-Shows :
    (m : Client.MetricPoint) (trace_id : String) (msg : MetricMsg) (id : ℕ)
    → Carries m trace_id msg
    → Shows m (metric_row id (point_of msg))
unfolding metric_row point_of
row-Shows m trace_id msg id c = record {
  service_name = c.service_name;
  metric_name = c.metric_name;
  value = c.value;
  labels = c.labels;
  timestamp = ap timestamptz c.timestamp;
}

Shows-in_range :
    (m : Client.MetricPoint) (x : MetricPoint) (service : String) (from to : Time)
    → Shows m x
    → IsAsked service (from, to) m
    → in_range service from to x ≡ true
unfolding in_range
Shows-in_range m x service from to s (own, (after, before)) =
    rw (s.service_name, s.timestamp, own, eq_refl service) (ground arith)

delivered-HasMetric :
    (clock : TimeText) (sys : System) (trace_id : String) (m : Client.MetricPoint)
    → sys.kept_metrics ≡ []
    → IsDelivered clock sys trace_id m
    → (msg : MetricMsg) × Carries m trace_id msg × HasMetric msg sys.state.db
delivered-HasMetric clock sys trace_id m empty (msg, carries, (j, _, inl waits)) =
    absurd (none_kept _ _ empty waits)
delivered-HasMetric clock sys trace_id m empty (msg, carries, (j, _, inr row)) = (msg, carries, row)

answered_up :
    (service : String) (from to : Time) (db : Tables)
    → (found : List MetricPoint) × (query_metrics up service from to db ≡ some found)
unfolding query_metrics
answered_up service from to db = (_, refl)

-- A query that is answered returns the row, or 1000 rows.
found-Shows :
    (service : String) (from to : Time) (db : Tables) (found : List MetricPoint)
    (m : Client.MetricPoint) (x : MetricPoint)
    → query_metrics up service from to db ≡ some found
    → IsAsked service (from, to) m
    → Shows m x
    → Mem x db.metrics
    → (1000 ≤ length found) ⊎ ((y : MetricPoint) × Mem y found × Shows m y)
found-Shows service from to db found m x answer asked shows stored =
    elim (Bool-cases (ltb (length found) 1000)) [
      | inl short ↦ inr (
        x,
        Mem-IsLatest (in_range service from to) x
            (query_metrics-IsLatest up service from to db answer) (ltb→lt _ _ short)
            (Shows-in_range m x service from to shows asked) stored,
        shows,
      )
      | inr full ↦ inl (ground arith)
    ]

get_metrics-IsShown :
    (clock : TimeText) (now : Time) (service from to : String) (db : Tables)
    (m : Client.MetricPoint) (x : MetricPoint)
    → service ≢ ""
    → IsAsked service (parse_time_range clock now from to) m
    → Shows m x
    → Mem x db.metrics
    → IsShown service (get_metrics clock up now service from to db) m
unfolding get_metrics
get_metrics-IsShown clock now service from to db m x given asked shows stored =
    let (start, finish) = parse_time_range clock now from to in
    let (found, answer) = answered_up service start finish db in
    (
      found,
      rw (not_empty service given) (ap (listed service) answer),
      found-Shows service start finish db found m x answer asked shows stored,
    )

batch-IsShown :
    (clock : TimeText) (sys : System) (trace_id : String) (now : Time) (service from to : String)
    (batch : List Client.MetricPoint)
    → sys.kept_metrics ≡ []
    → service ≢ ""
    → All (IsAsked service (parse_time_range clock now from to)) batch
    → All (IsDelivered clock sys trace_id) batch
    → All (IsShown service (get_metrics clock up now service from to sys.state.db)) batch
batch-IsShown clock sys trace_id now service from to [] empty given asked h = tt
batch-IsShown clock sys trace_id now service from to (m ∷ batch) empty given (ask, asked) (d, ds) =
    let (msg, carries, (id, stored)) = delivered-HasMetric clock sys trace_id m empty d in
    (
      get_metrics-IsShown clock now service from to sys.state.db m (metric_row id (point_of msg))
          given ask (row-Shows m trace_id msg id carries) stored,
      batch-IsShown clock sys trace_id now service from to batch empty given asked ds,
    )

-- A batch that the agent sends, with labels that are Go maps, and that the collector accepts. New
-- consumers of the stream run in any order and with any failures and lost answers, and then as many
-- deliveries of metrics as the server keeps messages meet a database that answers. A query of the API
-- that follows and that the database answers, for a service with a name and a range that all the
-- points of the batch belong to, is answered 200 with 1000 rows, or, for each point, with a row of its
-- service, name, value, labels and time.
pub sent_batch-IsShown :
    (clock : TimeText) {S : Type 0} (js : JetStream S) (trace_id parent_span_id fresh : String)
    (start finish : Time) (stamps : ℕ → Time) (batch : List Client.MetricPoint) (s : S) (k : ℕ)
    (state : State) (events : List Event) (ws : List Surroundings) (now : Time)
    (service from to : String)
    → All (λ m. IsGoMap m.labels) batch
    → let answer =
        send_metrics clock js
          (trace_metadata trace_id parent_span_id)
          fresh
          start
          finish
          stamps
          (pb_metrics batch)
          s in
      answer.1 ≡ accepted k
      → let sys = run clock events (system_of (js.stored answer.0) state) in
        All (λ w. w.link ≡ up) ws
        → length sys.kept_metrics ≤ length ws
        → service ≢ ""
        → All (IsAsked service (parse_time_range clock now from to)) batch
        → All
            (IsShown service (
              get_metrics clock up now service from to
                (run clock (deliveries metrics ws) sys).state.db))
            batch
sent_batch-IsShown clock js trace_id parent_span_id fresh start finish stamps batch s k state events
      ws now service from to labels ok works enough given asked =
    let answer =
      send_metrics clock js (trace_metadata trace_id parent_span_id) fresh start finish stamps
        (pb_metrics batch) s in
    let first = system_of (js.stored answer.0) state in
    batch-IsShown clock (run clock (deliveries metrics ws) (run clock events first)) trace_id now
      service from to batch
      (run-deliveries_empty clock metrics ws (run clock events first) (λ e. cc) works enough) given
      asked
      (rw (← run-append clock events (deliveries metrics ws) first) (
        sent_batch_stored clock js trace_id parent_span_id fresh start finish stamps batch s k state
          (events ++ deliveries metrics ws) labels ok))
