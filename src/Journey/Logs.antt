-- ===== src/Journey/Logs.antt =====
-- A log entry on its way from the agent to the API's answer (cmd/api/handler.go: getLogs).
use mathlib.Core.List.{Mem}
use vkr_public.Base.{
  not_empty, inl, inr, ℕ, ◌≤◌, String, ◌≡◌, ◌≢◌, refl, true, ap, ◌⊎◌, some, List, [], ◌∷◌, ◌++◌,
  All, length, eq_refl, arith, Bool-cases, ltb, ltb→lt,
}
use vkr_public.Instant.{Time, TimeText, timestamptz}
use vkr_public.Json.{IsGoMap}
use vkr_public.Http.{Reply}
use vkr_public.Nats.{JetStream}
use vkr_public.Agent.Client
use vkr_public.Agent.Client.{pb_log}
use vkr_public.Collector.Grpc.{accepted, send_logs}
use vkr_public.Storage.Tables.{LogEntry, Tables, up, log_row}
use vkr_public.Storage.Select.Found.{Mem-IsLatest}
use vkr_public.Storage.Queries.{is_log_of, query_logs}
use vkr_public.Storage.Queries.Laws.{query_logs-IsLatest}
use vkr_public.Aggregator.Consumer.{State, Surroundings, entry_of}
use vkr_public.Aggregator.System.{Event, logs, run}
use vkr_public.Aggregator.System.FromStream.{system_of}
use vkr_public.Aggregator.System.Reported.{log_told, sent_log_stored}
use vkr_public.Aggregator.System.Drain.{deliveries, run-deliveries_empty}
use vkr_public.Aggregator.System.Runs.{run-append}
use vkr_public.Api.Handler.{ApiBody, rows, Atoi, limit_of, get_logs, listed}
use vkr_public.Journey.{none_kept}

-- The row says what the agent reported, with the time in microseconds.
pub record Tells (e : Client.LogEntry) (x : LogEntry) : Type 0 where
  pub service_name : x.service_name ≡ e.service_name
  pub level : x.level ≡ e.level
  pub message : x.message ≡ e.message
  pub trace_id : x.trace_id ≡ e.trace_id
  pub fields : x.fields ≡ e.fields
  pub timestamp : x.timestamp ≡ timestamptz e.timestamp

-- A reply to a query for a service: 200 with rows and their number, as many as the query asked for or
-- with a row for the entry.
abbrev pub IsListed : String → ℕ → Reply (ApiBody LogEntry) → Client.LogEntry → Type 0
IsListed service limit r e =
    (found : List LogEntry) × (r
      ≡ record { status = 200; body = rows service (length found) found })
    × ((limit ≤ length found) ⊎ ((x : LogEntry) × Mem x found × Tells e x))

row-Tells : (e : Client.LogEntry) (id : ℕ) → Tells e (log_row id (entry_of (log_told e)))
unfolding log_row entry_of
row-Tells e id = record {
  service_name = refl;
  level = refl;
  message = refl;
  trace_id = refl;
  fields = refl;
  timestamp = refl;
}

-- The level that a query asks for: the entry's, or none.
abbrev pub IsAsked : String → String → Client.LogEntry → Type 0
IsAsked service level e = (e.service_name ≡ service) × ((level ≡ "") ⊎ (level ≡ e.level))

row-is_log_of :
    (e : Client.LogEntry) (id : ℕ) (service level : String)
    → IsAsked service level e
    → is_log_of service level (log_row id (entry_of (log_told e))) ≡ true
unfolding is_log_of log_row entry_of
row-is_log_of e id service level (own, inl any) = rw (own, any, eq_refl service) refl
row-is_log_of e id service level (own, inr same) =
    rw (own, eq_refl service, same, eq_refl e.level) (ground arith)

answered_up :
    (service level : String) (limit : ℕ) (db : Tables)
    → (found : List LogEntry) × (query_logs up service level limit db ≡ some found)
unfolding query_logs
answered_up service level limit db = (_, refl)

get_logs-IsListed :
    (atoi : Atoi) (service level limit : String) (db : Tables) (e : Client.LogEntry) (id : ℕ)
    → service ≢ ""
    → IsAsked service level e
    → Mem (log_row id (entry_of (log_told e))) db.logs
    → IsListed service (limit_of atoi limit) (get_logs atoi up service level limit db) e
unfolding get_logs
get_logs-IsListed atoi service level limit db e id given asked stored =
    let n = limit_of atoi limit in
    let (found, answer) = answered_up service level n db in
    let x = log_row id (entry_of (log_told e)) in
    (
      found,
      rw (not_empty service given) (ap (listed service) answer),
      elim (Bool-cases (ltb (length found) n)) [
        | inl short ↦ inr (
          x,
          Mem-IsLatest (is_log_of service level) x
              (query_logs-IsLatest up service level n db answer) (ltb→lt _ _ short)
              (row-is_log_of e id service level asked) stored,
          row-Tells e id,
        )
        | inr full ↦ inl (ground arith)
      ],
    )

-- A log entry that the agent sends, with fields that are a Go map, and that the collector accepts. New
-- consumers of the stream run in any order and with any failures and lost answers, and then as many
-- deliveries of logs as the server keeps messages meet a database that answers. A query of the API
-- that follows and that the database answers, for the entry's service, which has a name, and its
-- level or none, is answered 200 with as many rows as its limit, or with a row of the entry's service,
-- level, message, trace, fields and time.
pub sent_log-IsListed :
    (clock : TimeText) {S : Type 0} (js : JetStream S) (stamps : ℕ → Time) (e : Client.LogEntry)
    (s : S) (k : ℕ) (state : State) (events : List Event) (ws : List Surroundings) (atoi : Atoi)
    (service level limit : String)
    → IsGoMap e.fields
    → let answer = send_logs clock js stamps (pb_log e ∷ []) s in
      answer.1 ≡ accepted k
      → let sys = run clock events (system_of (js.stored answer.0) state) in
        All (λ w. w.link ≡ up) ws
        → length sys.kept_logs ≤ length ws
        → service ≢ ""
        → IsAsked service level e
        → IsListed service
            (limit_of atoi limit)
            (get_logs atoi up service level limit (run clock (deliveries logs ws) sys).state.db)
            e
sent_log-IsListed clock js stamps e s k state events ws atoi service level limit fields ok works
      enough given asked =
    let answer = send_logs clock js stamps (pb_log e ∷ []) s in
    let first = system_of (js.stored answer.0) state in
    let (j, _, fate) =
      sent_log_stored clock js stamps e s k state (events ++ deliveries logs ws) fields ok in
    let drained =
      run-deliveries_empty clock logs ws (run clock events first) (λ e. cc) works enough in
    elim (rw (run-append clock events (deliveries logs ws) first) at fate) [
      | inl waits ↦ absurd (none_kept _ _ drained waits)
      | inr (id, stored) ↦ get_logs-IsListed atoi service level limit _ e id given asked stored
    ]
