-- ===== src/Api/Stream.antt =====
-- The event stream of metrics (cmd/api/sse.go: streamMetrics, pushMetrics). The readings of the clock,
-- the fates of the queries and the tables that they meet are arguments.
pub mod Windows
pub mod Behind
use vkr_public.Base.{
  ℕ, ◌-◌, ◌*◌, String, Bool, Option, none, some, List, [], ◌∷◌, ◌==◌, ◌&&◌, not, if◌then◌else◌,
}
use vkr_public.Instant.{Time, second}
use vkr_public.Storage.Tables.{MetricPoint, Tables, Link}
use vkr_public.Storage.Queries.{query_metrics}

-- What is written to the client: a comment that keeps the connection alive, or a named event with
-- rows.
pub data Event : Type 0 where
  heartbeat : Event
  named : String → List MetricPoint → Event

abbrev event_of : String → Option (List MetricPoint) → Option Event
event_of name none = none
event_of name (some []) = some heartbeat
event_of name (some (row ∷ rows)) = some (named name (row ∷ rows))

-- `none` is a query that failed: nothing is written.
unfoldable pub push_metrics : Link → String → Time → Time → String → Tables → Option Event
unfolding query_metrics
push_metrics link service since until name db =
    event_of name (query_metrics link service since until db)

-- A tick: the clock read at its start, the clock read by pushMetrics, and what the query meets.
pub record Tick : Type 0 where
  pub now : Time
  pub until : Time
  pub link : Link
  pub db : Tables

unfoldable pub push_updates : String → Time → List Tick → List (Option Event)
unfolding push_metrics
push_updates service since [] = []
push_updates service since (t ∷ ts) =
    push_metrics t.link service since t.until "update" t.db ∷ push_updates service t.now ts

pub data Stream : Type 0 where
  refused : ℕ → String → Stream
  opened : List (Option Event) → Stream

-- The ticks are those until the client leaves. `first` is the snapshot's round, and `since` the clock
-- read after it.
unfoldable pub stream_metrics :
    (service api_key query_key : String) (first : Tick) (since : Time) → List Tick → Stream
unfolding push_updates
stream_metrics service api_key query_key first since ticks =
    if service == ""
    then refused 400 "service required"
    else if not (api_key == "") && not (query_key == api_key)
    then refused 401 "invalid api key"
    else opened (
        push_metrics first.link service (first.now - 120 * second) first.until "snapshot" first.db
        ∷ push_updates service since ticks)
