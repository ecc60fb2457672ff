-- ===== src/Api/Stream/Windows.antt =====
-- The windows of the updates leave no gap between them.
use mathlib.Core.List.{Mem, not-mem-nil}
use vkr_public.Base.{
  ◌≤◌, ◌<◌, String, ◌≡◌, ◌⊎◌, inl, inr, true, false, Option, none, some, List, [], ◌∷◌, eq_refl,
  arith, leb, length, Bool-cases,
}
use vkr_public.Instant.{Time, timestamptz}
use vkr_public.Storage.Tables.{MetricPoint}
use vkr_public.Storage.Queries.{in_range, query_metrics}
use vkr_public.Storage.Queries.Laws.{query_metrics-IsLatest}
use vkr_public.Storage.Select.Found.{Mem-IsLatest}
use vkr_public.Api.Stream.{Event, heartbeat, named, event_of, push_metrics, Tick, push_updates}

-- A row that one of the events carries.
abbrev pub Sent : MetricPoint → List (Option Event) → Type 0
Sent x [] = ⊥
Sent x (none ∷ es) = Sent x es
Sent x (some heartbeat ∷ es) = Sent x es
Sent x (some (named name rows) ∷ es) = Mem x rows ⊎ Sent x es

-- The answer of a tick's query, when it is not cut off at its limit.
pub record Answered (service : String) (since : Time) (t : Tick) : Type 0 where
  pub rows : List MetricPoint
  pub answer : query_metrics t.link service since t.until t.db ≡ some rows
  pub short : length rows < 1000

-- A run of ticks: the clock does not go back, each query is answered, and the row is in the table.
abbrev pub IsRun : String → MetricPoint → Time → List Tick → Type 0
IsRun service x since [] = Unit
IsRun service x since (t ∷ ts) =
    (since ≤ t.now)
    × (t.now ≤ t.until)
    × Answered service since t
    × Mem x t.db.metrics
    × IsRun service x t.now ts

abbrev pub last_until : Tick → List Tick → Time
last_until t [] = t.until
last_until t (u ∷ us) = last_until u us

Sent-later :
    (x : MetricPoint) (o : Option Event) (es : List (Option Event)) → Sent x es → Sent x (o ∷ es)
Sent-later x none es h = h
Sent-later x (some heartbeat) es h = h
Sent-later x (some (named name rows)) es h = inr h

Sent-event_of :
    (x : MetricPoint) (name : String) (rows : List MetricPoint) (es : List (Option Event))
    → Mem x rows
    → Sent x (event_of name (some rows) ∷ es)
Sent-event_of x name [] es m = absurd (not-mem-nil m)
Sent-event_of x name (row ∷ rows) es m = inl m

in_window :
    (service : String) (x : MetricPoint) (since until : Time)
    → x.service_name ≡ service
    → timestamptz since ≤ x.timestamp
    → x.timestamp ≤ timestamptz until
    → in_range service since until x ≡ true
unfolding in_range
in_window service x since until mine after before = rw (mine, eq_refl service) (ground arith)

-- A window that begins before the one before it has ended leaves nothing out.
next_window :
    (x : MetricPoint) (now until : Time)
    → now ≤ until
    → leb x.timestamp (timestamptz until) ≡ false
    → timestamptz now ≤ x.timestamp
next_window x now until h e = ground arith

-- A row in the window of a tick is sent by it.
Sent-now :
    (service : String) (x : MetricPoint) (since : Time) (t : Tick) (es : List (Option Event))
    → x.service_name ≡ service
    → timestamptz since ≤ x.timestamp
    → x.timestamp ≤ timestamptz t.until
    → Answered service since t
    → Mem x t.db.metrics
    → Sent x (push_metrics t.link service since t.until "update" t.db ∷ es)
unfolding push_metrics
Sent-now service x since t es mine after before a m = rw a.answer (
    Sent-event_of x "update" a.rows es (
      Mem-IsLatest (in_range service since t.until) x
        (query_metrics-IsLatest t.link service since t.until t.db a.answer) a.short
        (in_window service x since t.until mine after before) m))

-- No row between the first reading of the clock and the last tick is passed over: in a run whose
-- queries are answered in full and whose clock does not go back, a row of the service that is in the
-- table at each tick, and whose timestamp lies between the start and the last tick's query, is sent.
pub push_updates-Sent :
    (service : String) (x : MetricPoint) (since : Time) (t : Tick) (ts : List Tick)
    → x.service_name ≡ service
    → timestamptz since ≤ x.timestamp
    → x.timestamp ≤ timestamptz (last_until t ts)
    → IsRun service x since (t ∷ ts)
    → Sent x (push_updates service since (t ∷ ts))
unfolding push_updates
push_updates-Sent service x since t [] mine after before (up, later, a, m, run) =
    Sent-now service x since t [] mine after before a m
push_updates-Sent service x since t (u ∷ us) mine after before (up, later, a, m, run) =
    elim (Bool-cases (leb x.timestamp (timestamptz t.until))) [
      | inl e ↦ Sent-now service x since t _ mine after (ground arith) a m
      | inr e ↦ Sent-later x (push_metrics t.link service since t.until "update" t.db) _ (
          push_updates-Sent service x t.now u us mine (next_window x t.now t.until later e) before
            run)
    ]
