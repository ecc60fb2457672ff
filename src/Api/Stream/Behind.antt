-- ===== src/Api/Stream/Behind.antt =====
-- What the windows of the updates have passed over.
use mathlib.Core.List.{Mem}
use vkr_public.Base.{
  ℕ, ◌≤◌, ◌<◌, String, ◌≡◌, inl, inr, true, Option, none, some, List, [], ◌∷◌, arith, All, ◌&&◌,
  ◌==◌, Bool-cases, Option-cases, not, ◌-◌, ◌*◌,
}
use vkr_public.Instant.{Time, timestamptz, second}
use vkr_public.Storage.Tables.{MetricPoint}
use vkr_public.Storage.Queries.{in_range, query_metrics}
use vkr_public.Storage.Select.Members.{All_at}
use vkr_public.Storage.Queries.Laws.{query_metrics-IsLatest}
use vkr_public.Api.Stream.{
  Event, heartbeat, named, event_of, push_metrics, Tick, push_updates, refused, opened,
  stream_metrics,
}
use vkr_public.Api.Stream.Windows.{Sent}

-- The clock does not go back.
abbrev pub IsForward : Time → List Tick → Type 0
IsForward since [] = Unit
IsForward since (t ∷ ts) = (since ≤ t.now) × IsForward t.now ts

in_range-since :
    (service : String) (from to : Time) (y : MetricPoint)
    → in_range service from to y ≡ true
    → timestamptz from ≤ y.timestamp
unfolding in_range
in_range-since service from to y h = ground arith

not_among :
    (service : String) (from to : Time) (x : MetricPoint) (rows : List MetricPoint)
    → x.timestamp < timestamptz from
    → All (λ y. in_range service from to y ≡ true) rows
    → Mem x rows
    → ⊥
not_among service from to x rows early h m =
    let inside : in_range service from to x ≡ true = All_at (λ y. hlevel) rows h m in
    absurd (omega (arith, in_range-since service from to x inside))

refused_opened : {n : ℕ} {e : String} {es : List (Option Event)} → refused n e ≡ opened es → ⊥
refused_opened h = cc

same_events : {es ds : List (Option Event)} → opened ds ≡ opened es → es ≡ ds
same_events h = cc

later_since : (since now n : Time) → since ≤ now → n < timestamptz since → n < timestamptz now
later_since since now n h early = ground arith

-- An event that carries the row, after an event that does not.
Sent-event_of :
    (x : MetricPoint) (name : String) (rows : List MetricPoint) (es : List (Option Event))
    → (Mem x rows → ⊥)
    → Sent x (event_of name (some rows) ∷ es)
    → Sent x es
Sent-event_of x name [] es other h = h
Sent-event_of x name (row ∷ rows) es other (inl m) = absurd (other m)
Sent-event_of x name (row ∷ rows) es other (inr h) = h

Sent-push_metrics :
    (service : String) (x : MetricPoint) (since : Time) (t : Tick) (es : List (Option Event))
    → x.timestamp < timestamptz since
    → Sent x (push_metrics t.link service since t.until "update" t.db ∷ es)
    → Sent x es
unfolding push_metrics
Sent-push_metrics service x since t es early h =
    elim (Option-cases (query_metrics t.link service since t.until t.db)) [
      | inl failed ↦ rw failed at h
      | inr (rows, answer) ↦
          Sent-event_of x "update" rows es
            (not_among service since t.until x rows early
              (query_metrics-IsLatest t.link service since t.until t.db answer).matching)
            (rw answer at h)
    ]

push_updates-behind :
    (service : String) (x : MetricPoint) (since : Time) (ts : List Tick)
    → IsForward since ts
    → x.timestamp < timestamptz since
    → Sent x (push_updates service since ts)
    → ⊥
unfolding push_updates
push_updates-behind service x since [] forward early h = h
push_updates-behind service x since (t ∷ ts) (up, forward) early h =
    push_updates-behind service x t.now ts forward (later_since since t.now _ up early)
      (Sent-push_metrics service x since t _ early h)

Sent-first :
    (x : MetricPoint) (o : Option Event) (es : List (Option Event))
    → (Sent x es → ⊥)
    → Sent x (o ∷ es)
    → Sent x (o ∷ [])
Sent-first x none es never h = never h
Sent-first x (some heartbeat) es never h = never h
Sent-first x (some (named name rows)) es never (inl m) = inl m
Sent-first x (some (named name rows)) es never (inr h) = absurd (never h)

opened-events :
    (service api_key query_key : String) (first : Tick) (since : Time) (ts : List Tick)
    (es : List (Option Event))
    → stream_metrics service api_key query_key first since ts ≡ opened es
    → es
      ≡ push_metrics first.link service (first.now - 120 * second) first.until "snapshot" first.db
        ∷ push_updates service since ts
unfolding stream_metrics
opened-events service api_key query_key first since ts es h = elim (Bool-cases (service == "")) [
  | inl e ↦ absurd (refused_opened (rw e at h))
  | inr e ↦ elim (Bool-cases (not (api_key == "") && not (query_key == api_key))) [
    | inl k ↦ absurd (refused_opened (rw (e, k) at h))
    | inr k ↦ same_events (rw (e, k) at h)
  ]
]

-- A stream of metrics whose clock does not go back: a row whose timestamp is before the first update's
-- window is sent by the snapshot or never, whenever it is stored and whatever the tables hold later.
pub stream_metrics-behind :
    (service api_key query_key : String) (first : Tick) (since : Time) (ts : List Tick)
    (x : MetricPoint) (es : List (Option Event))
    → stream_metrics service api_key query_key first since ts ≡ opened es
    → IsForward since ts
    → x.timestamp < timestamptz since
    → Sent x es
    → Sent x (
        push_metrics first.link service (first.now - 120 * second) first.until "snapshot" first.db
        ∷ [])
unfolding stream_metrics
stream_metrics-behind service api_key query_key first since ts x es stream forward early h =
    let snapshot =
      push_metrics first.link service (first.now - 120 * second) first.until "snapshot" first.db in
    Sent-first x snapshot (push_updates service since ts)
      (push_updates-behind service x since ts forward early)
      (rw (opened-events service api_key query_key first since ts es stream) at h)
