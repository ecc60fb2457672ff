-- ===== src/Api/Examples/Streams.antt =====
-- The API's event stream at concrete tables.
use mathlib.Core.List.{mem-cons_self}
use vkr_public.Base.{◌≡◌, ◌-◌, ◌*◌, refl, arith, inl, some, List, [], ◌∷◌, Option}
use vkr_public.Instant.{second}
use vkr_public.Storage.Tables.{up}
use vkr_public.Storage.Queries.{query_metrics}
use vkr_public.Api.Stream.{Event, named, heartbeat, Tick, opened, stream_metrics, push_metrics}
use vkr_public.Api.Stream.Windows.{Sent}
use vkr_public.Api.Stream.Behind.{stream_metrics-behind}
use vkr_public.Api.Examples.{held, holding}

abbrev first : Tick
first = record { now = 7 * second; until = 8 * second; link = up; db = holding }

abbrev update : Tick
update = record { now = 12 * second; until = 12 * second; link = up; db = holding }

abbrev events : List (Option Event)
events = some (named "snapshot" (held ∷ [])) ∷ some heartbeat ∷ []

stream_events : stream_metrics "host-agent" "" "" first (9 * second) (update ∷ []) ≡ opened events
unfolding stream_metrics query_metrics
stream_events = refl

stream_metrics-behind_example : Sent held (
    push_metrics first.link "host-agent" (first.now - 120 * second) first.until "snapshot" first.db
    ∷ [])
stream_metrics-behind_example =
    stream_metrics-behind "host-agent" "" "" first (9 * second) (update ∷ []) held events
      stream_events (omega arith, tt) (omega arith) (inl mem-cons_self)
