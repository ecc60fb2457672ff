-- ===== src/Journey/Examples/Warnings.antt =====
-- A threshold put at the API, and the warning of an agent.
use mathlib.Core.Option
use vkr_public.Base.{
  String, ◌≡◌, ◌≢◌, refl, true, false, none, some, Option, List, [], ◌∷◌, ◌++◌, if◌then◌else◌,
}
use vkr_public.Float64.{one_f, ninety_f, hundred_f, is_finite, ltf, lef}
use vkr_public.Json.{Json, struct_into, members_into, float_into}
use vkr_public.Warn.{Warn, encode_warn, decode_warn, warn_is_finite, all_positive}
use vkr_public.Storage.Tables.{up}
use vkr_public.Api.Thresholds.{
  Store, bound, handle_set, handle_get, default_warn, new_threshold_store, response_of,
}
use vkr_public.Agent.Thresholds.{Response, new_thresholds, poll_config}
use vkr_public.Agent.Send.Streak.{log_levels}
use vkr_public.Agent.Rounds.Cpu.{CpuSample, cpu_loop}
use vkr_public.Fixtures.{noon, host, agent, flat}
use vkr_public.Journey.Settings.{store_after, taken, put_thresholds-warnings}
use vkr_public.Journey.Examples.{new}

abbrev store : Store
store = record { cfg = default_warn; db = new.db }

abbrev asked : Warn
asked = record { cpu_warn = ninety_f; mem_warn = one_f; disk_warn = hundred_f }

abbrev body : Option Json
body = some (encode_warn asked)

body_accepted : (handle_set up body store).1.status ≡ 200
unfolding handle_set decode_warn struct_into members_into float_into is_finite ltf Option.bind
body_accepted = refl

abbrev failures : List Response
failures = none ∷ some (500, none) ∷ []

abbrev sample : CpuSample
sample = record {
  round = record { now = noon; sending = host; warning = host; fresh = "p1"; outcome = none };
  threshold = ninety_f;
  counts = 4;
  percent = some hundred_f;
}

has_address : ◌≢◌ {A = String} "http://api" ""
has_address e = cc

polled_ninety :
    ninety_f
    ≡ (poll_config "http://api"
        (failures ++ response_of (handle_get (store_after true body store)) ∷ failures)
        new_thresholds).cpu
unfolding poll_config handle_get handle_set warn_is_finite is_finite new_threshold_store decode_warn
    struct_into Option.bind float_into ltf all_positive
polled_ninety = refl

put_thresholds-warnings_example :
    (c : Warn) × (bound body ≡ some c)
    × (poll_config "http://api"
          (failures ++ response_of (handle_get (store_after true body store)) ∷ failures)
          new_thresholds
        ≡ taken c)
    × (log_levels (cpu_loop flat (sample ∷ []) false agent).1
        ≡ (if lef c.cpu_warn hundred_f then "warn" ∷ [] else []))
put_thresholds-warnings_example =
    put_thresholds-warnings true body store "http://api" failures failures new_thresholds flat
      sample hundred_f agent body_accepted has_address (tt, (refl, tt)) polled_ninety refl refl refl
