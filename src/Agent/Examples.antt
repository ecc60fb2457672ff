-- ===== src/Agent/Examples.antt =====
-- The agent at concrete readings.
mod Loops
use vkr_public.Base.{
  ◌<◌, ◌≤◌, ◌-◌, ◌+◌, ◌^◌, ◌*◌, ◌≡◌, refl, true, false, none, some, List, [], ◌∷◌, ◌++◌, arith,
  length, take, ltb, if◌then◌else◌, String,
}
use mathlib.Core.Option
use vkr_public.Float64.{
  Float64, FloatOps, is_finite, ninety_f, eighty_five_f, one_f, hundred_f, zero_f, ltf, lef,
}
use vkr_public.Instant.{second}
use vkr_public.Json.{struct_into, members_into, float_into}
use vkr_public.Warn.{encode_warn, decode_warn, all_positive}
use vkr_public.Agent.Client.{MetricPoint}
use vkr_public.Agent.Status.{status_ok, status_warn, status_error}
use vkr_public.Agent.Status.Worst.{worst}
use vkr_public.Agent.Send.{Agent, Surroundings}
use vkr_public.Agent.Send.Streak.{Sending, outage, log_levels, outage-levels}
use vkr_public.Agent.Send.{settle}
use vkr_public.Agent.Interleaving.{
  Loop, Shared, Move, fails, loads, stores, logged, reset, watch, after,
}
use vkr_public.Agent.Interleaving.Announcements.{
  times_logged, resets, nobody_storing, watch_announcements, at_once, outage_announced_by_each,
}
use vkr_public.Agent.Interleaving.Sequential.{levels_seen, steps_of, settle-watch}
use vkr_public.Agent.Rounds.{Partition}
use vkr_public.Agent.Rounds.Disk.{DiskSample, disk_run, readings_in, fires}
use vkr_public.Agent.Rounds.Disk.Entries.{logs_for}
use vkr_public.Agent.Rounds.Disk.Mounts.{disk_run-warnings}
use vkr_public.Agent.Heartbeat.{tick}
use vkr_public.Agent.Heartbeat.Reports.{Entry, write_all, levels, span_statuses, tick-worst}
use vkr_public.Agent.Edge.{edges}
use vkr_public.Agent.Edge.Alternation.{warnings}
use vkr_public.Agent.Rounds.{Round, send_batch}
use vkr_public.Agent.Network.{IoCounters, network_round}
use vkr_public.Agent.Network.Points.{IsMeasured, IsCovered}
use vkr_public.Agent.Network.Rates.{network_round-IsMeasured}
use vkr_public.Base.{ℕ, ◌<◌, ◌⊎◌, none, All, Assoc}
use vkr_public.Agent.Thresholds.{Response, new_thresholds, poll_config}
use vkr_public.Agent.Thresholds.Polling.{IsUsable, poll_config-IsUsable}
use vkr_public.Agent.Rounds.Cpu.{CpuSample, cpu_loop, samples_of, warn_levels}
use vkr_public.Agent.Rounds.MemoryLoop.{MemorySample, memory_loop, readings_of, loops-warnings}
use vkr_public.Fixtures.{noon, host, agent, flat}

abbrev cpu : MetricPoint
cpu = record {
  service_name = "host-agent";
  metric_name = "cpu_usage_percent";
  value = ninety_f;
  labels = none;
  timestamp = noon;
}

abbrev sending : Sending
sending = record { surroundings = host; fresh = "p1"; first = cpu; others = [] }

abbrev four_failures : List (Sending × String)
four_failures =
    (sending, "unavailable")
    ∷ (sending, "unavailable")
    ∷ (sending, "unavailable")
    ∷ (sending, "unavailable")
    ∷ []

outage-levels_example :
    (log_levels (outage four_failures sending agent).1
      ≡ take (length four_failures) (status_warn ∷ status_warn ∷ status_error ∷ [])
        ++ (if ltb 2 (length four_failures) then "info" ∷ [] else []))
    × ((outage four_failures sending agent).0.fail_count ≡ 0)
outage-levels_example = outage-levels four_failures sending agent refl (omega arith)

abbrev warned_and_failed : List Entry
warned_and_failed =
    record {
      surroundings = host;
      level = "warn";
      message = "high CPU usage";
      trace_id = "t1";
      fields = none;
    }
    ∷ record {
      surroundings = host;
      level = "error";
      message = "disk partition full";
      trace_id = "t1";
      fields = none;
    }
    ∷ []

abbrev between : Agent
between = write_all warned_and_failed (tick flat host "s1" noon noon agent).0

tick-worst_example :
    (span_statuses (tick flat host "s2" noon (noon + 60 * second) between).1
      ≡ worst (levels warned_and_failed) ∷ [])
    × ((tick flat host "s2" noon (noon + 60 * second) between).0.interval_status ≡ status_ok)
tick-worst_example =
    tick-worst flat host host "s1" "s2" noon noon (noon + 60 * second) warned_and_failed agent

-- A load that reaches 85, stays, falls below and reaches it again.
abbrev measured : List (Float64 × Float64)
measured =
    (eighty_five_f, ninety_f)
    ∷ (eighty_five_f, hundred_f)
    ∷ (eighty_five_f, one_f)
    ∷ (eighty_five_f, eighty_five_f)
    ∷ []

edges_test : edges measured false ≡ true ∷ false ∷ false ∷ true ∷ []
unfolding edges lef ltf
edges_test = refl

-- An interface whose counter was reset from 10 to 3.
abbrev eth_at : ℕ → Assoc IoCounters
eth_at n = ("eth0", record { name = "eth0"; bytes_sent = n; bytes_recv = 20 }) ∷ []

abbrev round : Round
round = record { now = noon; sending = host; warning = host; fresh = "p1"; outcome = none }

network_round-IsMeasured_example :
    (network_round flat round (some (eth_at 10), 5) (none, 9) agent
      ≡ ((some (eth_at 10), 5), (agent, [])))
    × (((9 ≤ 5)
          × (network_round flat round (some (eth_at 10), 5) (some (eth_at 3), 9) agent
              ≡ ((some (eth_at 3), 9), (agent, []))))
        ⊎ ((5 < 9)
            × ((batch : List MetricPoint) × (network_round flat round
                    (some (eth_at 10), 5)
                    (some (eth_at 3), 9)
                    agent
                  ≡ ((some (eth_at 3), 9), send_batch round batch agent))
                × All (IsMeasured flat round 4 agent (eth_at 10) (eth_at 3)) batch
                × All (IsCovered flat round 4 agent batch (eth_at 10)) (eth_at 3))))
network_round-IsMeasured_example =
    network_round-IsMeasured flat round (eth_at 10) (eth_at 3) 5 9 agent
      ((omega arith, omega arith), tt) ((omega arith, omega arith), tt)

abbrev responses : List Response
responses =
    none
    ∷ some (500, none)
    ∷ some
        (200, some (encode_warn (record { cpu_warn = one_f; mem_warn = one_f; disk_warn = one_f })))
    ∷ some (
      200,
      some (encode_warn (record { cpu_warn = zero_f; mem_warn = one_f; disk_warn = one_f })),
    )
    ∷ []

new_thresholds-IsUsable : IsUsable new_thresholds
unfolding ltf
new_thresholds-IsUsable = record { cpu_positive = refl; mem_positive = refl; disk_positive = refl }

poll_config-IsUsable_example : IsUsable (poll_config "http://api:8082" responses new_thresholds)
poll_config-IsUsable_example =
    poll_config-IsUsable "http://api:8082" responses new_thresholds new_thresholds-IsUsable

polled :
    poll_config "http://api:8082" responses new_thresholds
    ≡ record { cpu = one_f; mem = one_f; disk = one_f }
unfolding poll_config decode_warn all_positive ltf struct_into members_into float_into Option.bind
    is_finite
polled = refl

abbrev pass : Float64 → CpuSample
pass percent = record {
  round = record { now = noon; sending = host; warning = host; fresh = "p1"; outcome = none };
  threshold = eighty_five_f;
  counts = 4;
  percent = some percent;
}

abbrev loaded_passes : List CpuSample
loaded_passes = pass ninety_f ∷ pass one_f ∷ pass hundred_f ∷ []

abbrev reading : Float64 → MemorySample
reading percent = record {
  round = record { now = noon; sending = host; warning = host; fresh = "p1"; outcome = none };
  threshold = ninety_f;
  reading = some (record { total = 16; used = 8; available = 8; used_percent = percent });
}

abbrev full_readings : List MemorySample
full_readings = reading hundred_f ∷ reading hundred_f ∷ []

loops-warnings_example :
    (log_levels (cpu_loop flat loaded_passes false agent).1
      ≡ warn_levels (warnings [] (samples_of loaded_passes)))
    × (log_levels (memory_loop flat full_readings false agent).1
        ≡ warn_levels (warnings [] (readings_of full_readings)))
loops-warnings_example =
    loops-warnings flat loaded_passes full_readings agent (refl, (refl, (refl, tt)))
      (refl, (refl, tt)) refl

two_warnings : warn_levels (warnings [] (samples_of loaded_passes)) ≡ "warn" ∷ "warn" ∷ []
unfolding lef ltf
two_warnings = refl
