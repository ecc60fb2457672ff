-- ===== src/Agent/Examples/Loops.antt =====
-- The agent's loops at concrete readings.
use vkr_public.Base.{◌≤◌, ◌+◌, ◌≡◌, refl, some, List, [], ◌∷◌, arith, String}
use vkr_public.Float64.{Float64, ninety_f, eighty_five_f, one_f, hundred_f, ltf, lef}
use vkr_public.Agent.Interleaving.{Loop, Shared, Move, fails, loads, stores, logged, reset, watch}
use vkr_public.Agent.Interleaving.Announcements.{
  times_logged, resets, nobody_storing, watch_announcements,
}
use vkr_public.Agent.Rounds.{Partition}
use vkr_public.Agent.Rounds.Disk.{DiskSample, disk_run, readings_in, fires}
use vkr_public.Agent.Rounds.Disk.Entries.{logs_for}
use vkr_public.Agent.Rounds.Disk.Mounts.{disk_run-warnings}
use vkr_public.Agent.Edge.Alternation.{warnings}
use vkr_public.Fixtures.{noon}
use vkr_public.Fixtures.{host, agent, flat}

-- The CPU loop has read the counter before the memory loop fails three times: the outage is reported
-- and its end is never announced.
abbrev overlapping : List Move
overlapping =
    loads Loop.cpu
    ∷ fails Loop.memory
    ∷ fails Loop.memory
    ∷ fails Loop.memory
    ∷ stores Loop.cpu
    ∷ loads Loop.memory
    ∷ stores Loop.memory
    ∷ []

abbrev calm : Shared
calm = record { fail_count = 0; loops = nobody_storing }

unannounced_end :
    watch overlapping calm ≡ logged "warn" ∷ logged "warn" ∷ logged "error" ∷ reset ∷ reset ∷ []
unfolding watch
unannounced_end = refl

watch_announcements_example :
    (times_logged "error" (watch overlapping calm) ≤ resets (watch overlapping calm) + 1)
    × (times_logged "info" (watch overlapping calm) ≤ resets (watch overlapping calm) + 4)
watch_announcements_example = watch_announcements overlapping calm (omega arith)

-- Two disks, of which one fills up, empties and fills up again.
abbrev disk_at : String → Float64 → Partition
disk_at mount percent = record {
  mountpoint = mount;
  device = "sda";
  usage = some (record { total = 100; used = 50; free = 50; used_percent = percent });
}

abbrev scan_of : Float64 → DiskSample
scan_of percent = record {
  round = record {
    now = noon;
    sending = host;
    warning = host;
    fresh = "p1";
    outcome = some "down";
  };
  threshold = eighty_five_f;
  partitions = some (disk_at "/" percent ∷ disk_at "/data" one_f ∷ []);
}

abbrev scans : List DiskSample
scans = scan_of ninety_f ∷ scan_of ninety_f ∷ scan_of one_f ∷ scan_of hundred_f ∷ []

disk_run-warnings_example :
    logs_for "/" (disk_run flat scans [] agent).1 ≡ fires (warnings [] (readings_in "/" scans))
disk_run-warnings_example = disk_run-warnings flat "/" scans agent

two_disk_warnings : fires (warnings [] (readings_in "/" scans)) ≡ 2
unfolding lef ltf
two_disk_warnings = refl
