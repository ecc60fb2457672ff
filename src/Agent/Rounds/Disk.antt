-- ===== src/Agent/Rounds/Disk.antt =====
-- The loop of streamDisk (cmd/agent/collector.go), with the readings of a mount point.
pub mod Entries
pub mod Steps
pub mod Mounts
use Prim.Native.String
use vkr_public.Base.{
  ℕ, ◌+◌, String, ◌≡◌, refl, ◌∙◌, ap, sym, Bool, true, false, Option, none, some, List, [], ◌∷◌,
  ◌++◌, arith, ◌==◌, ◌||◌, ◌&&◌, if◌then◌else◌, Option-cases, Bool-cases, inl, inr, Assoc,
  StringMap, lookup, lookup-insert, eq_iff,
}
use vkr_public.Float64.{Float64, FloatOps, ltf}
use vkr_public.Wire.{PbLogEntry}
use vkr_public.Agent.Edge.{edge, edges}
use vkr_public.Agent.Edge.Alternation.{warnings, edges_start}
use vkr_public.Agent.Alerter.{alert}
use vkr_public.Agent.Send.{
  Agent, Surroundings, Result, send, send_log, after_failure, after_success, add_int32,
  failure_fields, int32_text,
}
use vkr_public.Agent.Rounds.{
  Round, Partition, DiskUsage, Scan, warn_if, disk_usage_step, disk_loop, disk_round, flag_of,
  disk_message, disk_fields, disk_points, send_batch,
}
use vkr_public.Agent.Client.{
  Action, MetricPoint, send_metrics, send_logs, send_spans, post, send_log_call, pb_log,
}

-- A pass of the loop: the threshold of its moment and the partitions, if they could be listed.
pub record DiskSample : Type 0 where
  pub round : Round
  pub threshold : Float64
  pub partitions : Option (List Partition)

unfoldable pub disk_run : FloatOps → List DiskSample → Assoc Bool → Agent → Result
unfolding disk_round
disk_run ops [] warned a = (a, [])
disk_run ops (x ∷ xs) warned a =
    let (warned', (a', calls)) = disk_round ops x.round x.threshold x.partitions warned a in
    let (a'', more) = disk_run ops xs warned' a' in (a'', calls ++ more)

-- The readings of the mount point, each with its threshold.
abbrev pub reading_of : String → Float64 → Partition → Option DiskUsage → List (Float64 × Float64)
reading_of mount threshold p none = []
reading_of mount threshold p (some u) =
    if p.mountpoint == mount then (threshold, u.used_percent) ∷ [] else []

abbrev pub readings_of : String → Float64 → List Partition → List (Float64 × Float64)
readings_of mount threshold [] = []
readings_of mount threshold (p ∷ ps) =
    reading_of mount threshold p p.usage ++ readings_of mount threshold ps

abbrev pub listed_of : String → Float64 → Option (List Partition) → List (Float64 × Float64)
listed_of mount threshold none = []
listed_of mount threshold (some ps) = readings_of mount threshold ps

abbrev pub readings_in : String → List DiskSample → List (Float64 × Float64)
readings_in mount [] = []
readings_in mount (x ∷ xs) = listed_of mount x.threshold x.partitions ++ readings_in mount xs

-- How often the edge fires.
abbrev pub fires : List Bool → ℕ
fires [] = 0
fires (b ∷ bs) = if b then fires bs + 1 else fires bs
