-- ===== src/Agent/Rounds.antt =====
-- One round of each sampling loop (cmd/agent/collector.go: streamCPU, streamMemory, streamDisk).
-- The measurements and the results of the calls are arguments. The conversions and the division of
-- floats are parameters.
pub mod Cpu
pub mod MemoryLoop
pub mod Disk
use Prim.Native.String
use vkr_public.Base.{
  ℕ, String, Bool, true, false, Option, none, some, List, [], ◌∷◌, ◌++◌, ◌||◌, if◌then◌else◌, Assoc,
  StringMap, lookup, insert,
}
use vkr_public.Float64.{Float64, FloatOps, ltf}
use vkr_public.Instant.{Time}
use vkr_public.Agent.Client.{MetricPoint}
use vkr_public.Agent.Edge.{edge}
use vkr_public.Agent.Send.{Agent, Surroundings, Result, send, send_log}

unfoldable pub pt : String → Float64 → StringMap → Time → Agent → MetricPoint
pt name value labels t a = record {
  service_name = a.service_name;
  metric_name = name;
  value = value;
  labels = labels;
  timestamp = t;
}

-- What a round reads besides its sample: the clock of the points, the surroundings of `send` and
-- those of the warning, the parent span identifier and the error of the call.
pub record Round : Type 0 where
  pub now : Time
  pub sending : Surroundings
  pub warning : Surroundings
  pub fresh : String
  pub outcome : Option String

infixl 5 ◌then_do◌
abbrev pub ◌then_do◌ : Result → (Agent → Result) → Result
r then_do f = ((f r.0).0, r.1 ++ (f r.0).1)

abbrev pub host_labels : Surroundings → StringMap
host_labels w = some (("host", w.host) ∷ [])

-- `sendLog` of a warning, when the edge says so.
unfoldable pub warn_if : Bool → Surroundings → String → StringMap → Agent → Result
warn_if false w message fields a = (a, [])
warn_if true w message fields a = send_log w "warn" message a.session_id fields a

abbrev percent_message : String → String → String
percent_message what text = String.◌++◌ what (String.◌++◌ text "%")

abbrev value_fields : Surroundings → String → StringMap
value_fields w text = some (("host", w.host) ∷ ("value", text) ∷ [])

pub record Memory : Type 0 where
  pub total : ℕ
  pub used : ℕ
  pub available : ℕ
  pub used_percent : Float64

pub record DiskUsage : Type 0 where
  pub total : ℕ
  pub used : ℕ
  pub free : ℕ
  pub used_percent : Float64

-- A partition with its usage, or none where that could not be read.
pub record Partition : Type 0 where
  pub mountpoint : String
  pub device : String
  pub usage : Option DiskUsage

-- The state of the loop over the partitions.
pub record Scan : Type 0 where
  pub warned : Assoc Bool
  pub batch : List MetricPoint
  pub result : Result

-- A batch is sent unless it is empty.
abbrev pub send_batch : Round → List MetricPoint → Agent → Result
send_batch r [] a = (a, [])
send_batch r (m ∷ ms) a = send r.sending r.fresh m ms r.outcome a

abbrev flag_of : Option Bool → Bool
flag_of none = false
flag_of (some b) = b

module _ (ops : FloatOps) where
  -- `none` is a failed or empty measurement; `counts` is the number of CPUs.
  unfoldable pub cpu_round : Round → Float64 → ℕ → Option Float64 → Bool → Agent → Bool × Result
  unfolding edge pt warn_if
  cpu_round r threshold counts none warned a = (warned, (a, []))
  cpu_round r threshold counts (some percent) warned a =
      let labels = host_labels r.sending in
      let (warned', fire) = edge threshold percent warned in
      (
        warned',
        (send r.sending r.fresh (pt "cpu_usage_percent" percent labels r.now a)
              (pt "cpu_count" (ops.of_uint counts) labels r.now a ∷ []) r.outcome a
            then_do warn_if fire r.warning (percent_message "high CPU usage: " (ops.text_1 percent))
                (value_fields r.warning (ops.text_1 percent))),
      )

  unfoldable pub memory_round : Round → Float64 → Option Memory → Bool → Agent → Bool × Result
  unfolding edge pt warn_if
  memory_round r threshold none warned a = (warned, (a, []))
  memory_round r threshold (some v) warned a =
      let labels = host_labels r.sending in
      let (warned', fire) = edge threshold v.used_percent warned in
      (
        warned',
        (send r.sending r.fresh (pt "mem_total_bytes" (ops.of_uint v.total) labels r.now a)
              (pt "mem_used_bytes" (ops.of_uint v.used) labels r.now a
                ∷ pt "mem_available_bytes" (ops.of_uint v.available) labels r.now a
                ∷ pt "mem_usage_percent" v.used_percent labels r.now a
                ∷ [])
              r.outcome a
            then_do warn_if fire r.warning
                (percent_message "high memory usage: " (ops.text_1 v.used_percent))
                (value_fields r.warning (ops.text_1 v.used_percent))),
      )

  abbrev disk_labels : Round → Partition → StringMap
  disk_labels r p =
      some (("host", r.sending.host) ∷ ("mountpoint", p.mountpoint) ∷ ("device", p.device) ∷ [])

  abbrev disk_points : Round → Partition → DiskUsage → Agent → List MetricPoint
  disk_points r p u a =
      pt "disk_total_bytes" (ops.of_uint u.total) (disk_labels r p) r.now a
      ∷ pt "disk_used_bytes" (ops.of_uint u.used) (disk_labels r p) r.now a
      ∷ pt "disk_free_bytes" (ops.of_uint u.free) (disk_labels r p) r.now a
      ∷ pt "disk_usage_percent" u.used_percent (disk_labels r p) r.now a
      ∷ []

  abbrev disk_message : Partition → DiskUsage → String
  disk_message p u = String.◌++◌ "low disk space on " (
      String.◌++◌ p.mountpoint
        (String.◌++◌ ": " (String.◌++◌ (ops.text_1 u.used_percent) "% used")))

  abbrev disk_fields : Round → Partition → DiskUsage → StringMap
  disk_fields r p u = some (
      ("host", r.warning.host)
      ∷ ("mountpoint", p.mountpoint)
      ∷ ("value", ops.text_1 u.used_percent)
      ∷ [])

  -- A flag that is not in the map is false.
  unfoldable pub disk_usage_step : Round → Float64 → Partition → Option DiskUsage → Scan → Scan
  unfolding edge pt warn_if lookup insert
  disk_usage_step r threshold p none scan = scan
  disk_usage_step r threshold p (some u) scan =
      let (flag, fire) =
        edge threshold u.used_percent (flag_of (lookup p.mountpoint scan.warned)) in
      record {
        warned =
            if fire || ltf u.used_percent threshold
            then insert p.mountpoint flag scan.warned
            else scan.warned;
        batch = scan.batch ++ disk_points r p u scan.result.0;
        result = scan.result then_do warn_if fire r.warning (disk_message p u) (disk_fields r p u);
      }

  unfoldable pub disk_loop : Round → Float64 → List Partition → Scan → Scan
  unfolding disk_usage_step
  disk_loop r threshold [] scan = scan
  disk_loop r threshold (p ∷ ps) scan =
      disk_loop r threshold ps (disk_usage_step r threshold p p.usage scan)

  abbrev finish_scan : Round → Scan → Assoc Bool × Result
  finish_scan r scan = (scan.warned, (scan.result then_do send_batch r scan.batch))

  -- `none` is a failed listing of the partitions.
  unfoldable pub disk_round :
      Round → Float64 → Option (List Partition) → Assoc Bool → Agent → Assoc Bool × Result
  unfolding disk_loop
  disk_round r threshold none warned a = (warned, (a, []))
  disk_round r threshold (some ps) warned a =
      finish_scan r
        (disk_loop r threshold ps (record { warned = warned; batch = []; result = (a, []) }))
