-- ===== src/Agent/Network.antt =====
-- The network rates (cmd/agent/collector.go: netSnapshot, streamNetwork). Counters are uint64, and the
-- order in which the interfaces of a snapshot are visited is that of the snapshot.
pub mod Counters
pub mod Points
pub mod Rates
use vkr_public.Base.{
  ℕ, ◌+◌, ◌-◌, ◌%◌, ◌^◌, String, Bool, Option, none, some, List, [], ◌∷◌, ◌++◌, ◌==◌, leb,
  if◌then◌else◌, Assoc, StringMap, lookup, insert,
}
use vkr_public.Float64.{Float64, FloatOps}
use vkr_public.Instant.{Time, zero_time}
use vkr_public.Agent.Client.{MetricPoint}
use vkr_public.Agent.Send.{Agent, Result}
use vkr_public.Agent.Rounds.{Round, pt, send_batch}

pub record IoCounters : Type 0 where
  pub name : String
  pub bytes_sent : ℕ
  pub bytes_recv : ℕ

-- A snapshot: no counters and the zero time where they could not be read.
abbrev pub Snapshot : Type 0
Snapshot = Option (Assoc IoCounters) × Time

-- The loop of netSnapshot, which leaves the loopback interface out.
unfoldable pub collect : List IoCounters → Assoc IoCounters → Assoc IoCounters
unfolding insert
collect [] m = m
collect (s ∷ ss) m = collect ss (if s.name == "lo" then m else insert s.name s m)

unfoldable pub net_snapshot : Option (List IoCounters) → Time → Snapshot
unfolding collect
net_snapshot none now = (none, zero_time)
net_snapshot (some stats) now = (some (collect stats []), now)

-- a - b of uint64
unfoldable pub sub64 : ℕ → ℕ → ℕ
sub64 a b = (a + 2 ^ 64 - b) % 2 ^ 64

abbrev interface_labels : Round → String → StringMap
interface_labels r name = some (("host", r.sending.host) ∷ ("interface", name) ∷ [])

module _ (ops : FloatOps) where
  unfoldable pub interface_points :
      Round → Float64 → Agent → String → IoCounters → Option IoCounters → List MetricPoint
  unfolding pt sub64
  interface_points r elapsed a name c none = []
  interface_points r elapsed a name c (some p) =
      let labels = interface_labels r name in
      pt "net_bytes_sent_total" (ops.of_uint c.bytes_sent) labels r.now a
      ∷ pt "net_bytes_recv_total" (ops.of_uint c.bytes_recv) labels r.now a
      ∷ pt "net_bytes_sent_per_sec"
          (ops.quotient (ops.of_uint (sub64 c.bytes_sent p.bytes_sent)) elapsed) labels r.now a
      ∷ pt "net_bytes_recv_per_sec"
          (ops.quotient (ops.of_uint (sub64 c.bytes_recv p.bytes_recv)) elapsed) labels r.now a
      ∷ []

  -- An interface that the snapshot before did not have is passed over.
  unfoldable pub network_batch :
      Round → Float64 → Agent → Assoc IoCounters → Assoc IoCounters → List MetricPoint
  unfolding interface_points lookup
  network_batch r elapsed a prev [] = []
  network_batch r elapsed a prev ((name, c) ∷ cur) =
      interface_points r elapsed a name c (lookup name prev) ++ network_batch r elapsed a prev cur

  abbrev held : Option (Assoc IoCounters) → Assoc IoCounters
  held none = []
  held (some m) = m

  -- A round from one snapshot to the next: the snapshot that is kept, and what was sent.
  unfoldable pub network_round : Round → Snapshot → Snapshot → Agent → Snapshot × Result
  unfolding network_batch
  network_round r prev (none, t) a = (prev, (a, []))
  network_round r prev (some cur, t) a = if leb t prev.1 then ((some cur, t), (a, [])) else (
    (some cur, t),
    send_batch r (network_batch r (ops.seconds (t - prev.1)) a (held prev.0) cur) a,
  )
