-- ===== src/Agent/Interleaving.antt =====
-- The four sampling loops send at the same time (cmd/agent/collector.go: Run, send). They share the
-- counter of failures, an atomic int32: a failed call adds 1 to it, and after a call that succeeds a
-- loop reads it, announces the end of an outage, and stores 0. The steps of different loops come in
-- any order.
pub mod Announcements
pub mod Sequential
use vkr_public.Base.{
  ℕ, zero, suc, ◌+◌, String, Bool, true, false, List, [], ◌∷◌, ◌++◌, eqb, if◌then◌else◌,
}
use vkr_public.Agent.Send.{add_int32, is_positive_over}

pub data Loop : Type 0 where
  cpu memory disk network : Loop

-- The loops that have read the counter and not stored it yet.
pub record Storing : Type 0 where
  pub cpu_storing : Bool
  pub memory_storing : Bool
  pub disk_storing : Bool
  pub network_storing : Bool

abbrev pub is_storing : Loop → Storing → Bool
is_storing cpu s = s.cpu_storing
is_storing memory s = s.memory_storing
is_storing disk s = s.disk_storing
is_storing network s = s.network_storing

abbrev pub set_storing : Loop → Bool → Storing → Storing
set_storing cpu b s = record s { cpu_storing = b }
set_storing memory b s = record s { memory_storing = b }
set_storing disk b s = record s { disk_storing = b }
set_storing network b s = record s { network_storing = b }

pub record Shared : Type 0 where
  pub fail_count : ℕ
  pub loops : Storing

-- A call of a loop fails, or succeeds and the loop reads the counter, or the loop stores 0.
pub data Move : Type 0 where
  fails loads stores : Loop → Move

-- What is seen of a move: a log entry by its level, or the counter set to 0.
pub data Seen : Type 0 where
  logged : String → Seen
  reset : Seen

abbrev pub failure_seen : ℕ → List Seen
failure_seen fc =
    if eqb fc 3
    then logged "error" ∷ []
    else if is_positive_over 3 fc
    then []
    else logged "warn" ∷ []

abbrev pub success_seen : ℕ → List Seen
success_seen fc = if is_positive_over 2 fc then logged "info" ∷ [] else []

-- A loop that has yet to store can do nothing else, and one that has not read the counter does not
-- store.
unfoldable pub move : Move → Shared → Shared × List Seen
move (fails l) s =
    if is_storing l s.loops
    then (s, [])
    else (record s { fail_count = add_int32 s.fail_count }, failure_seen (add_int32 s.fail_count))
move (loads l) s =
    if is_storing l s.loops
    then (s, [])
    else (record s { loops = set_storing l true s.loops }, success_seen s.fail_count)
move (stores l) s =
    if is_storing l s.loops
    then (record { fail_count = 0; loops = set_storing l false s.loops }, reset ∷ [])
    else (s, [])

-- What is seen of a run.
unfoldable pub watch : List Move → Shared → List Seen
unfolding move
watch [] s = []
watch (m ∷ ms) s = (move m s).1 ++ watch ms (move m s).0

-- The counter and the loops after it.
unfoldable pub after : List Move → Shared → Shared
unfolding move
after [] s = s
after (m ∷ ms) s = after ms (move m s).0
