-- ===== src/Agent/Interleaving/Announcements.antt =====
-- What the agent announces of an outage while its loops run side by side.
use vkr_public.Base.{
  ℕ, ◌+◌, ◌^◌, ◌≤◌, ◌<◌, String, ◌≡◌, refl, inl, inr, Bool, true, false, List, [], ◌∷◌, ◌++◌, arith,
  ◌==◌, ltb, length, if◌then◌else◌, Bool-cases,
}
use vkr_public.Agent.Send.{add_int32}
use vkr_public.Agent.Interleaving.{
  Loop, cpu, memory, disk, network, Storing, is_storing, set_storing, Shared, Move, fails, loads,
  stores, Seen, logged, reset, failure_seen, success_seen, move, watch,
}

abbrev bit : Bool → ℕ
bit true = 1
bit false = 0

-- How many loops have yet to store.
abbrev busy : Storing → ℕ
busy s = bit s.cpu_storing + (bit s.memory_storing + (bit s.disk_storing + bit s.network_storing))

-- How often a level is logged, and how often the counter is set to 0.
abbrev pub times_logged : String → List Seen → ℕ
times_logged level [] = 0
times_logged level (reset ∷ seen) = times_logged level seen
times_logged level (logged other ∷ seen) =
    let n = times_logged level seen in if other == level then n + 1 else n

abbrev pub resets : List Seen → ℕ
resets [] = 0
resets (reset ∷ seen) = resets seen + 1
resets (logged other ∷ seen) = resets seen

busy-set_true :
    (l : Loop) (s : Storing) → is_storing l s ≡ false → busy (set_storing l true s) ≡ busy s + 1
busy-set_true cpu s h = rw h (omega arith)
busy-set_true memory s h = rw h (omega arith)
busy-set_true disk s h = rw h (omega arith)
busy-set_true network s h = rw h (omega arith)

busy-set_false :
    (l : Loop) (s : Storing) → is_storing l s ≡ true → busy (set_storing l false s) + 1 ≡ busy s
busy-set_false cpu s h = rw h (omega arith)
busy-set_false memory s h = rw h (omega arith)
busy-set_false disk s h = rw h (omega arith)
busy-set_false network s h = rw h (omega arith)

bit_le : (b : Bool) → bit b ≤ 1
bit_le true = omega arith
bit_le false = omega arith

busy_le : (s : Storing) → busy s ≤ 4
busy_le s = omega (
  arith,
  bit_le s.cpu_storing,
  bit_le s.memory_storing,
  bit_le s.disk_storing,
  bit_le s.network_storing,
)

-- Whether the third failure is still to come.
abbrev credit : ℕ → ℕ
credit c = bit (ltb c 3)

add_int32_le : (c : ℕ) → c + 1 < 2 ^ 31 → add_int32 c ≤ c + 1
add_int32_le c short = omega arith

failure_seen-resets : (fc : ℕ) → resets (failure_seen fc) ≡ 0
failure_seen-resets fc = ground arith

failure_seen-info : (fc : ℕ) → times_logged "info" (failure_seen fc) ≡ 0
failure_seen-info fc = ground arith

failure_seen-error :
    (c : ℕ)
    → c + 1 < 2 ^ 31
    → times_logged "error" (failure_seen (add_int32 c)) + credit (add_int32 c) ≤ credit c
failure_seen-error c short = ground arith

success_seen-resets : (fc : ℕ) → resets (success_seen fc) ≡ 0
success_seen-resets fc = ground arith

success_seen-error : (fc : ℕ) → times_logged "error" (success_seen fc) ≡ 0
success_seen-error fc = ground arith

success_seen-info : (fc : ℕ) → times_logged "info" (success_seen fc) ≤ 1
success_seen-info fc = ground arith

-- What one move adds is paid by what it leaves.
move_budget :
    (m : Move) (s : Shared)
    → s.fail_count + 1 < 2 ^ 31
    → (times_logged "error" (move m s).1 + credit (move m s).0.fail_count
        ≤ resets (move m s).1 + credit s.fail_count)
      × (times_logged "info" (move m s).1 + busy s.loops
          ≤ resets (move m s).1 + busy (move m s).0.loops)
      × ((move m s).0.fail_count ≤ s.fail_count + 1)
unfolding move
move_budget (fails l) s short = elim (Bool-cases (is_storing l s.loops)) [
  | inl b ↦ rw b (omega arith, omega arith, omega arith)
  | inr b ↦ rw b (
    omega (
      arith,
      failure_seen-error s.fail_count short,
      failure_seen-resets (add_int32 s.fail_count),
    ),
    omega (arith, failure_seen-info (add_int32 s.fail_count)),
    add_int32_le s.fail_count short,
  )
]
move_budget (loads l) s short = elim (Bool-cases (is_storing l s.loops)) [
  | inl b ↦ rw b (omega arith, omega arith, omega arith)
  | inr b ↦ rw b (
    omega (arith, success_seen-error s.fail_count),
    omega (arith, success_seen-info s.fail_count, busy-set_true l s.loops b),
    omega arith,
  )
]
move_budget (stores l) s short = elim (Bool-cases (is_storing l s.loops)) [
  | inl b ↦ rw b (omega arith, omega (arith, busy-set_false l s.loops b), omega arith)
  | inr b ↦ rw b (omega arith, omega arith, omega arith)
]

times_logged-append :
    (level : String) (xs ys : List Seen)
    → times_logged level (xs ++ ys) ≡ times_logged level xs + times_logged level ys
times_logged-append level [] ys = omega arith
times_logged-append level (reset ∷ xs) ys = times_logged-append level xs ys
times_logged-append level (logged other ∷ xs) ys = ground (arith, times_logged-append level xs ys)

resets-append : (xs ys : List Seen) → resets (xs ++ ys) ≡ resets xs + resets ys
resets-append [] ys = omega arith
resets-append (reset ∷ xs) ys = omega (arith, resets-append xs ys)
resets-append (logged other ∷ xs) ys = resets-append xs ys

watch_budget :
    (ms : List Move) (s : Shared)
    → s.fail_count + length ms < 2 ^ 31
    → (times_logged "error" (watch ms s) ≤ resets (watch ms s) + credit s.fail_count)
      × (times_logged "info" (watch ms s) + busy s.loops ≤ resets (watch ms s) + 4)
unfolding watch
watch_budget [] s short = (omega arith, omega (arith, busy_le s.loops))
watch_budget (m ∷ ms) s short =
    let (errors, infos, small) = move_budget m s (omega arith) in
    let (later_errors, later_infos) = watch_budget ms (move m s).0 (omega (arith, small)) in
    (
      rw
          (
            times_logged-append "error" (move m s).1 (watch ms (move m s).0),
            resets-append (move m s).1 (watch ms (move m s).0),
          )
          (omega (arith, errors, later_errors)),
      rw
          (
            times_logged-append "info" (move m s).1 (watch ms (move m s).0),
            resets-append (move m s).1 (watch ms (move m s).0),
          )
          (omega (arith, infos, later_infos)),
    )

-- However the steps of the four loops interleave, in a run with fewer than 2^31 steps and failures
-- before it, "collector unreachable" is logged as an error at most once more often than the counter
-- is set to 0, and the restored connection is announced at most four times more often.
pub watch_announcements :
    (ms : List Move) (s : Shared)
    → s.fail_count + length ms < 2 ^ 31
    → (times_logged "error" (watch ms s) ≤ resets (watch ms s) + 1)
      × (times_logged "info" (watch ms s) ≤ resets (watch ms s) + 4)
watch_announcements ms s short =
    let (errors, infos) = watch_budget ms s short in
    (omega (arith, errors, bit_le (ltb s.fail_count 3)), omega (arith, infos))

success_seen-restored : (c : ℕ) → 2 < c → c < 2 ^ 31 → success_seen c ≡ logged "info" ∷ []
success_seen-restored c long short = ground arith

abbrev pub nobody_storing : Storing
nobody_storing = record {
  cpu_storing = false;
  memory_storing = false;
  disk_storing = false;
  network_storing = false;
}

abbrev pub at_once : List Move
at_once =
    loads cpu
    ∷ loads memory
    ∷ loads disk
    ∷ loads network
    ∷ stores cpu
    ∷ stores memory
    ∷ stores disk
    ∷ stores network
    ∷ []

-- Where the calls of the four loops succeed at the same time after an outage of three failures or
-- more, its end is announced four times.
pub outage_announced_by_each :
    (c : ℕ)
    → 2 < c
    → c < 2 ^ 31
    → watch at_once (record { fail_count = c; loops = nobody_storing })
      ≡ logged "info"
        ∷ logged "info"
        ∷ logged "info"
        ∷ logged "info"
        ∷ reset
        ∷ reset
        ∷ reset
        ∷ reset
        ∷ []
unfolding watch
outage_announced_by_each c long short = rw (success_seen-restored c long short) refl
