-- ===== src/Agent/Interleaving/Sequential.antt =====
-- One loop alone: the steps are those of `send`.
use Prim.Native.String
use vkr_public.Base.{
  ap, sym, ◌∙◌, append-nil, ℕ, String, ◌≡◌, refl, true, false, Option, none, some, List, [], ◌∷◌,
  ◌++◌, arith,
}
use vkr_public.Agent.Send.{
  Agent, Surroundings, add_int32, int32_text, failure_fields, after_failure, after_success, settle,
}
use vkr_public.Agent.Send.Streak.{log_levels, send_log-levels}
use vkr_public.Agent.Interleaving.{
  Loop, cpu, memory, disk, network, Storing, is_storing, set_storing, Shared, Move, fails, loads,
  stores, Seen, logged, reset, failure_seen, success_seen, move, watch, after,
}

abbrev pub levels_seen : List Seen → List String
levels_seen [] = []
levels_seen (logged level ∷ seen) = level ∷ levels_seen seen
levels_seen (reset ∷ seen) = levels_seen seen

-- The steps of one call of send, by the error of its call.
abbrev pub steps_of : Loop → Option String → List Move
steps_of l (some e) = fails l ∷ []
steps_of l none = loads l ∷ stores l ∷ []

set_storing-set : (l : Loop) (s : Storing) → is_storing l (set_storing l true s) ≡ true
set_storing-set cpu s = refl
set_storing-set memory s = refl
set_storing-set disk s = refl
set_storing-set network s = refl

after_failure_seen :
    (w : Surroundings) (metric e : String) (a : Agent)
    → (log_levels (after_failure w metric e a).1
        ≡ levels_seen (failure_seen (add_int32 a.fail_count)))
      × ((after_failure w metric e a).0.fail_count ≡ add_int32 a.fail_count)
unfolding after_failure
after_failure_seen w metric e a =
    let counted = record a { fail_count = add_int32 a.fail_count } in
    let fields = failure_fields w metric (add_int32 a.fail_count) in
    let e₃ =
      send_log-levels w "error" "collector unreachable, metric loss in progress" a.session_id fields
        counted in
    let e₁ =
      send_log-levels w "warn" (String.◌++◌ "failed to send metric batch: " e) a.session_id fields
        counted in
    ground (arith, e₁, e₃)

after_success_seen :
    (w : Surroundings) (a : Agent)
    → (log_levels (after_success w a).1 ≡ levels_seen (success_seen a.fail_count))
      × ((after_success w a).0.fail_count ≡ 0)
unfolding after_success
after_success_seen w a =
    let told =
      send_log-levels w "info"
        (String.◌++◌ "connectivity restored after "
          (String.◌++◌ (int32_text a.fail_count) " failures"))
        a.session_id (some (("host", w.host) ∷ [])) a in
    ground (arith, told)

levels_seen-append_reset : (xs : List Seen) → levels_seen (xs ++ reset ∷ []) ≡ levels_seen xs
levels_seen-append_reset [] = refl
levels_seen-append_reset (logged level ∷ xs) = cc (levels_seen-append_reset xs)
levels_seen-append_reset (reset ∷ xs) = levels_seen-append_reset xs

load_move :
    (l : Loop) (c : ℕ) (loops : Storing)
    → is_storing l loops ≡ false
    → (move (loads l) (record { fail_count = c; loops = loops })).0
      ≡ record { fail_count = c; loops = set_storing l true loops }
unfolding move
load_move l c loops ready = rw ready refl

store_move :
    (l : Loop) (s : Shared) → is_storing l s.loops ≡ true → (move (stores l) s).0.fail_count ≡ 0
unfolding move
store_move l s busy = rw busy refl

after-success :
    (l : Loop) (c : ℕ) (loops : Storing)
    → is_storing l loops ≡ false
    → (after (loads l ∷ stores l ∷ []) (record { fail_count = c; loops = loops })).fail_count ≡ 0
unfolding after
after-success l c loops ready =
    ap (λ s. (move (stores l) s).0.fail_count) (load_move l c loops ready)
    ∙ store_move l _ (set_storing-set l loops)

after-failure :
    (l : Loop) (c : ℕ) (loops : Storing)
    → is_storing l loops ≡ false
    → (after (fails l ∷ []) (record { fail_count = c; loops = loops })).fail_count ≡ add_int32 c
unfolding after
after-failure l c loops ready = rw (ready, after) refl

-- With no other loop at work, a loop that is not in the middle of a call logs in its steps exactly
-- the levels that `send` logs, and leaves the counter as `send` does, whatever the error of the call
-- and the count of failures.
pub settle-watch :
    (l : Loop) (w : Surroundings) (metric : String) (outcome : Option String) (a : Agent)
    (loops : Storing)
    → is_storing l loops ≡ false
    → (log_levels (settle w metric outcome a).1
        ≡ levels_seen
            (watch (steps_of l outcome) (record { fail_count = a.fail_count; loops = loops })))
      × ((settle w metric outcome a).0.fail_count
          ≡ (after
              (steps_of l outcome)
              (record { fail_count = a.fail_count; loops = loops })).fail_count)
unfolding watch after
settle-watch l w metric (some e) a loops ready =
    let (told, counter) = after_failure_seen w metric e a in
    (
      rw (ready, append-nil (failure_seen (add_int32 a.fail_count))) told,
      counter ∙ sym (after-failure l a.fail_count loops ready),
    )
settle-watch l w metric none a loops ready =
    let (told, counter) = after_success_seen w a in
    (
      rw (ready, set_storing-set l loops, levels_seen-append_reset (success_seen a.fail_count))
          told,
      counter ∙ sym (after-success l a.fail_count loops ready),
    )
