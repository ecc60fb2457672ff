-- ===== src/Agent/Send/Streak.antt =====
-- What the agent logs during an outage of the collector and after it.
use Prim.Native.String
use vkr_public.Base.{
  ℕ, zero, suc, ◌+◌, ◌^◌, ◌<◌, ◌≤◌, String, ◌≡◌, refl, none, some, List, [], ◌∷◌, ◌++◌, arith, ltb,
  eqb, if◌then◌else◌, take, drop, length, StringMap, append_assoc, sym,
}
use vkr_public.Wire.{PbLogEntry}
use vkr_public.Agent.Client.{MetricPoint, Action, send_metrics, send_logs, send_spans, post}
use vkr_public.Agent.Status.{status_warn, status_error}
use vkr_public.Agent.Send.{
  Agent, Surroundings, Result, send_log, add_int32, int32_text, failure_fields, after_failure,
  after_success, send,
}

-- The levels of the log entries that are sent.
abbrev levels_of : List PbLogEntry → List String
levels_of [] = []
levels_of (e ∷ es) = e.level ∷ levels_of es

abbrev pub log_levels : List Action → List String
log_levels [] = []
log_levels (send_logs es ∷ rest) = levels_of es ++ log_levels rest
log_levels (send_metrics md ms ∷ rest) = log_levels rest
log_levels (send_spans ss ∷ rest) = log_levels rest
log_levels (post url body ∷ rest) = log_levels rest

pub send_log-levels :
    (w : Surroundings) (level message trace_id : String) (fields : StringMap) (a : Agent)
    → (log_levels (send_log w level message trace_id fields a).1 ≡ level ∷ [])
      × ((send_log w level message trace_id fields a).0.fail_count ≡ a.fail_count)
unfolding send_log
send_log-levels w level message trace_id fields a = ground arith

-- The level that failure number `c + 1` of an outage is logged with.
abbrev announced : ℕ → List String
announced c = if ltb c 2 then status_warn ∷ [] else if eqb c 2 then status_error ∷ [] else []

after_failure-levels :
    (w : Surroundings) (metric e : String) (a : Agent)
    → a.fail_count + 1 < 2 ^ 31
    → (log_levels (after_failure w metric e a).1 ≡ announced a.fail_count)
      × ((after_failure w metric e a).0.fail_count ≡ a.fail_count + 1)
unfolding after_failure
after_failure-levels w metric e a h =
    let counted = record a { fail_count = add_int32 a.fail_count } in
    let fields = failure_fields w metric (add_int32 a.fail_count) in
    let e₃ =
      send_log-levels w "error" "collector unreachable, metric loss in progress" a.session_id fields
        counted in
    let e₁ =
      send_log-levels w "warn" (String.◌++◌ "failed to send metric batch: " e) a.session_id fields
        counted in
    ground (arith, e₁, e₃)

pub after_success-levels :
    (w : Surroundings) (a : Agent)
    → a.fail_count < 2 ^ 31
    → (log_levels (after_success w a).1 ≡ (if ltb 2 a.fail_count then "info" ∷ [] else []))
      × ((after_success w a).0.fail_count ≡ 0)
unfolding after_success
after_success-levels w a h =
    let e =
      send_log-levels w "info"
        (String.◌++◌ "connectivity restored after "
          (String.◌++◌ (int32_text a.fail_count) " failures"))
        a.session_id (some (("host", w.host) ∷ [])) a in
    ground (arith, e)

-- One call of `send`: its surroundings, the parent span identifier and the batch.
pub record Sending : Type 0 where
  pub surroundings : Surroundings
  pub fresh : String
  pub first : MetricPoint
  pub others : List MetricPoint

-- An outage: each of these batches fails, with its error, and then one gets through.
abbrev pub failing : List (Sending × String) → Agent → Result
failing [] a = (a, [])
failing ((x, e) ∷ xs) a =
    let (a', calls) = send x.surroundings x.fresh x.first x.others (some e) a in
    let (a'', more) = failing xs a' in (a'', calls ++ more)

abbrev pub outage : List (Sending × String) → Sending → Agent → Result
outage xs x a =
    let (a', calls) = failing xs a in
    let (a'', more) = send x.surroundings x.fresh x.first x.others none a' in (a'', calls ++ more)

pub log_levels-append :
    (xs ys : List Action) → log_levels (xs ++ ys) ≡ log_levels xs ++ log_levels ys
log_levels-append [] ys = refl
log_levels-append (send_logs es ∷ xs) ys =
    rw (log_levels-append xs ys) (sym (append_assoc (levels_of es) (log_levels xs) (log_levels ys)))
log_levels-append (send_metrics md ms ∷ xs) ys = log_levels-append xs ys
log_levels-append (send_spans ss ∷ xs) ys = log_levels-append xs ys
log_levels-append (post url body ∷ xs) ys = log_levels-append xs ys

-- The levels that remain to be announced after `c` failures.
abbrev pending : ℕ → List String
pending c = drop c (status_warn ∷ status_warn ∷ status_error ∷ [])

drop-nil : (n : ℕ) → drop {A = String} n [] ≡ []
drop-nil zero = refl
drop-nil (suc n) = refl

take-nil : (n : ℕ) → take {A = String} n [] ≡ []
take-nil zero = refl
take-nil (suc n) = refl

pending-eq-nil : (c : ℕ) → 3 ≤ c → pending c ≡ []
pending-eq-nil zero h = absurd (omega arith)
pending-eq-nil (suc zero) h = absurd (omega arith)
pending-eq-nil (suc (suc zero)) h = absurd (omega arith)
pending-eq-nil (suc (suc (suc c))) h = drop-nil c

announced-eq-nil : (c : ℕ) → 3 ≤ c → announced c ≡ []
announced-eq-nil c h = ground arith

pending-step : (c k : ℕ) → announced c ++ take k (pending (c + 1)) ≡ take (suc k) (pending c)
pending-step zero k = refl
pending-step (suc zero) k = refl
pending-step (suc (suc zero)) zero = refl
pending-step (suc (suc zero)) (suc k) = refl
pending-step (suc (suc (suc c))) k =
    let late : 3 ≤ suc (suc (suc c)) = omega arith in
    rw (
      announced-eq-nil (suc (suc (suc c))) late,
      pending-eq-nil (suc (suc (suc c)) + 1) (omega arith),
      drop-nil c,
      take-nil k,
      take-nil (suc k),
    )

failing-levels :
    (xs : List (Sending × String)) (a : Agent)
    → a.fail_count + length xs < 2 ^ 31
    → (log_levels (failing xs a).1 ≡ take (length xs) (pending a.fail_count))
      × ((failing xs a).0.fail_count ≡ a.fail_count + length xs)
unfolding send
failing-levels [] a h = (refl, omega arith)
failing-levels ((x, e) ∷ xs) a h =
    let (levels, count) =
      after_failure-levels x.surroundings x.first.metric_name e a (omega arith) in
    let a' = (after_failure x.surroundings x.first.metric_name e a).0 in
    let (more, total) = failing-levels xs a' (omega (arith, count)) in
    (
      rw (log_levels-append, levels, more, count) (pending-step a.fail_count (length xs)),
      omega (arith, count, total),
    )

-- In an outage of fewer than 2³¹ failing batches after a success, the first two failures are logged
-- as warnings, the third as an error and no later one; the first batch that gets through logs an
-- entry of level info exactly where three or more had failed. Then the counter is 0 again.
pub outage-levels :
    (xs : List (Sending × String)) (x : Sending) (a : Agent)
    → a.fail_count ≡ 0
    → length xs < 2 ^ 31
    → (log_levels (outage xs x a).1
        ≡ take (length xs) (status_warn ∷ status_warn ∷ status_error ∷ [])
          ++ (if ltb 2 (length xs) then "info" ∷ [] else []))
      × ((outage xs x a).0.fail_count ≡ 0)
unfolding send
outage-levels xs x a fresh short =
    let (levels, count) = failing-levels xs a (omega arith) in
    let (last, cleared) =
      after_success-levels x.surroundings (failing xs a).0 (omega (arith, count)) in
    let total : (failing xs a).0.fail_count ≡ length xs = omega (arith, count) in
    (rw (log_levels-append, levels, last, total, fresh), cleared)
