-- ===== src/Journey/Settings.antt =====
-- Thresholds on their way from a PUT at the API (cmd/api/thresholds.go) to the warnings of an agent
-- (cmd/agent/config_poller.go; cmd/agent/collector.go: streamCPU).
use vkr_public.Base.{
  not_empty, inl, inr, String, ◌≡◌, ◌≢◌, refl, true, false, ap, ◌∙◌, sym, Bool, Option, none, some,
  List, [], ◌∷◌, ◌++◌, All, ◌&&◌, eqb, if◌then◌else◌,
}
use vkr_public.Float64.{Float64, FloatOps, lef}
use vkr_public.Json.{Json}
use vkr_public.Warn.{Warn}
use vkr_public.Storage.Tables.{up}
use vkr_public.Api.Thresholds.{
  Store, bound, handle_set, handle_get, new_threshold_store, response_of,
}
use vkr_public.Api.Thresholds.Accepted.{handle_set_outcome, bound-is_finite}
use vkr_public.Api.Thresholds.Durable.{
  IsServable, IsAccepted-IsServable, new_threshold_store-handle_set, fetch-handle_get,
  bad_request-ne-ok,
}
use vkr_public.Agent.Thresholds.{Thresholds, Response, fetch, fetch_all, poll_config}
use vkr_public.Agent.Send.{Agent}
use vkr_public.Agent.Send.Streak.{log_levels}
use vkr_public.Agent.Rounds.Cpu.{CpuSample, warn_levels, cpu_loop, cpu_loop-warnings}

-- The store of the API after a PUT, or after a restart that follows it.
abbrev pub store_after : Bool → Option Json → Store → Store
store_after restarted body s =
    let kept = (handle_set up body s).0 in
    if restarted then new_threshold_store up kept.db else kept

-- No answer, or one that is not 200.
abbrev pub IsFailure : Response → Type 0
IsFailure none = Unit
IsFailure (some (status, body)) = eqb status 200 ≡ false

abbrev pub taken : Warn → Thresholds
taken c = record { cpu = c.cpu_warn; mem = c.mem_warn; disk = c.disk_warn }

put-cfg :
    (body : Option Json) (s : Store)
    → (handle_set up body s).1.status ≡ 200
    → (c : Warn) × (bound body ≡ some c) × ((handle_set up body s).0.cfg ≡ c) × IsServable c
put-cfg body s ok = elim (handle_set_outcome up body s) [
  | inl (c, good, a, now, _) ↦ (c, good, now, IsAccepted-IsServable c (bound-is_finite body good) a)
  | inr (_, _, refused) ↦ absurd (bad_request-ne-ok (sym refused ∙ ok))
]

store_after-cfg :
    (restarted : Bool) (body : Option Json) (s : Store)
    → (handle_set up body s).1.status ≡ 200
    → (store_after restarted body s).cfg ≡ (handle_set up body s).0.cfg
store_after-cfg true body s ok = new_threshold_store-handle_set body s ok
store_after-cfg false body s ok = refl

fetch_all-append :
    (xs ys : List Response) (t : Thresholds)
    → fetch_all (xs ++ ys) t ≡ fetch_all ys (fetch_all xs t)
unfolding fetch_all
fetch_all-append [] ys t = refl
fetch_all-append (x ∷ xs) ys t = fetch_all-append xs ys (fetch x t)

fetch-failure : (r : Response) (t : Thresholds) → IsFailure r → fetch r t ≡ t
unfolding fetch
fetch-failure none t h = refl
fetch-failure (some (status, body)) t h = rw h refl

fetch_all-failures : (rs : List Response) (t : Thresholds) → All IsFailure rs → fetch_all rs t ≡ t
unfolding fetch_all
fetch_all-failures [] t h = refl
fetch_all-failures (r ∷ rs) t (h, hs) =
    ap (fetch_all rs) (fetch-failure r t h) ∙ fetch_all-failures rs t hs

poll_config-taken :
    (api_url : String) (before failures : List Response) (s : Store) (c : Warn) (t : Thresholds)
    → api_url ≢ ""
    → All IsFailure failures
    → s.cfg ≡ c
    → IsServable c
    → poll_config api_url (before ++ response_of (handle_get s) ∷ failures) t ≡ taken c
unfolding poll_config fetch_all
poll_config-taken api_url before failures s c t given fail now servable =
    rw (not_empty api_url given) (
      fetch_all-append before (response_of (handle_get s) ∷ failures) t
      ∙ fetch_all-failures failures (fetch (response_of (handle_get s)) (fetch_all before t)) fail
      ∙ fetch-handle_get s (fetch_all before t) (rw now servable)
      ∙ ap taken now)

one_warning : (b : Bool) → warn_levels ((b && true) ∷ []) ≡ (if b then "warn" ∷ [] else [])
one_warning true = refl
one_warning false = refl

first_sample :
    (ops : FloatOps) (x : CpuSample) (percent threshold : Float64) (a : Agent)
    → x.threshold ≡ threshold
    → x.percent ≡ some percent
    → x.round.outcome ≡ none
    → a.fail_count ≡ 0
    → log_levels (cpu_loop ops (x ∷ []) false a).1
      ≡ (if lef threshold percent then "warn" ∷ [] else [])
first_sample ops x percent threshold a same sampled reached count =
    cpu_loop-warnings ops (x ∷ []) a (reached, tt) count
    ∙ rw (sampled, same) (one_warning (lef threshold percent))

-- A PUT of thresholds is answered 200 and the database executes its statement; the API may restart
-- after it, with a database that answers. An agent with an address to poll gets any responses, then
-- the thresholds, and then only failures. It holds the three numbers of the PUT. The first sample of
-- the CPU that it compares with them, where its batch reaches the collector and none failed before,
-- logs a warning exactly if it reaches the number for the CPU.
pub put_thresholds-warnings :
    (restarted : Bool) (body : Option Json) (s : Store) (api_url : String)
    (before failures : List Response) (t : Thresholds) (ops : FloatOps) (x : CpuSample)
    (percent : Float64) (a : Agent)
    → (handle_set up body s).1.status ≡ 200
    → api_url ≢ ""
    → All IsFailure failures
    → let polled =
        poll_config api_url
          (before ++ response_of (handle_get (store_after restarted body s)) ∷ failures)
          t in
      x.threshold ≡ polled.cpu
      → x.percent ≡ some percent
      → x.round.outcome ≡ none
      → a.fail_count ≡ 0
      → (c : Warn) × (bound body ≡ some c)
        × (polled ≡ taken c)
        × (log_levels (cpu_loop ops (x ∷ []) false a).1
            ≡ (if lef c.cpu_warn percent then "warn" ∷ [] else []))
put_thresholds-warnings restarted body s api_url before failures t ops x percent a ok given fail
      threshold sampled reached count =
    let (c, good, now, servable) = put-cfg body s ok in
    let kept = store_after-cfg restarted body s ok ∙ now in
    let polled = poll_config-taken api_url before failures _ c t given fail kept servable in
    (
      c,
      good,
      polled,
      first_sample ops x percent c.cpu_warn a (threshold ∙ ap (λ (u : Thresholds). u.cpu) polled)
          sampled reached count,
    )
