-- ===== src/Agent/Thresholds/Polling.antt =====
-- What polling can do to the thresholds.
use vkr_public.Base.{
  String, ◌≡◌, true, Option, none, some, List, [], ◌∷◌, arith, ◌==◌, eqb, inl, inr, Bool-cases,
}
use vkr_public.Float64.{ltf, zero_f}
use vkr_public.Warn.{Warn, all_positive}
use vkr_public.Agent.Thresholds.{
  Thresholds, Response, take_warn, decoded_body, fetch, fetch_all, poll_config,
}

-- Thresholds that a sample can be compared with: positive numbers.
pub record IsUsable (t : Thresholds) : Type 0 where
  pub cpu_positive : ltf zero_f t.cpu ≡ true
  pub mem_positive : ltf zero_f t.mem ≡ true
  pub disk_positive : ltf zero_f t.disk ≡ true

take_warn-IsUsable : (o : Option Warn) (t : Thresholds) → IsUsable t → IsUsable (take_warn o t)
unfolding all_positive
take_warn-IsUsable none t u = u
take_warn-IsUsable (some c) t u = ground arith

fetch-IsUsable : (r : Response) (t : Thresholds) → IsUsable t → IsUsable (fetch r t)
unfolding fetch
fetch-IsUsable none t u = u
fetch-IsUsable (some (status, body)) t u = elim (Bool-cases (eqb status 200)) [
  | inl e ↦ rw e (take_warn-IsUsable (decoded_body body) t u)
  | inr e ↦ rw e u
]

fetch_all-IsUsable : (rs : List Response) (t : Thresholds) → IsUsable t → IsUsable (fetch_all rs t)
unfolding fetch_all
fetch_all-IsUsable [] t u = u
fetch_all-IsUsable (r ∷ rs) t u = fetch_all-IsUsable rs (fetch r t) (fetch-IsUsable r t u)

-- Whatever the configuration service answers, the agent's thresholds stay positive numbers.
pub poll_config-IsUsable :
    (api_url : String) (responses : List Response) (t : Thresholds)
    → IsUsable t
    → IsUsable (poll_config api_url responses t)
unfolding poll_config
poll_config-IsUsable api_url responses t u = elim (Bool-cases (api_url == "")) [
  | inl e ↦ rw e u
  | inr e ↦ rw e (fetch_all-IsUsable responses t u)
]
