-- ===== src/Agent/Thresholds.antt =====
-- The thresholds of the agent and their polling (cmd/agent/config_poller.go). The fields are read and
-- written under a lock, all three at once.
pub mod Polling
use vkr_public.Base.{ℕ, String, Bool, Option, none, some, List, [], ◌∷◌, ◌==◌, eqb, if◌then◌else◌}
use vkr_public.Float64.{Float64, eighty_five_f, ninety_f}
use vkr_public.Json.{Json}
use vkr_public.Warn.{Warn, decode_warn, all_positive}

pub record Thresholds : Type 0 where
  pub cpu : Float64
  pub mem : Float64
  pub disk : Float64

abbrev pub new_thresholds : Thresholds
new_thresholds = record { cpu = eighty_five_f; mem = ninety_f; disk = ninety_f }

-- What a GET gives: `none` where the request or the connection fails; else the status, and the body
-- as JSON if it is JSON.
abbrev pub Response : Type 0
Response = Option (ℕ × Option Json)

abbrev take_warn : Option Warn → Thresholds → Thresholds
take_warn none t = t
take_warn (some c) t =
    if all_positive c then record { cpu = c.cpu_warn; mem = c.mem_warn; disk = c.disk_warn } else t

abbrev decoded_body : Option Json → Option Warn
decoded_body none = none
decoded_body (some j) = decode_warn j

unfoldable pub fetch : Response → Thresholds → Thresholds
fetch none t = t
fetch (some (status, body)) t = if eqb status 200 then take_warn (decoded_body body) t else t

unfoldable pub fetch_all : List Response → Thresholds → Thresholds
unfolding fetch
fetch_all [] t = t
fetch_all (r ∷ rs) t = fetch_all rs (fetch r t)

-- The responses are those of the first fetch and of one fetch for each tick until the agent stops.
unfoldable pub poll_config : String → List Response → Thresholds → Thresholds
unfolding fetch_all
poll_config api_url responses t = if api_url == "" then t else fetch_all responses t
