-- ===== src/Config/Defaults.antt =====
-- What the optional settings turn off.
use vkr_public.Base.{String, ◌≡◌, refl, true, List, []}
use vkr_public.Agent.Thresholds.{Thresholds, Response, poll_config}
use vkr_public.Agent.Alerter.{Alerter, alert}
use vkr_public.Api.Router.{passes}
use vkr_public.Config.{load_api, load_agent}

-- newAlerter of the agent's configuration.
abbrev pub configured_alerter : (String → String) → Alerter
configured_alerter getenv = record {
  token = (load_agent getenv).telegram_token;
  chat_id = (load_agent getenv).telegram_chat_id;
}

-- Where API_URL, TELEGRAM_TOKEN and API_KEY are not set, the agent keeps its thresholds whatever a
-- service would answer and alerts nobody, and the API lets every request on, whatever key it shows.
pub load_agent_optional :
    (getenv : String → String) (responses : List Response) (t : Thresholds)
    (host clock_text level message header : String)
    → getenv "API_URL" ≡ ""
    → getenv "TELEGRAM_TOKEN" ≡ ""
    → getenv "API_KEY" ≡ ""
    → (poll_config (load_agent getenv).api_url responses t ≡ t)
      × (alert (configured_alerter getenv) host clock_text level message ≡ [])
      × (passes (load_api getenv).api_key header ≡ true)
unfolding load_agent load_api poll_config alert passes
load_agent_optional getenv responses t host clock_text level message header u k a =
    (rw u refl, rw k refl, rw a refl)
