-- ===== src/Agent/Alerter.antt =====
-- Alerts to Telegram (cmd/agent/alerter.go). The response changes only the agent's own log.
use Prim.Native.String.{◌++◌}
use vkr_public.Base.{String, Bool, some, List, [], ◌∷◌, ◌==◌, ◌&&◌, not, if◌then◌else◌}
use vkr_public.Agent.Client.{Action, post}

pub record Alerter : Type 0 where
  pub token : String
  pub chat_id : String

unfoldable pub enabled : Alerter → Bool
enabled a = not (a.token == "") && not (a.chat_id == "")

-- `clock_text` is the local time as "2006-01-02 15:04:05".
unfoldable pub alert_text : String → String → String → String → String
alert_text host clock_text level message =
    (if level == "error" then "🔴" else "⚠\u{fe0f}")
    ++ " *["
    ++ level
    ++ "]* `"
    ++ message
    ++ "`\n🖥 Host: `"
    ++ host
    ++ "`\n🕐 "
    ++ clock_text

unfoldable pub alert : Alerter → String → String → String → String → List Action
unfolding enabled alert_text
alert a host clock_text level message =
    if enabled a
    then post ("https://api.telegram.org/bot" ++ a.token ++ "/sendMessage") (
        some (
          ("chat_id", a.chat_id)
          ∷ ("text", alert_text host clock_text level message)
          ∷ ("parse_mode", "Markdown")
          ∷ []))
      ∷ []
    else []
