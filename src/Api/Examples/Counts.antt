-- ===== src/Api/Examples/Counts.antt =====
-- The API's counter of requests in a short run.
use vkr_public.Base.{◌≡◌, refl, String, ℕ, List, [], ◌∷◌}
use vkr_public.Storage.Tables.{up}
use vkr_public.Metrics.{Labels}
use vkr_public.Api.Handler.{get_metrics}
use vkr_public.Api.Router.{Request, ask_thresholds, ask_metrics, ask_health}
use vkr_public.Api.Router.Counted.{Call, run_counted}
use vkr_public.Api.Examples.{started, letters}
use vkr_public.Fixtures.{tallies, byte_order, noon, readings}

abbrev call : String → Request → Call
call header request = record { link = up; now = noon; header = header; request = request }

-- One of the two requests for metrics has the key.
abbrev calls : List Call
calls =
    call "" ask_thresholds
    ∷ call "" (ask_metrics "host-agent" "" "")
    ∷ call "secret" (ask_metrics "host-agent" "" "")
    ∷ call "" ask_health
    ∷ []

abbrev denied : Labels
denied = record { method = "GET"; path = "/api/v1/metrics"; status = "401" }

abbrev before : Labels → ℕ
before k = 0

denied_test :
    readings.value
      (run_counted tallies letters byte_order "secret" readings calls (started, before)).0.1
      denied
    ≡ 1
unfolding run_counted get_metrics
denied_test = refl
