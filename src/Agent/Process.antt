-- ===== src/Agent/Process.antt =====
-- The agent process (cmd/agent/main.go): its start, and all that main does up to its end.
use vkr_public.Base.{String, Option, [], ◌∷◌}
use vkr_public.Startup.{Startup, running, must}
use vkr_public.Lifecycle.{
  signals, grpc_connection, leaking, logs, runs, starts, Main, body, opening, required,
}
use vkr_public.Config.{load_agent}
use vkr_public.Agent.Thresholds.{Thresholds, new_thresholds}
use vkr_public.Agent.Alerter.{Alerter}

pub record Agent : Type 0 where
  pub service_name : String
  pub collector : String
  pub api_url : String
  pub thresholds : Thresholds
  pub alerter : Alerter

-- `client_error` is that of grpc.NewClient, which does not connect yet.
unfoldable pub start_agent : (String → String) → (client_error : Option String) → Startup Agent
unfolding load_agent
start_agent getenv client_error = must client_error "grpc connect" (
    running (record {
      service_name = (load_agent getenv).service_name;
      collector = (load_agent getenv).collector_grpc;
      api_url = (load_agent getenv).api_url;
      thresholds = new_thresholds;
      alerter = record {
        token = (load_agent getenv).telegram_token;
        chat_id = (load_agent getenv).telegram_chat_id;
      };
    }))

-- newCollectorClient opens the connection to the collector, which nothing closes.
unfoldable pub main_agent : (client_error : Option String) → Main
main_agent client_error = opening signals (
    required client_error "grpc connect" (
      leaking grpc_connection (
        body
          (starts "pollConfig" ∷ logs "agent started" ∷ runs "loops" ∷ logs "agent stopped" ∷ []))))
