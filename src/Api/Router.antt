-- ===== src/Api/Router.antt =====
-- The routes of the API and their keys (cmd/api/router.go). What the page and the exposition of the
-- metrics hold is left out.
pub mod Guard
pub mod Stores
pub mod Counted
use vkr_public.Base.{ℕ, String, Bool, true, false, Option, List, ◌==◌, ◌&&◌, not, if◌then◌else◌}
use vkr_public.Instant.{Time, TimeText}
use vkr_public.Json.{Json}
use vkr_public.Http.{Reply}
use vkr_public.Storage.Tables.{MetricPoint, LogEntry, TraceSpan, Tables, Link}
use vkr_public.Api.Thresholds.{Store, ThresholdBody, handle_get, handle_set}
use vkr_public.Api.Handler.{Atoi, ApiBody, get_metrics, get_logs, get_trace}
use vkr_public.Api.Services.{ServicesBody, ServicesStream, get_services, stream_services}
use vkr_public.Storage.Services.{Collation}
use vkr_public.Api.Stream.{Tick, Stream, stream_metrics}

-- The requests, with their parameters; `unmatched` is a method and a path that no route has, not even
-- with a slash more or less at its end, which Gin answers with a redirect. The key of
-- a stream is a query parameter.
pub data Request : Type 0 where
  ask_thresholds : Request
  put_thresholds : Option Json → Request
  ask_metrics : (service from to : String) → Request
  ask_logs : (service level limit : String) → Request
  ask_trace : (trace_id : String) → Request
  open_stream : (service query_key : String) (first : Tick) (since : Time) → List Tick → Request
  ask_services : Request
  open_services : (query_key : String) → List (Link × Tables) → Request
  ask_health : Request
  ask_prometheus : Request
  ask_page : Request
  unmatched : (method path : String) → Request

pub data Answer : Type 0 where
  unauthorized : Answer
  of_thresholds : Reply ThresholdBody → Answer
  of_metrics : Reply (ApiBody MetricPoint) → Answer
  of_logs : Reply (ApiBody LogEntry) → Answer
  of_trace : Reply (ApiBody TraceSpan) → Answer
  of_stream : Stream → Answer
  of_services : Reply ServicesBody → Answer
  of_services_stream : ServicesStream → Answer
  healthy : Answer
  exposition : Answer
  page : Answer
  not_found : Answer

-- Whether apiKeyMiddleware lets a request on; a missing header is "".
unfoldable pub passes : (api_key header : String) → Bool
passes api_key header = if api_key == "" then true else header == api_key

abbrev guarded : Bool → Store → Store × Answer → Store × Answer
guarded true s result = result
guarded false s result = (s, unauthorized)

abbrev set_answer : Store × Reply ThresholdBody → Store × Answer
set_answer (s, r) = (s, of_thresholds r)

module _ (clock : TimeText) (atoi : Atoi) (larger_text : Collation) (api_key : String) where
  unfoldable pub serve_api : Link → Time → (header : String) → Request → Store → Store × Answer
  unfolding passes
  serve_api link now header ask_thresholds s = (s, of_thresholds (handle_get s))
  serve_api link now header (put_thresholds body) s =
      guarded (passes api_key header) s (set_answer (handle_set link body s))
  serve_api link now header (ask_metrics service from to) s =
      guarded (passes api_key header) s
        (s, of_metrics (get_metrics clock link now service from to s.db))
  serve_api link now header (ask_logs service level limit) s =
      guarded (passes api_key header) s (s, of_logs (get_logs atoi link service level limit s.db))
  serve_api link now header (ask_trace trace_id) s =
      guarded (passes api_key header) s (s, of_trace (get_trace link trace_id s.db))
  serve_api link now header (open_stream service query_key first since ticks) s =
      (s, of_stream (stream_metrics service api_key query_key first since ticks))
  serve_api link now header ask_services s =
      guarded (passes api_key header) s (s, of_services (get_services larger_text link s.db))
  serve_api link now header (open_services query_key pushes) s =
      (s, of_services_stream (stream_services larger_text api_key query_key pushes))
  serve_api link now header ask_health s = (s, healthy)
  serve_api link now header ask_prometheus s = (s, exposition)
  serve_api link now header ask_page s = (s, page)
  serve_api link now header (unmatched method path) s = (s, not_found)
