-- ===== src/Api/Router/Counted.antt =====
-- The middleware of the API's router that counts requests (cmd/api/router.go: newServer). It counts what
-- the inner handlers have answered, under the route's path; an event stream counts when it ends.
use vkr_public.Base.{ℕ, ◌+◌, String, ◌≡◌, List, [], ◌∷◌, arith, decimal}
use vkr_public.Instant.{Time, TimeText}
use vkr_public.Storage.Tables.{Link}
use vkr_public.Storage.Services.{Collation}
use vkr_public.Metrics.{Labels, CounterVec}
use vkr_public.Metrics.Counting.{times_seen, count_step, value-inc}
use vkr_public.Api.Thresholds.{Store}
use vkr_public.Api.Handler.{Atoi}
use vkr_public.Api.Services
use vkr_public.Api.Stream
use vkr_public.Api.Router.{
  Request, ask_thresholds, put_thresholds, ask_metrics, ask_logs, ask_trace, open_stream,
  ask_services, open_services, ask_health, ask_prometheus, ask_page, unmatched, exposition, page,
  not_found, Answer, unauthorized, of_thresholds, of_metrics, of_logs, of_trace, of_stream,
  of_services, of_services_stream, healthy, serve_api,
}

abbrev pub method_of : Request → String
method_of (put_thresholds body) = "PUT"
method_of (unmatched method path) = method
method_of ask_thresholds = "GET"
method_of request = "GET"

-- The route's path; "" where none matches.
abbrev pub path_of : Request → String
path_of ask_thresholds = "/api/v1/config/thresholds"
path_of (put_thresholds body) = "/api/v1/config/thresholds"
path_of (ask_metrics service from to) = "/api/v1/metrics"
path_of (ask_logs service level limit) = "/api/v1/logs"
path_of (ask_trace trace_id) = "/api/v1/traces/:trace_id"
path_of (open_stream service query_key first since ticks) = "/api/v1/stream"
path_of ask_services = "/api/v1/services"
path_of (open_services query_key pushes) = "/api/v1/stream/services"
path_of ask_health = "/health"
path_of ask_prometheus = "/metrics"
path_of ask_page = "/"
path_of (unmatched method path) = ""

abbrev stream_status : Stream.Stream → ℕ
stream_status (Stream.refused status e) = status
stream_status (Stream.opened events) = 200

abbrev services_status : Services.ServicesStream → ℕ
services_status (Services.refused status e) = status
services_status (Services.opened events) = 200

abbrev pub status_of : Answer → ℕ
status_of unauthorized = 401
status_of (of_thresholds r) = r.status
status_of (of_metrics r) = r.status
status_of (of_logs r) = r.status
status_of (of_trace r) = r.status
status_of (of_stream s) = stream_status s
status_of (of_services r) = r.status
status_of (of_services_stream s) = services_status s
status_of healthy = 200
status_of exposition = 200
status_of page = 200
status_of not_found = 404

unfoldable pub labels_of : Request → Answer → Labels
unfolding decimal
labels_of request answer = record {
  method = method_of request;
  path = path_of request;
  status = decimal (status_of answer);
}

abbrev pub labels_seen : List (Request × Answer) → List Labels
labels_seen [] = []
labels_seen ((request, answer) ∷ rest) = labels_of request answer ∷ labels_seen rest

pub record Call : Type 0 where
  pub link : Link
  pub now : Time
  pub header : String
  pub request : Request

module _ (clock : TimeText) (atoi : Atoi) (larger_text : Collation) (api_key : String) {C : Type 0}
    (counters : CounterVec C) where
  unfoldable pub serve_counted : Call → Store × C → (Store × C) × Answer
  unfolding serve_api labels_of
  serve_counted call (s, c) =
      let (s', answer) =
        serve_api clock atoi larger_text api_key call.link call.now call.header call.request s in
      ((s', counters.inc c (labels_of call.request answer)), answer)

  -- The requests of a run, each with its answer.
  unfoldable pub run_counted : List Call → Store × C → (Store × C) × List (Request × Answer)
  unfolding serve_counted
  run_counted [] sc = (sc, [])
  run_counted (call ∷ calls) sc =
      let (next, answer) = serve_counted call sc in
      let (last, answers) = run_counted calls next in (last, (call.request, answer) ∷ answers)

  -- In every run of the API, requests_total grows, for each method, path and status, by the number of
  -- requests that were answered with them, those without the key included.
  pub run_counted-times_seen :
      (k : Labels) (calls : List Call) (s : Store) (c : C)
      → let (last, answers) = run_counted calls (s, c) in
        counters.value last.1 k ≡ counters.value c k + times_seen k (labels_seen answers)
  unfolding run_counted
  run_counted-times_seen k [] s c = omega arith
  run_counted-times_seen k (call ∷ calls) s c =
      let (next, answer) = serve_counted call (s, c) in
      let ih = run_counted-times_seen k calls next.0 next.1 in
      count_step _ _ _ _ _ (value-inc counters c (labels_of call.request answer) k) ih
