-- ===== src/Collector/Server.antt =====
-- The HTTP server of the collector (cmd/collector/server.go): its routes behind the middleware that
-- counts requests and the one that limits them. Logging and the histogram of the durations are left
-- out.
pub mod Counted
pub mod Limited
use vkr_public.Base.{
  ℕ, ◌+◌, String, ◌≡◌, ◌≢◌, Bool, Option, List, [], ◌∷◌, if◌then◌else◌, Assoc, decimal,
}
use vkr_public.Instant.{Time, TimeText}
use vkr_public.Json.{Json}
use vkr_public.Nats.{JetStream}
use vkr_public.Metrics.{Labels, CounterVec}
use vkr_public.Http.{Body, status_ok, exposition, not_found, Reply}
use vkr_public.Collector.RateLimit.{Buckets, rate_limit, too_many_requests}
use vkr_public.Collector.Handler.{receive_metrics, receive_logs, receive_spans}

-- `unmatched` is a request, with its method, that no route takes: the middleware is run for it too. Gin
-- redirects a path that differs from a route's by a slash at its end, without the middleware; those
-- are left out.
pub data Route : Type 0 where
  post_metrics post_logs post_traces get_health get_prometheus : Route
  unmatched : (method : String) → Route

abbrev pub method_of : Route → String
method_of get_health = "GET"
method_of get_prometheus = "GET"
method_of (unmatched method) = method
method_of post_metrics = "POST"
method_of route = "POST"

abbrev pub path_of : Route → String
path_of post_metrics = "/api/v1/metrics"
path_of post_logs = "/api/v1/logs"
path_of post_traces = "/api/v1/traces"
path_of get_health = "/health"
path_of get_prometheus = "/metrics"
path_of (unmatched method) = ""

-- The limiter and the handler read the clock one after the other.
pub record Request : Type 0 where
  pub ip : String
  pub asked : Time
  pub now : Time
  pub route : Route
  pub body : Option Json

pub record Server (L S C : Type 0) : Type 0 where
  pub clients : Assoc L
  pub stream : S
  pub requests : C

unfoldable pub labels_of : Route → ℕ → Labels
unfolding decimal
labels_of route status = record {
  method = method_of route;
  path = path_of route;
  status = decimal status;
}

module _ (clock : TimeText) {L S C : Type 0} (buckets : Buckets L) (js : JetStream S)
    (counters : CounterVec C) where
  abbrev pub handle_route : Request → S → S × Reply Body
  handle_route r s = elim (r.route) [
    | post_metrics ↦ receive_metrics clock js r.now r.body s
    | post_logs ↦ receive_logs clock js r.now r.body s
    | post_traces ↦ receive_spans clock js r.body s
    | get_health ↦ (s, record { status = 200; body = status_ok })
    | get_prometheus ↦ (s, record { status = 200; body = exposition })
    | unmatched _ ↦ (s, record { status = 404; body = not_found })
  ]

  -- rateLimitMiddleware: a request over the limit is aborted.
  unfoldable pub limited : Bool → Request → S → S × Reply Body
  limited passed r s = if passed then handle_route r s else (s, too_many_requests)

  -- metricsMiddleware counts what the inner handlers have answered.
  unfoldable pub serve_http : Request → Server L S C → Server L S C × Reply Body
  unfolding rate_limit limited labels_of
  serve_http r server =
      let (clients, passed) = rate_limit buckets 100 200 r.ip r.asked server.clients in
      let (stream, reply) = limited passed r server.stream in
      (
        record {
          clients = clients;
          stream = stream;
          requests = counters.inc server.requests (labels_of r.route reply.status);
        },
        reply,
      )

  -- The requests of a run, each with its answer, and the server after them.
  unfoldable pub serve_run :
      List Request → Server L S C → Server L S C × List (Request × Reply Body)
  unfolding serve_http
  serve_run [] server = (server, [])
  serve_run (r ∷ rs) server =
      let (next, reply) = serve_http r server in
      let (last, replies) = serve_run rs next in (last, (r, reply) ∷ replies)
