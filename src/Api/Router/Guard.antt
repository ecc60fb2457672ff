-- ===== src/Api/Router/Guard.antt =====
-- What a client without the key can do.
use vkr_public.Base.{
  String, ◌≡◌, ◌≢◌, refl, ap, ◌⊎◌, inl, inr, false, List, arith, ◌==◌, eq_iff, Bool-cases,
}
use vkr_public.Instant.{Time, TimeText}
use vkr_public.Storage.Tables.{Link, Tables}
use vkr_public.Api.Thresholds.{Store, handle_get}
use vkr_public.Api.Handler.{Atoi}
use vkr_public.Storage.Services.{Collation}
use vkr_public.Api.Services.{ServicesStream, stream_services}
use vkr_public.Api.Stream.{Tick, refused, stream_metrics}
use vkr_public.Api.Router.{
  Request, ask_thresholds, put_thresholds, ask_metrics, ask_logs, ask_trace, open_stream,
  ask_health, ask_prometheus, ask_page, unmatched, exposition, page, not_found, ask_services,
  open_services, of_services_stream, Answer, unauthorized, of_thresholds, of_stream, healthy,
  passes, serve_api,
}

-- The key that a request shows: the header, or the parameter of a stream.
abbrev pub shown_key : String → Request → String
shown_key header (open_stream service query_key first since ticks) = query_key
shown_key header (open_services query_key pushes) = query_key
shown_key header ask_services = header
shown_key header ask_thresholds = header
shown_key header ask_health = header
shown_key header ask_prometheus = header
shown_key header ask_page = header
shown_key header (unmatched method path) = header
shown_key header (put_thresholds body) = header
shown_key header (ask_metrics service from to) = header
shown_key header (ask_logs service level limit) = header
shown_key header (ask_trace trace_id) = header

-- What is answered without the key: the thresholds that agents poll, the health, the exposition of the
-- metrics and the page, 404 to what no route has, and 401 to the rest; a stream, whose key is a parameter, is refused with 401, or with 400 for want of a service.
abbrev pub Denied : Store → Request → Answer → Type 0
Denied s ask_thresholds a = a ≡ of_thresholds (handle_get s)
Denied s ask_health a = a ≡ healthy
Denied s ask_prometheus a = a ≡ exposition
Denied s ask_page a = a ≡ page
Denied s (unmatched method path) a = a ≡ not_found
Denied s (open_stream service query_key first since ticks) a =
    (a ≡ of_stream (refused 400 "service required"))
    ⊎ (a ≡ of_stream (refused 401 "invalid api key"))
Denied s (open_services query_key pushes) a =
    a ≡ of_services_stream (ServicesStream.refused 401 "invalid api key")
Denied s ask_services a = a ≡ unauthorized
Denied s (put_thresholds body) a = a ≡ unauthorized
Denied s (ask_metrics service from to) a = a ≡ unauthorized
Denied s (ask_logs service level limit) a = a ≡ unauthorized
Denied s (ask_trace trace_id) a = a ≡ unauthorized

differs : (x y : String) → x ≢ y → (x == y) ≡ false
differs x y h = ground (arith, eq_iff x y)

wrong_key :
    (api_key header : String) → api_key ≢ "" → header ≢ api_key → passes api_key header ≡ false
unfolding passes
wrong_key api_key header set other = rw (differs api_key "" set, differs header api_key other)

refused_stream :
    (service api_key query_key : String) (first : Tick) (since : Time) (ticks : List Tick)
    → api_key ≢ ""
    → query_key ≢ api_key
    → let a = of_stream (stream_metrics service api_key query_key first since ticks) in
      (a ≡ of_stream (refused 400 "service required"))
      ⊎ (a ≡ of_stream (refused 401 "invalid api key"))
unfolding stream_metrics
refused_stream service api_key query_key first since ticks set other =
    elim (Bool-cases (service == "")) [
      | inl e ↦ rw e (inl refl)
      | inr e ↦ rw e (rw (differs api_key "" set, differs query_key api_key other) (inr refl))
    ]

refused_services :
    (larger_text : Collation) (api_key query_key : String) (pushes : List (Link × Tables))
    → api_key ≢ ""
    → query_key ≢ api_key
    → stream_services larger_text api_key query_key pushes
      ≡ ServicesStream.refused 401 "invalid api key"
unfolding stream_services
refused_services larger_text api_key query_key pushes set other =
    rw (differs api_key "" set, differs query_key api_key other) refl

-- Where an API key is set, a request that does not show it changes nothing: it gets the thresholds,
-- the health, the exposition of the metrics or the page if it asks for these, a path without a route
-- gets 404, a stream is refused, and any other request gets 401.
pub serve_api-Denied :
    (clock : TimeText) (atoi : Atoi) (larger_text : Collation) (api_key : String) (link : Link)
    (now : Time) (header : String) (request : Request) (s : Store)
    → api_key ≢ ""
    → shown_key header request ≢ api_key
    → ((serve_api clock atoi larger_text api_key link now header request s).0 ≡ s)
      × Denied s request (serve_api clock atoi larger_text api_key link now header request s).1
unfolding serve_api
serve_api-Denied clock atoi larger_text api_key link now header ask_thresholds s set other =
    (refl, refl)
serve_api-Denied clock atoi larger_text api_key link now header ask_health s set other =
    (refl, refl)
serve_api-Denied clock atoi larger_text api_key link now header ask_prometheus s set other =
    (refl, refl)
serve_api-Denied clock atoi larger_text api_key link now header ask_page s set other = (refl, refl)
serve_api-Denied clock atoi larger_text api_key link now header (unmatched method path) s set
      other =
    (refl, refl)
serve_api-Denied clock atoi larger_text api_key link now header
      (open_stream service query_key first since ticks) s set other =
    (refl, refused_stream service api_key query_key first since ticks set other)
serve_api-Denied clock atoi larger_text api_key link now header (open_services query_key pushes) s
      set other =
    (refl, ap of_services_stream (refused_services larger_text api_key query_key pushes set other))
serve_api-Denied clock atoi larger_text api_key link now header ask_services s set other =
    rw (wrong_key api_key header set other) (refl, refl)
serve_api-Denied clock atoi larger_text api_key link now header (put_thresholds body) s set other =
    rw (wrong_key api_key header set other) (refl, refl)
serve_api-Denied clock atoi larger_text api_key link now header (ask_metrics service from to) s set
      other =
    rw (wrong_key api_key header set other) (refl, refl)
serve_api-Denied clock atoi larger_text api_key link now header (ask_logs service level limit) s set
      other =
    rw (wrong_key api_key header set other) (refl, refl)
serve_api-Denied clock atoi larger_text api_key link now header (ask_trace trace_id) s set other =
    rw (wrong_key api_key header set other) (refl, refl)
