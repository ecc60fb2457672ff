-- ===== src/Collector/Examples.antt =====
-- The collector at concrete calls.
use vkr_public.Base.{ℕ, ◌≡◌, refl, String, true, false, none, some, ◌⊎◌, List, [], ◌∷◌, ltb, ◌-◌}
use vkr_public.Base.{map}
use vkr_public.Collector.Publisher.{Message}
use vkr_public.Collector.RateLimit.{rate_limit}
use vkr_public.Collector.Server.{
  Request, Server, Route, post_metrics, post_logs, post_traces, get_health, get_prometheus,
  unmatched, serve_run,
}
use vkr_public.Metrics.{Labels}
use vkr_public.Collector.Server.Counted.{Counts, serve_run-counted}
use vkr_public.Collector.Server.Limited.{verdict, asking, serve_run-alone}
use vkr_public.Instant.{Time}
use vkr_public.Float64.{is_finite}
use vkr_public.Json.{Json, str, obj, field, end, string_into}
use vkr_public.Nats.{subject_metrics}
use vkr_public.Wire.{Metadata}
use vkr_public.Collector.Publisher.{publish}
use vkr_public.Collector.Requests.{MetricRequest, metric, marshal}
use vkr_public.Collector.Grpc.{
  count32, traced, collector_span_id, extract_trace_meta, metric_messages, collector_span,
  send_metrics,
}
use vkr_public.Collector.Grpc.Calls.{BatchOutcome, send_metrics-BatchOutcome}
use vkr_public.Collector.Handler.{bind_metric, bind_log, bad_request, receive_metrics, receive_logs}
use vkr_public.Collector.Handler.Replies.{Answered}
use vkr_public.Collector.Handler.Filled.{IsFilled, receive_metrics-Received}
use vkr_public.Collector.RateLimit.{Buckets, serve}
use vkr_public.Collector.RateLimit.Isolation.{answers, times, alone, bucket_of}
use vkr_public.Fixtures.{tallies, list_stream, noon, cpu_point, readings}

abbrev traced_call : Metadata
traced_call = some (("trace-id", "t1" ∷ []) ∷ ("parent-span-id", "p1" ∷ []) ∷ [])

extract_trace_meta_test : extract_trace_meta traced_call ≡ ("t1", "p1")
unfolding extract_trace_meta
extract_trace_meta_test = refl

send_metrics-BatchOutcome_example :
    let r =
      send_metrics tallies list_stream traced_call "c1" noon noon (λ _. noon) (cpu_point ∷ []) [] in
    let (trace_id, parent) = extract_trace_meta traced_call in
    let id = collector_span_id trace_id "c1" (cpu_point ∷ []) in
    BatchOutcome tallies list_stream [] r.0
      (metric_messages trace_id id (λ _. noon) 0 (cpu_point ∷ []))
      (count32 (cpu_point ∷ []))
      (traced trace_id (cpu_point ∷ []))
      (collector_span trace_id id parent noon noon (cpu_point ∷ []))
      r.1
send_metrics-BatchOutcome_example =
    send_metrics-BatchOutcome tallies list_stream traced_call "c1" noon noon (λ _. noon)
      (cpu_point ∷ []) []

-- {"service_name": "s", "metric_name": "m"}
abbrev small_metric : Json
small_metric = obj (field "service_name" (str "s") (field "metric_name" (str "m") end))

abbrev small_log : Json
small_log =
    obj
      (field "service_name" (str "s") (field "level" (str "info") (field "message" (str "hi") end)))

abbrev small_span : Json
small_span = obj (
    field "trace_id" (str "t") (
      field "span_id" (str "x")
        (field "service_name" (str "s") (field "operation_name" (str "o") end))))

receive_metrics_test :
    (receive_metrics tallies list_stream noon (some small_metric) []).1.status ≡ 202
unfolding receive_metrics bind_metric string_into publish marshal is_finite
receive_metrics_test = refl

missing_level_test :
    (receive_logs tallies list_stream noon
      (some (obj (field "service_name" (str "s") end)))
      []).1.status
    ≡ 400
unfolding receive_logs bind_log string_into
missing_level_test = refl

receive_metrics-Received_example :
    ((bind_metric tallies (some small_metric) ≡ none)
      × (receive_metrics tallies list_stream noon (some small_metric) [] ≡ ([], bad_request)))
    ⊎ ((r : MetricRequest) × (m : MetricRequest) × (bind_metric tallies (some small_metric)
          ≡ some r)
        × IsFilled noon r m
        × Answered tallies list_stream subject_metrics
            (metric m)
            []
            (receive_metrics tallies list_stream noon (some small_metric) []))
receive_metrics-Received_example =
    receive_metrics-Received tallies list_stream noon (some small_metric) []

-- A bucket that lets two requests through and no more.
abbrev two_each : Buckets ℕ
two_each = record { new_limiter = λ _ _. 2; allow = λ l t. (l - 1, ltb 0 l) }

abbrev visits : List (String × Time)
visits = ("a", noon) ∷ ("b", noon) ∷ ("a", noon) ∷ ("a", noon) ∷ []

serve_test :
    serve two_each 100 200 visits [] ≡ ("a", true) ∷ ("b", true) ∷ ("a", true) ∷ ("a", false) ∷ []
unfolding serve
serve_test = refl

abbrev request : String → Route → Request
request ip route = record {
  ip = ip;
  asked = noon;
  now = noon;
  route = route;
  body = some small_metric;
}

abbrev idle : Server ℕ (List Message) (Labels → ℕ)
idle = record { clients = []; stream = []; requests = λ k. 0 }

abbrev burst : List Request
burst =
    request "a" post_metrics
    ∷ request "a" get_health
    ∷ request "b" post_metrics
    ∷ request "a" post_metrics
    ∷ []

serve_run-counted_example :
    Counts tallies two_each list_stream readings burst idle "POST" "/api/v1/metrics" 429
      post_metrics
    × Counts tallies two_each list_stream readings burst idle "POST" "/api/v1/logs" 429 post_logs
    × Counts tallies two_each list_stream readings burst idle "POST" "/api/v1/traces" 429
        post_traces
    × Counts tallies two_each list_stream readings burst idle "GET" "/health" 429 get_health
    × Counts tallies two_each list_stream readings burst idle "GET" "/metrics" 429 get_prometheus
    × Counts tallies two_each list_stream readings burst idle "HEAD" "" 429 (unmatched "HEAD")
serve_run-counted_example =
    serve_run-counted tallies two_each list_stream readings 429 "HEAD" burst idle

serve_run-alone_example :
    answers "a" (map verdict (serve_run tallies two_each list_stream readings burst idle).1)
    ≡ alone two_each 100 200 (bucket_of two_each 100 200 "a" []) (times "a" (map asking burst))
serve_run-alone_example = serve_run-alone tallies two_each list_stream readings "a" burst idle

abbrev exhausted : Server ℕ (List Message) (Labels → ℕ)
exhausted = record idle { clients = ("a", 0) ∷ [] }

exhausted_refuses : (rate_limit two_each 100 200 "a" noon exhausted.clients).1 ≡ false
unfolding rate_limit
exhausted_refuses = refl
