-- ===== src/Storage/Examples.antt =====
-- The repository at concrete tables.
use vkr_public.Base.{List, ℕ, ◌*◌, String, ◌≡◌, refl, some, none, [], ◌∷◌}
use vkr_public.Float64.{Float64, zero_f, ninety_f, one_f}
use vkr_public.Instant.{Time, second}
use vkr_public.Storage.Select.Limit.{IsLatest}
use vkr_public.Storage.Tables.{MetricPoint, LogEntry, TraceSpan, Tables, up}
use vkr_public.Storage.Services.{ServiceInfo, query_services}
use vkr_public.Storage.Services.Overview.{IsOverview, query_services-IsOverview}
use vkr_public.Fixtures.{byte_order}
use vkr_public.Storage.Queries.{in_range, query_metrics, query_logs, query_spans_by_trace}
use vkr_public.Storage.Queries.Laws.{query_metrics-IsLatest}

abbrev point : ℕ → Time → MetricPoint
point id t = record {
  id = id;
  service_name = "host-agent";
  metric_name = "cpu_usage_percent";
  value = ninety_f;
  labels = none;
  timestamp = t;
}

abbrev entry : ℕ → String → Time → LogEntry
entry id level t = record {
  id = id;
  service_name = "host-agent";
  level = level;
  message = "agent heartbeat";
  trace_id = "t1";
  fields = none;
  timestamp = t;
}

abbrev span : ℕ → String → Time → TraceSpan
span id span_id t = record {
  id = id;
  trace_id = "t1";
  span_id = span_id;
  parent_span_id = "";
  service_name = "host-agent";
  operation_name = "metric_collection_interval";
  start_time = t;
  end_time = t;
  status = "ok";
  attributes = none;
}

abbrev filled : Tables
filled = record {
  metrics = point 1 (2 * second) ∷ point 2 (3 * second) ∷ point 3 (9 * second) ∷ [];
  logs = entry 1 "info" second ∷ entry 2 "warn" (2 * second) ∷ entry 3 "info" (3 * second) ∷ [];
  spans = span 1 "s1" (3 * second) ∷ span 2 "s2" second ∷ [];
  settings = [];
  next_metric = 4;
  next_log = 4;
  next_span = 3;
}

found_metrics :
    query_metrics up "host-agent" second (5 * second) filled
    ≡ some (point 2 (3 * second) ∷ point 1 (2 * second) ∷ [])
unfolding query_metrics
found_metrics = refl

query_metrics-IsLatest_example :
    IsLatest
      (in_range "host-agent" second (5 * second))
      (λ m. m.timestamp)
      1000
      filled.metrics
      (point 2 (3 * second) ∷ point 1 (2 * second) ∷ [])
query_metrics-IsLatest_example =
    query_metrics-IsLatest up "host-agent" second (5 * second) filled found_metrics

found_logs : query_logs up "host-agent" "info" 1 filled ≡ some (entry 3 "info" (3 * second) ∷ [])
unfolding query_logs
found_logs = refl

found_spans :
    query_spans_by_trace up "t1" filled ≡ some (span 2 "s2" second ∷ span 1 "s1" (3 * second) ∷ [])
unfolding query_spans_by_trace
found_spans = refl

abbrev usage : ℕ → String → String → Float64 → Time → MetricPoint
usage id service metric value t = record {
  id = id;
  service_name = service;
  metric_name = metric;
  value = value;
  labels = some (("host", "h1") ∷ []);
  timestamp = t;
}

abbrev two_services : Tables
two_services = record filled {
  metrics =
      usage 1 "a" "cpu_usage_percent" ninety_f second
      ∷ usage 2 "a" "cpu_usage_percent" one_f (2 * second)
      ∷ usage 3 "b" "mem_usage_percent" ninety_f (3 * second)
      ∷ [];
}

abbrev overview : List ServiceInfo
overview =
    record {
      service_name = "b";
      host = "h1";
      last_seen = 3 * second;
      cpu = zero_f;
      mem = ninety_f;
      disk = zero_f;
    }
    ∷ record {
      service_name = "a";
      host = "h1";
      last_seen = 2 * second;
      cpu = one_f;
      mem = zero_f;
      disk = zero_f;
    }
    ∷ []

found_services : query_services byte_order up two_services ≡ some overview
unfolding query_services
found_services = refl

query_services-IsOverview_example : IsOverview two_services.metrics overview
query_services-IsOverview_example =
    query_services-IsOverview byte_order up two_services found_services
