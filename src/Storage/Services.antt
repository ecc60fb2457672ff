-- ===== src/Storage/Services.antt =====
-- The overview of the services (internal/storage/repository.go: QueryServices).
-- DISTINCT ON (service_name, metric_name) keeps the first row of each series in the order of the
-- timestamps, newest first. MAX of texts follows the collation of the database, a parameter.
pub mod Series
pub mod Hosts
pub mod Heirs
pub mod Groups
pub mod Overview
use vkr_public.Base.{
  ◌≡◌, ◌⊎◌, ℕ, String, Bool, true, false, Option, none, some, List, [], ◌∷◌, ◌==◌, ◌&&◌, leb, map,
  if◌then◌else◌, StringMap, lookup,
}
use vkr_public.Float64.{Float64, ltf, is_nan, zero_f}
use vkr_public.Instant.{Time}
use vkr_public.Storage.Select.{where_rows, order_by, newest, distinct_on, aggregate}
use vkr_public.Storage.Tables.{MetricPoint, Tables, Link}
use vkr_public.Storage.Queries.{answered}

pub record ServiceInfo : Type 0 where
  pub service_name : String
  pub host : String
  pub last_seen : Time
  pub cpu : Float64
  pub mem : Float64
  pub disk : Float64

-- The larger of two texts, which is one of them.
pub record Collation : Type 0 where
  pub larger : String → String → String
  pub larger_choice : (s t : String) → (larger s t ≡ s) ⊎ (larger s t ≡ t)

-- MAX of float8, where NaN is the largest.
unfoldable pub larger_float : Float64 → Float64 → Float64
larger_float x y = if is_nan x then x else if is_nan y then y else if ltf x y then y else x

unfoldable pub larger_time : Time → Time → Time
larger_time s t = if leb s t then t else s

abbrev pub coalesce {ℓ} : {A : Type ℓ} → Option A → A → A
coalesce none d = d
coalesce (some a) d = a

abbrev pub same_series : MetricPoint → MetricPoint → Bool
same_series m n = m.service_name == n.service_name && m.metric_name == n.metric_name

abbrev pub same_service : MetricPoint → MetricPoint → Bool
same_service m n = m.service_name == n.service_name

-- The common table expression `latest`.
unfoldable pub latest_points : List MetricPoint → List MetricPoint
unfolding order_by distinct_on
latest_points ms = distinct_on same_series (order_by (newest (λ m. m.timestamp)) ms)

-- labels->>'host', which is null where there is none.
abbrev pub host_label : StringMap → Option String
host_label none = none
host_label (some m) = lookup "host" m

abbrev with_host : Option String → List String → List String
with_host none hosts = hosts
with_host (some h) hosts = h ∷ hosts

-- An aggregate skips nulls.
unfoldable pub hosts_of : List MetricPoint → List String
unfolding lookup
hosts_of [] = []
hosts_of (m ∷ ms) = with_host (host_label m.labels) (hosts_of ms)

abbrev pub is_metric : String → MetricPoint → Bool
is_metric name m = m.metric_name == name

-- COALESCE(MAX(value) FILTER (WHERE metric_name = name), 0)
unfoldable pub filtered_max : String → List MetricPoint → Float64
unfolding aggregate where_rows
filtered_max name group =
    coalesce (aggregate larger_float (map (λ m. m.value) (where_rows (is_metric name) group)))
      zero_f

-- A group has a row, so the zero time stands for no answer of the query.
unfoldable pub last_seen_of : List MetricPoint → Time
unfolding aggregate
last_seen_of group = coalesce (aggregate larger_time (map (λ m. m.timestamp) group)) 0

unfoldable pub summary : Collation → String → List MetricPoint → ServiceInfo
unfolding filtered_max last_seen_of hosts_of
summary larger_text service group = record {
  service_name = service;
  host = coalesce (aggregate larger_text.larger (hosts_of group)) "";
  last_seen = last_seen_of group;
  cpu = filtered_max "cpu_usage_percent" group;
  mem = filtered_max "mem_usage_percent" group;
  disk = filtered_max "disk_usage_percent" group;
}

abbrev pub of_service : String → MetricPoint → Bool
of_service service m = m.service_name == service

-- GROUP BY service_name: one row for the first point of each service.
unfoldable pub grouped : Collation → List MetricPoint → List ServiceInfo
unfolding summary distinct_on where_rows
grouped larger_text ms =
    map (λ m. summary larger_text m.service_name (where_rows (of_service m.service_name) ms))
      (distinct_on same_service ms)

unfoldable pub query_services : Collation → Link → Tables → Option (List ServiceInfo)
unfolding latest_points grouped order_by
query_services larger_text link db =
    answered link
      (order_by (newest (λ r. r.last_seen)) (grouped larger_text (latest_points db.metrics)))
