-- ===== src/Storage/Services/Groups.antt =====
-- The row of one service.
use mathlib.Core.List.{Mem, not-mem-nil}
use mathlib.Core.List.Perm
use native.Mathlib.Nat.{le_trans}
use native.Mathlib.Bridge.{le_prop}
use vkr_public.Base.{
  ℕ, ◌≤◌, String, ◌≡◌, refl, ◌∙◌, true, List, [], ◌∷◌, eq_iff, eq_refl, arith, All,
}
use vkr_public.Storage.Select.{where_rows, newest, aggregate}
use vkr_public.Storage.Select.Laws.{order_by-perm, All-where_rows}
use vkr_public.Storage.Select.Found.{Mem-where_rows}
use vkr_public.Storage.Select.Members.{All_at, All_of_Mem, Mem_of_where_rows, Mem_of_distinct_on}
use vkr_public.Storage.Tables.{MetricPoint}
use vkr_public.Storage.Services.{
  same_series, ServiceInfo, Collation, of_service, latest_points, last_seen_of, summary,
}
use vkr_public.Storage.Services.Hosts.{HostAmong, host-HostAmong}
use vkr_public.Storage.Services.Heirs.{exists-Heir, IsMax, largest-IsMax}
use vkr_public.Storage.Services.Series.{by_time, Reading, filtered_max-Reading, Bool_path_prop}

-- A row that tells a service: its newest readings, the timestamp of its newest point, and the host of
-- one of the newest points of its metrics, or none where these have no host.
pub record IsSummary (ms : List MetricPoint) (r : ServiceInfo) : Type 0 where
  pub cpu : Reading r.service_name "cpu_usage_percent" ms r.cpu
  pub mem : Reading r.service_name "mem_usage_percent" ms r.mem
  pub disk : Reading r.service_name "disk_usage_percent" ms r.disk
  pub seen :
      (m : MetricPoint) × Mem m ms × (m.service_name ≡ r.service_name) × (m.timestamp ≡ r.last_seen)
  pub host : HostAmong (where_rows (of_service r.service_name) (latest_points ms)) r.host
  pub latest : All (λ x. x.timestamp ≤ r.last_seen) (where_rows (of_service r.service_name) ms)

pub service_of_rows :
    (service : String) (xs : List MetricPoint) (a : MetricPoint)
    → Mem a (where_rows (of_service service) xs)
    → a.service_name ≡ service
service_of_rows service xs a m = (eq_iff a.service_name service).0 (
    All_at (λ x. Bool_path_prop (of_service service x) true) (where_rows (of_service service) xs)
      (All-where_rows (of_service service) xs) m)

module _ (larger_text : Collation) (ms : List MetricPoint) where
  in_service :
      (service : String) (m : MetricPoint) → m.service_name ≡ service → of_service service m ≡ true
  in_service service m e = ground (arith, eq_iff m.service_name service)

  abbrev group_of : String → List MetricPoint
  group_of service = where_rows (of_service service) (latest_points ms)

  service_of_group :
      (service : String) (a : MetricPoint) → Mem a (group_of service) → a.service_name ≡ service
  service_of_group service a m = service_of_rows service (latest_points ms) a m

  stored_of_group : (service : String) (a : MetricPoint) → Mem a (group_of service) → Mem a ms
  unfolding latest_points
  stored_of_group service a m = (Perm.mem_iff (order_by-perm (newest (λ x. x.timestamp)) ms)).0 (
      Mem_of_distinct_on same_series (by_time ms)
        (Mem_of_where_rows (of_service service) (latest_points ms) m))

  -- No point of a service is newer than the newest of its group.
  no_newer :
      (service : String) (t : ℕ)
      → All (λ x. x.timestamp ≤ t) (group_of service)
      → All (λ x. x.timestamp ≤ t) (where_rows (of_service service) ms)
  no_newer service t bound = All_of_Mem (where_rows (of_service service) ms) λ a k.
      let mine = service_of_rows service ms a k in
      let heir = exists-Heir ms _ a (Mem_of_where_rows (of_service service) ms k) refl in
      le_trans heir.no_older (
        All_at (λ x. le_prop) (group_of service) bound
          (Mem-where_rows (of_service service) heir.point (latest_points ms)
            (in_service service heir.point (heir.kin ∙ mine)) heir.kept))

  newest_of_group :
      (service : String) (m : MetricPoint) (group : List MetricPoint)
      → Mem m group
      → IsMax (last_seen_of group) group
  unfolding last_seen_of aggregate
  newest_of_group service m [] k = absurd (not-mem-nil k)
  newest_of_group service m (g ∷ gs) k = largest-IsMax g gs

  pub group-IsSummary :
      (m : MetricPoint)
      → Mem m (latest_points ms)
      → IsSummary ms (summary larger_text m.service_name (group_of m.service_name))
  unfolding summary
  group-IsSummary m k =
      let service = m.service_name in
      let mine = Mem-where_rows (of_service service) m (latest_points ms) (eq_refl service) k in
      let top = newest_of_group service m (group_of service) mine in
      record {
        cpu = filtered_max-Reading service "cpu_usage_percent" ms;
        mem = filtered_max-Reading service "mem_usage_percent" ms;
        disk = filtered_max-Reading service "disk_usage_percent" ms;
        host = host-HostAmong larger_text (group_of service);
        seen = (
          top.point,
          stored_of_group service top.point top.reached,
          service_of_group service top.point top.reached,
          top.at_time,
        );
        latest = no_newer service (last_seen_of (group_of service)) top.bound;
      }
