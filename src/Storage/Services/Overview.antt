-- ===== src/Storage/Services/Overview.antt =====
-- What QueryServices reports.
use mathlib.Core.List.{
  Perm, Mem, Mem-prop, mem-cons_self, mem-cons_of_mem, not-mem-nil, mem-map, mem-map_of_mem, Nodup,
  Nodup-cons, Nodup-nil,
}
use mathlib.Core.List.Perm
use mathlib.Core.Path.{subst}
use mathlib.Core.HLevel.{⊥_prop}
use mathlib.Core.Logic.{∥∥₁_elim}
use native.Mathlib.Nat.{le_trans}
use vkr_public.Base.{
  ◌≤◌, String, ◌≡◌, refl, inl, inr, Bool, true, not, some, List, [], ◌∷◌, eq_iff, eq_refl, arith,
  map, All, Bool-cases,
}
use vkr_public.Storage.Select.{where_rows, order_by, newest, distinct_on}
use vkr_public.Storage.Select.Laws.{
  IsSorted, order_by-IsSorted, order_by-perm, All-where_rows, All-order_by,
}
use vkr_public.Storage.Select.Found.{Mem-where_rows}
use vkr_public.Storage.Select.Distinct.{where_rows-distinct_on}
use vkr_public.Storage.Select.Members.{All_at, All_of_Mem, Mem_of_where_rows, Mem_of_distinct_on}
use vkr_public.Storage.Tables.{MetricPoint, Tables, Link}
use vkr_public.Storage.Queries.Laws.{answered-eq-some}
use vkr_public.Storage.Services.{
  ServiceInfo, Collation, same_service, of_service, latest_points, summary, grouped, query_services,
}
use vkr_public.Storage.Services.Groups.{IsSummary, group-IsSummary, service_of_rows}
use vkr_public.Storage.Services.Heirs.{exists-Heir}
use vkr_public.Storage.Services.Series.{Bool_path_prop}

-- One row for each service that has a point, the last seen first.
pub record IsOverview (ms : List MetricPoint) (rows : List ServiceInfo) : Type 0 where
  pub summaries : All (IsSummary ms) rows
  pub covered : All (λ m. Mem m.service_name (map (λ r. r.service_name) rows)) ms
  pub once : Nodup (map (λ r. r.service_name) rows)
  pub sorted : IsSorted (λ a b. b.last_seen ≤ a.last_seen) rows

names_of_map :
    (f : MetricPoint → ServiceInfo)
    → ((m : MetricPoint) → (f m).service_name ≡ m.service_name)
    → (xs : List MetricPoint) → map (λ r. r.service_name) (map f xs) ≡ map (λ m. m.service_name) xs
names_of_map f same [] = refl
names_of_map f same (x ∷ xs) = rw (same x, names_of_map f same xs)

All-map :
    (P : ServiceInfo → Type 0) (f : MetricPoint → ServiceInfo) (xs : List MetricPoint)
    → ((m : MetricPoint) → Mem m xs → P (f m))
    → All P (map f xs)
All-map P f [] h = tt
All-map P f (x ∷ xs) h = (h x mem-cons_self, All-map P f xs (λ m k. h m (mem-cons_of_mem x k)))

service_joins :
    (service : String) (x y : MetricPoint)
    → of_service service x ≡ true
    → of_service service y ≡ true
    → same_service x y ≡ true
service_joins service x y p q = ground (
  arith,
  eq_iff x.service_name service,
  eq_iff y.service_name service,
  eq_iff x.service_name y.service_name,
)

service_closed :
    (service : String) (x y : MetricPoint)
    → same_service x y ≡ true
    → of_service service y ≡ true
    → of_service service x ≡ true
service_closed service x y p q = ground (
  arith,
  eq_iff x.service_name service,
  eq_iff y.service_name service,
  eq_iff x.service_name y.service_name,
)

-- Each service of the list is the service of a row that DISTINCT ON keeps.
named_of_rows :
    (p : MetricPoint) (xs ys : List MetricPoint)
    → Mem p xs
    → where_rows (of_service p.service_name) xs ≡ ys
    → Mem p.service_name (map (λ m. m.service_name) (distinct_on same_service xs))
named_of_rows p xs [] m e = absurd (
    not-mem-nil
      (rw e at (Mem-where_rows (of_service p.service_name) p xs (eq_refl p.service_name) m)))
named_of_rows p xs (y ∷ ys) m e =
    let q = of_service p.service_name in
    let kept : where_rows q (distinct_on same_service xs) ≡ y ∷ [] =
      rw
        (
          where_rows-distinct_on same_service q (service_joins p.service_name)
              (service_closed p.service_name) xs,
          e,
        )
        refl in
    let found : Mem y (where_rows q (distinct_on same_service xs)) = rw kept mem-cons_self in
    subst (λ s. Mem s (map (λ m. m.service_name) (distinct_on same_service xs)))
      (service_of_rows p.service_name (distinct_on same_service xs) y found)
      (mem-map_of_mem (λ m. m.service_name)
        (Mem_of_where_rows q (distinct_on same_service xs) found))

clash : (x y : MetricPoint) → not (same_service x y) ≡ true → y.service_name ≡ x.service_name → ⊥
clash x y h e = ground (arith, eq_iff x.service_name y.service_name)

not-Mem-map :
    (x : MetricPoint) (xs : List MetricPoint)
    → ¬ Mem x.service_name (map (λ m. m.service_name) (where_rows (λ y. not (same_service x y)) xs))
not-Mem-map x xs m =
    let q = λ (y : MetricPoint). not (same_service x y) in
    ∥∥₁_elim (mem-map.0 m) ⊥_prop λ (y, k, same).
      clash x y (All_at (λ z. Bool_path_prop (q z) true) (where_rows q xs) (All-where_rows q xs) k)
        same

Mem-map-where_rows :
    (q : MetricPoint → Bool) (xs : List MetricPoint) {s : String}
    → Mem s (map (λ m. m.service_name) (where_rows q xs))
    → Mem s (map (λ m. m.service_name) xs)
Mem-map-where_rows q xs {s} m = ∥∥₁_elim (mem-map.0 m) Mem-prop λ (y, k, same).
    subst (λ t. Mem t (map (λ m. m.service_name) xs)) same
      (mem-map_of_mem (λ m. m.service_name) (Mem_of_where_rows q xs k))

Nodup-where_rows :
    (q : MetricPoint → Bool) (xs : List MetricPoint)
    → Nodup (map (λ m. m.service_name) xs)
    → Nodup (map (λ m. m.service_name) (where_rows q xs))
unfolding where_rows
Nodup-where_rows q [] n = n
Nodup-where_rows q (x ∷ xs) n =
    let (new, rest) = Nodup-cons.0 n in
    elim (Bool-cases (q x)) [
      | inl e ↦
          rw e (Nodup-cons.1 (λ m. new (Mem-map-where_rows q xs m), Nodup-where_rows q xs rest))
      | inr e ↦ rw e (Nodup-where_rows q xs rest)
    ]

names-Nodup :
    (xs : List MetricPoint) → Nodup (map (λ m. m.service_name) (distinct_on same_service xs))
unfolding distinct_on
names-Nodup [] = Nodup-nil
names-Nodup (x ∷ xs) =
    Nodup-cons.1
      (not-Mem-map x (distinct_on same_service xs), Nodup-where_rows _ _ (names-Nodup xs))

module _ (larger_text : Collation) (ms : List MetricPoint) where
  abbrev unordered : List ServiceInfo
  unordered = grouped larger_text (latest_points ms)

  names :
      map (λ r. r.service_name) unordered
      ≡ map (λ m. m.service_name) (distinct_on same_service (latest_points ms))
  unfolding grouped summary
  names = names_of_map _ (λ m. refl) (distinct_on same_service (latest_points ms))

  summaries : All (IsSummary ms) unordered
  unfolding grouped
  summaries =
      All-map (IsSummary ms) _ (distinct_on same_service (latest_points ms)) λ m k.
        group-IsSummary larger_text ms m (Mem_of_distinct_on same_service (latest_points ms) k)

  covered : (m : MetricPoint) → Mem m ms → Mem m.service_name (map (λ r. r.service_name) unordered)
  covered m k =
      let heir = exists-Heir ms _ m k refl in
      rw names (
        subst (λ s. Mem s (map (λ p. p.service_name) (distinct_on same_service (latest_points ms))))
          heir.kin (named_of_rows heir.point (latest_points ms) _ heir.kept refl))

  by_name_perm :
      Perm
        (map (λ r. r.service_name) (order_by (newest (λ r. r.last_seen)) unordered))
        (map (λ r. r.service_name) unordered)
  by_name_perm =
      Perm.map (λ r. r.service_name) (order_by-perm (newest (λ r. r.last_seen)) unordered)

  ordered-IsOverview : IsOverview ms (order_by (newest (λ r. r.last_seen)) unordered)
  ordered-IsOverview = record {
    summaries = All-order_by (IsSummary ms) (newest (λ r. r.last_seen)) unordered summaries;
    covered = All_of_Mem ms (λ m k. (Perm.mem_iff by_name_perm).1 (covered m k));
    once = Perm.nodup (Perm.symm by_name_perm) (rw names (names-Nodup (latest_points ms)));
    sorted =
        order_by-IsSorted (newest (λ r. r.last_seen)) (λ a b. b.last_seen ≤ a.last_seen)
          (λ x y e. ground arith) (λ x y e. ground arith) (λ x y z a b. le_trans b a) unordered;
  }

-- QueryServices reports each service that has a point once, the last seen first: the timestamp of
-- its newest point, for each of the three usage metrics the value of a newest point of that metric,
-- or 0 where it has none, and the host that one of the newest points of its metrics is labelled with,
-- or "" where none is.
pub query_services-IsOverview :
    (larger_text : Collation) (link : Link) (db : Tables) {rows : List ServiceInfo}
    → query_services larger_text link db ≡ some rows
    → IsOverview db.metrics rows
unfolding query_services grouped
query_services-IsOverview larger_text link db h =
    rw (answered-eq-some link _ h) at (ordered-IsOverview larger_text db.metrics)
