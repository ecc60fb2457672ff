-- ===== src/Storage/Services/Series.antt =====
-- The newest point of each series, and what the overview reads from it.
use mathlib.Core.List.{Mem, mem-cons_self, not-mem-nil}
use mathlib.Core.List.Perm
use native.Mathlib.Nat.{le_trans, le_refl}
use native.Mathlib.Bridge.{le_prop}
use vkr_public.Base.{
  ◌≤◌, String, ◌≡◌, refl, ◌⊎◌, inl, inr, Bool, true, List, [], ◌∷◌, ◌==◌, ◌&&◌, eq_iff, arith, map,
  All,
}
use vkr_public.Float64.{Float64, zero_f}
use vkr_public.Storage.Select.{where_rows, order_by, newest, aggregate, largest}
use vkr_public.Storage.Select.Laws.{IsSorted, order_by-IsSorted, order_by-perm, All-where_rows}
use vkr_public.Storage.Select.Found.{Mem-where_rows}
use vkr_public.Storage.Select.Distinct.{where_rows_and, first, where_rows-distinct_on}
use vkr_public.Storage.Select.Members.{All_at, All_of_Mem, where_rows-IsSorted, Mem_of_where_rows}
use vkr_public.Storage.Tables.{MetricPoint}
use vkr_public.Storage.Services.{
  same_series, latest_points, of_service, filtered_max, coalesce, larger_float,
}

abbrev pub is_series : String → String → MetricPoint → Bool
is_series service metric m = m.service_name == service && m.metric_name == metric

abbrev pub by_time : List MetricPoint → List MetricPoint
by_time ms = order_by (newest (λ m. m.timestamp)) ms

series_joins :
    (service metric : String) (x y : MetricPoint)
    → is_series service metric x ≡ true
    → is_series service metric y ≡ true
    → same_series x y ≡ true
series_joins service metric x y p q = ground (
  arith,
  eq_iff x.service_name service,
  eq_iff y.service_name service,
  eq_iff x.metric_name metric,
  eq_iff y.metric_name metric,
  eq_iff x.service_name y.service_name,
  eq_iff x.metric_name y.metric_name,
)

series_closed :
    (service metric : String) (x y : MetricPoint)
    → same_series x y ≡ true
    → is_series service metric y ≡ true
    → is_series service metric x ≡ true
series_closed service metric x y p q = ground (
  arith,
  eq_iff x.service_name service,
  eq_iff y.service_name service,
  eq_iff x.metric_name metric,
  eq_iff y.metric_name metric,
  eq_iff x.service_name y.service_name,
  eq_iff x.metric_name y.metric_name,
)

pub latest_points-series :
    (service metric : String) (ms : List MetricPoint)
    → where_rows (is_series service metric) (latest_points ms)
      ≡ first (where_rows (is_series service metric) (by_time ms))
unfolding latest_points
latest_points-series service metric ms =
    where_rows-distinct_on same_series (is_series service metric) (series_joins service metric)
      (series_closed service metric) (by_time ms)

by_time-IsSorted :
    (ms : List MetricPoint) → IsSorted (λ x y. y.timestamp ≤ x.timestamp) (by_time ms)
by_time-IsSorted ms =
    order_by-IsSorted (newest (λ m. m.timestamp)) (λ x y. y.timestamp ≤ x.timestamp)
      (λ x y e. ground arith) (λ x y e. ground arith) (λ x y z a b. le_trans b a) ms

pub Bool_path_prop : (a b : Bool) → IsProp (a ≡ b)
Bool_path_prop a b = hlevel

pub Mem-by_time :
    (q : MetricPoint → Bool) (ms : List MetricPoint) (a : MetricPoint)
    → Mem a (where_rows q ms)
    → Mem a (where_rows q (by_time ms))
Mem-by_time q ms a m =
    Mem-where_rows q a (by_time ms)
      (All_at (λ x. Bool_path_prop (q x) true) (where_rows q ms) (All-where_rows q ms) m)
      ((Perm.mem_iff (order_by-perm (newest (λ x. x.timestamp)) ms)).1 (Mem_of_where_rows q ms m))

eq-nil_of_no_mem : (xs : List MetricPoint) → ((a : MetricPoint) → Mem a xs → ⊥) → xs ≡ []
eq-nil_of_no_mem [] h = refl
eq-nil_of_no_mem (x ∷ xs) h = absurd (h x mem-cons_self)

-- A point of the series that is as new as any.
pub record Newest (q : MetricPoint → Bool) (ms : List MetricPoint) (m : MetricPoint) : Type 0 where
  pub stored : Mem m ms
  pub matching : q m ≡ true
  pub newest : All (λ x. x.timestamp ≤ m.timestamp) (where_rows q ms)

-- The first of the points in order is the newest.
pub first-Newest :
    (q : MetricPoint → Bool) (ms : List MetricPoint) (m : MetricPoint) (rest : List MetricPoint)
    → where_rows q (by_time ms) ≡ m ∷ rest
    → Newest q ms m
first-Newest q ms m rest e =
    let found : Mem m (where_rows q (by_time ms)) = rw e mem-cons_self in
    let sorted = rw e at (where_rows-IsSorted _ q (by_time ms) (by_time-IsSorted ms)) in
    let perm = order_by-perm (newest (λ x. x.timestamp)) ms in
    record {
      stored = (Perm.mem_iff perm).0 (Mem_of_where_rows q (by_time ms) found);
      matching = (rw e at (All-where_rows q (by_time ms))).0;
      newest = All_of_Mem (where_rows q ms) λ a k.
          All_at (λ x. le_prop) (m ∷ rest) (le_refl m.timestamp, sorted.0)
            (rw e at (Mem-by_time q ms a k));
    }

-- What the overview shows for a metric of a service: the value of a newest point, or 0.
abbrev pub Reading : String → String → List MetricPoint → Float64 → Type 0
Reading service metric ms v =
    ((where_rows (is_series service metric) ms ≡ []) × (v ≡ zero_f))
    ⊎ ((m : MetricPoint) × Newest (is_series service metric) ms m × (m.value ≡ v))

first_reading :
    (service metric : String) (ms xs : List MetricPoint)
    → where_rows (is_series service metric) (by_time ms) ≡ xs
    → Reading service metric ms
        (coalesce (aggregate larger_float (map (λ m. m.value) (first xs))) zero_f)
unfolding aggregate largest
first_reading service metric ms [] e = inl (
  eq-nil_of_no_mem _ λ a k. not-mem-nil (rw e at (Mem-by_time (is_series service metric) ms a k)),
  refl,
)
first_reading service metric ms (m ∷ rest) e = inr (m, first-Newest _ ms m rest e, refl)

pub filtered_max-Reading :
    (service metric : String) (ms : List MetricPoint)
    → Reading service metric ms
        (filtered_max metric (where_rows (of_service service) (latest_points ms)))
unfolding filtered_max
filtered_max-Reading service metric ms =
    rw (where_rows_and, latest_points-series service metric ms)
      (first_reading service metric ms _ refl)
