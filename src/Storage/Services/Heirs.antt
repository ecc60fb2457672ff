-- ===== src/Storage/Services/Heirs.antt =====
-- The newest points stand for all, and a group has a newest point.
use mathlib.Core.List.{Mem, mem-cons_self, mem-cons_of_mem, not-mem-nil}
use native.Mathlib.Nat.{le_refl}
use native.Mathlib.Bridge.{le_prop}
use vkr_public.Base.{
  ℕ, ◌≤◌, String, ◌≡◌, refl, inl, inr, true, List, [], ◌∷◌, eq_iff, eq_refl, leb, arith, map, All,
  Bool-cases,
}
use vkr_public.Storage.Select.{where_rows, largest}
use vkr_public.Storage.Select.Laws.{All-imp}
use vkr_public.Storage.Select.Found.{Mem-where_rows}
use vkr_public.Storage.Select.Members.{All_at, Mem_of_where_rows}
use vkr_public.Storage.Tables.{MetricPoint}
use vkr_public.Storage.Services.{latest_points, larger_time}
use vkr_public.Storage.Services.Series.{
  is_series, by_time, first-Newest, latest_points-series, Mem-by_time,
}

-- Each point has a point of its service among the newest ones that is as new.
pub record Heir (ms : List MetricPoint) (p : MetricPoint) : Type 0 where
  pub point : MetricPoint
  pub kept : Mem point (latest_points ms)
  pub kin : point.service_name ≡ p.service_name
  pub no_older : p.timestamp ≤ point.timestamp

own_series : (p : MetricPoint) → is_series p.service_name p.metric_name p ≡ true
own_series p = rw (eq_refl p.service_name, eq_refl p.metric_name)

service_of_series :
    (service metric : String) (m : MetricPoint)
    → is_series service metric m ≡ true
    → m.service_name ≡ service
service_of_series service metric m h = ground (arith, eq_iff m.service_name service)

pub exists-Heir :
    (ms xs : List MetricPoint) (p : MetricPoint)
    → Mem p ms
    → where_rows (is_series p.service_name p.metric_name) (by_time ms) ≡ xs
    → Heir ms p
exists-Heir ms [] p m e =
    let q = is_series p.service_name p.metric_name in
    absurd (not-mem-nil (rw e at (Mem-by_time q ms p (Mem-where_rows q p ms (own_series p) m))))
exists-Heir ms (h ∷ rest) p m e =
    let q = is_series p.service_name p.metric_name in
    let top = first-Newest q ms h rest e in
    record {
      point = h;
      kept =
          Mem_of_where_rows q (latest_points ms)
            (rw (latest_points-series p.service_name p.metric_name ms, e) mem-cons_self);
      kin = service_of_series p.service_name p.metric_name h top.matching;
      no_older =
          All_at (λ x. le_prop) (where_rows q ms) top.newest
            (Mem-where_rows q p ms (own_series p) m);
    }

-- The newest of a list of points.
pub record IsMax (t : ℕ) (xs : List MetricPoint) : Type 0 where
  pub bound : All (λ x. x.timestamp ≤ t) xs
  pub point : MetricPoint
  pub reached : Mem point xs
  pub at_time : point.timestamp ≡ t

pub largest-IsMax :
    (x : MetricPoint) (xs : List MetricPoint)
    → IsMax (largest larger_time x.timestamp (map (λ m. m.timestamp) xs)) (x ∷ xs)
unfolding largest larger_time
largest-IsMax x [] = record {
  bound = (le_refl x.timestamp, tt);
  point = x;
  reached = mem-cons_self;
  at_time = refl;
}
largest-IsMax x (y ∷ ys) =
    let rest = largest-IsMax y ys in
    elim (Bool-cases
      (leb x.timestamp (largest larger_time y.timestamp (map (λ m. m.timestamp) ys)))) [
        | inl e ↦ rw e (record {
          bound = (ground arith, rest.bound);
          point = rest.point;
          reached = mem-cons_of_mem x rest.reached;
          at_time = rest.at_time;
        })
        | inr e ↦ rw e (record {
          bound = (le_refl x.timestamp, All-imp (λ z h. ground arith) (y ∷ ys) rest.bound);
          point = x;
          reached = mem-cons_self;
          at_time = refl;
        })
      ]
