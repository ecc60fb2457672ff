-- ===== src/Metrics.antt =====
-- The counters of a service (internal/metrics/prometheus.go). They are the Prometheus library's and a
-- parameter.
pub mod Counting
use vkr_public.Base.{ℕ, ◌+◌, String, ◌≡◌, ◌≢◌}

-- The labels of requests_total.
pub record Labels : Type 0 where
  pub method : String
  pub path : String
  pub status : String

-- A vector of counters: Inc raises the one with the labels by 1.
pub record CounterVec (C : Type 0) : Type 0 where
  pub inc : C → Labels → C
  pub value : C → Labels → ℕ
  pub value-inc_self : (c : C) (l : Labels) → value (inc c l) l ≡ value c l + 1
  pub value-inc_other : (c : C) (l k : Labels) → l ≢ k → value (inc c l) k ≡ value c k
