-- ===== src/Collector/Server/Counted.antt =====
-- The counter of requests agrees with the answers.
use vkr_public.Base.{
  sym, ◌∙◌, eq_refl, Bool, true, false, ◌&&◌, eqb, ◌==◌, eq_iff, decimal, read_digits,
  read_digits-decimal, Bool-cases, inl, inr, ap, String, refl, ℕ, ◌+◌, ◌≡◌, List, [], ◌∷◌, arith,
  if◌then◌else◌,
}
use vkr_public.Instant.{TimeText}
use vkr_public.Nats.{JetStream}
use vkr_public.Http.{Body, Reply}
use vkr_public.Collector.RateLimit.{Buckets}
use vkr_public.Metrics.{Labels, CounterVec}
use vkr_public.Metrics.Counting.{same_labels, count_step, value-inc}
use vkr_public.Collector.Server.{
  Route, post_metrics, post_logs, post_traces, get_health, get_prometheus, unmatched, method_of,
  path_of, Request, Server, labels_of, serve_http, serve_run,
}

-- The answers with these labels.
abbrev pub answered_with : Labels → List (Request × Reply Body) → ℕ
answered_with k [] = 0
answered_with k ((r, reply) ∷ rest) =
    let others = answered_with k rest in
    if same_labels (labels_of r.route reply.status) k then others + 1 else others

-- Two requests for one route; those that no route takes are told apart by their methods.
abbrev route_number : Route → ℕ
route_number post_metrics = 0
route_number post_logs = 1
route_number post_traces = 2
route_number get_health = 3
route_number get_prometheus = 4
route_number (unmatched method) = 5

abbrev same_method : Route → Route → Bool
same_method (unmatched method) x = method == method_of x
same_method post_metrics x = true
same_method post_logs x = true
same_method post_traces x = true
same_method get_health x = true
same_method get_prometheus x = true

abbrev same_route : Route → Route → Bool
same_route route x = eqb (route_number route) (route_number x) && same_method route x

-- The answers with this status to requests for this route.
abbrev pub times_answered : Route → ℕ → List (Request × Reply Body) → ℕ
times_answered x n [] = 0
times_answered x n ((r, reply) ∷ rest) =
    let others = times_answered x n rest in
    if same_route r.route x && eqb reply.status n then others + 1 else others

eqb_refl : (n : ℕ) → true ≡ eqb n n
eqb_refl n = ground arith

decimal_injective : (m n : ℕ) → decimal m ≡ decimal n → m ≡ n
decimal_injective m n h = sym (read_digits-decimal m) ∙ ap (read_digits 0) h ∙ read_digits-decimal n

decimal_eq : (m n : ℕ) → (decimal m == decimal n) ≡ eqb m n
decimal_eq m n = elim (Bool-cases (decimal m == decimal n)) [
  | inl e ↦
      rw (decimal_injective m n ((eq_iff (decimal m) (decimal n)).0 e), eq_refl (decimal n))
        (eqb_refl n)
  | inr e ↦ elim (Bool-cases (eqb m n)) [
    | inl same ↦ absurd (differ e (eqb→eq same))
    | inr other ↦ rw (e, other) refl
  ]
]
  where
    eqb→eq : eqb m n ≡ true → m ≡ n
    eqb→eq h = ground arith

    differ : (decimal m == decimal n) ≡ false → m ≡ n → ⊥
    differ e h = cc (e, eq_refl (decimal n), h)

and_false : (b : Bool) → (b && false) ≡ false
and_false true = refl
and_false false = refl

same_labels-route :
    (route x : Route) (m n : ℕ)
    → same_labels (labels_of route m) (labels_of x n) ≡ (same_route route x && eqb m n)
unfolding labels_of
same_labels-route post_metrics post_metrics m n = decimal_eq m n
same_labels-route post_metrics post_logs m n = refl
same_labels-route post_metrics post_traces m n = refl
same_labels-route post_metrics get_health m n = refl
same_labels-route post_metrics get_prometheus m n = refl
same_labels-route post_metrics (unmatched v) m n = and_false ("POST" == v)
same_labels-route post_logs post_metrics m n = refl
same_labels-route post_logs post_logs m n = decimal_eq m n
same_labels-route post_logs post_traces m n = refl
same_labels-route post_logs get_health m n = refl
same_labels-route post_logs get_prometheus m n = refl
same_labels-route post_logs (unmatched v) m n = and_false ("POST" == v)
same_labels-route post_traces post_metrics m n = refl
same_labels-route post_traces post_logs m n = refl
same_labels-route post_traces post_traces m n = decimal_eq m n
same_labels-route post_traces get_health m n = refl
same_labels-route post_traces get_prometheus m n = refl
same_labels-route post_traces (unmatched v) m n = and_false ("POST" == v)
same_labels-route get_health post_metrics m n = refl
same_labels-route get_health post_logs m n = refl
same_labels-route get_health post_traces m n = refl
same_labels-route get_health get_health m n = decimal_eq m n
same_labels-route get_health get_prometheus m n = refl
same_labels-route get_health (unmatched v) m n = and_false ("GET" == v)
same_labels-route get_prometheus post_metrics m n = refl
same_labels-route get_prometheus post_logs m n = refl
same_labels-route get_prometheus post_traces m n = refl
same_labels-route get_prometheus get_health m n = refl
same_labels-route get_prometheus get_prometheus m n = decimal_eq m n
same_labels-route get_prometheus (unmatched v) m n = and_false ("GET" == v)
same_labels-route (unmatched w) post_metrics m n = and_false (w == "POST")
same_labels-route (unmatched w) post_logs m n = and_false (w == "POST")
same_labels-route (unmatched w) post_traces m n = and_false (w == "POST")
same_labels-route (unmatched w) get_health m n = and_false (w == "GET")
same_labels-route (unmatched w) get_prometheus m n = and_false (w == "GET")
same_labels-route (unmatched w) (unmatched v) m n = ap (λ b. (w == v) && b) (decimal_eq m n)

module _ (clock : TimeText) {L S C : Type 0} (buckets : Buckets L) (js : JetStream S)
    (counters : CounterVec C) where
  serve_http-counted :
      (k : Labels) (r : Request) (server : Server L S C)
      → counters.value (serve_http clock buckets js counters r server).0.requests k ≡ (
          if same_labels
            (labels_of r.route (serve_http clock buckets js counters r server).1.status)
            k
          then counters.value server.requests k + 1
          else counters.value server.requests k)
  unfolding serve_http
  serve_http-counted k r server = value-inc counters server.requests _ k

  serve_run-answered_with :
      (k : Labels) (rs : List Request) (server : Server L S C)
      → counters.value (serve_run clock buckets js counters rs server).0.requests k
        ≡ counters.value server.requests k
          + answered_with k (serve_run clock buckets js counters rs server).1
  unfolding serve_run
  serve_run-answered_with k [] server = omega arith
  serve_run-answered_with k (r ∷ rs) server =
      let ih = serve_run-answered_with k rs (serve_http clock buckets js counters r server).0 in
      count_step _ _ _ _ _ (serve_http-counted k r server) ih

  answered_with-route :
      (x : Route) (n : ℕ) (replies : List (Request × Reply Body))
      → answered_with (labels_of x n) replies ≡ times_answered x n replies
  answered_with-route x n [] = refl
  answered_with-route x n ((r, reply) ∷ rest) =
      rw (same_labels-route r.route x reply.status n, answered_with-route x n rest) refl

  -- What a run adds to the counter of some labels is the number of answers with the status to requests
  -- for the route.
  abbrev pub Counts : List Request → Server L S C → (method path : String) → ℕ → Route → Type 0
  Counts rs server method path n x =
      let (last, replies) = serve_run clock buckets js counters rs server in
      let k : Labels = record { method = method; path = path; status = decimal n } in
      counters.value last.requests k ≡ counters.value server.requests k + times_answered x n replies

  serve_run-Counts :
      (x : Route) (n : ℕ) (rs : List Request) (server : Server L S C)
      → Counts rs server (method_of x) (path_of x) n x
  unfolding labels_of
  serve_run-Counts x n rs server =
      rw (answered_with-route x n (serve_run clock buckets js counters rs server).1) at
        (serve_run-answered_with (labels_of x n) rs server)

  -- In every run of the server and for every status, requests_total grows under POST and the paths of
  -- the metrics, the logs and the traces, under GET and the paths of the health and of the exposition,
  -- and under each method and the empty path, by the number of the answers with this status to
  -- requests for that route, or to requests of that method that no route takes. The answers to
  -- requests over the limit are among them.
  pub serve_run-counted :
      (n : ℕ) (method : String) (rs : List Request) (server : Server L S C)
      → Counts rs server "POST" "/api/v1/metrics" n post_metrics
        × Counts rs server "POST" "/api/v1/logs" n post_logs
        × Counts rs server "POST" "/api/v1/traces" n post_traces
        × Counts rs server "GET" "/health" n get_health
        × Counts rs server "GET" "/metrics" n get_prometheus
        × Counts rs server method "" n (unmatched method)
  serve_run-counted n method rs server = (
    serve_run-Counts post_metrics n rs server,
    serve_run-Counts post_logs n rs server,
    serve_run-Counts post_traces n rs server,
    serve_run-Counts get_health n rs server,
    serve_run-Counts get_prometheus n rs server,
    serve_run-Counts (unmatched method) n rs server,
  )
