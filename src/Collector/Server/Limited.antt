-- ===== src/Collector/Server/Limited.antt =====
-- The limit at the level of the server.
use vkr_public.Base.{
  String, ◌≡◌, refl, ap, inl, inr, Bool, true, false, not, Option, none, some, List, [], ◌∷◌, map,
  eqb,
}
use vkr_public.Instant.{Time, TimeText}
use vkr_public.Nats.{JetStream}
use vkr_public.Http.{Body, Reply}
use vkr_public.Collector.RateLimit.{Buckets, rate_limit, serve, too_many_requests}
use vkr_public.Collector.RateLimit.Isolation.{answers, times, alone, bucket_of, serve-alone}
use vkr_public.Collector.Handler.Replies.{
  Received, receive_metrics-Stamped, receive_logs-Received, receive_spans-Received,
}
use vkr_public.Metrics.{CounterVec}
use vkr_public.Collector.Server.{
  Request, Server, post_metrics, post_logs, post_traces, get_health, get_prometheus, unmatched,
  handle_route, limited, serve_http, serve_run,
}

abbrev is_let_through : Reply Body → Bool
is_let_through reply = not (eqb reply.status 429)

-- The answer to a request, as its address and whether it was let through.
abbrev pub verdict : Request × Reply Body → String × Bool
verdict (r, reply) = (r.ip, is_let_through reply)

abbrev pub asking : Request → String × Time
asking r = (r.ip, r.asked)

module _ (clock : TimeText) {L S C : Type 0} (buckets : Buckets L) (js : JetStream S)
    (counters : CounterVec C) where
  Received-let_through :
      {R : Type 0} (subject : String) (v : R → _) (o : Option R) (s : S) (result : S × Reply Body)
      → Received clock js subject v o s result
      → is_let_through result.1 ≡ true
  Received-let_through subject v none s result h = rw h refl
  Received-let_through subject v (some r) s result (inl (h, grown, sent)) = rw h refl
  Received-let_through subject v (some r) s result (inr (h, grown, failed)) = rw h refl

  handle_route-let_through :
      (r : Request) (s : S) → is_let_through (handle_route clock buckets js counters r s).1 ≡ true
  handle_route-let_through r s =
      elim (r.route)
        as (λ route.
          is_let_through (handle_route clock buckets js counters (record r { route = route }) s).1
          ≡ true) [
            | post_metrics ↦
                Received-let_through _ _ _ s _ (receive_metrics-Stamped clock js r.now r.body s)
            | post_logs ↦
                Received-let_through _ _ _ s _ (receive_logs-Received clock js r.now r.body s)
            | post_traces ↦
                Received-let_through _ _ _ s _ (receive_spans-Received clock js r.body s)
            | get_health ↦ refl
            | get_prometheus ↦ refl
            | unmatched _ ↦ refl
          ]

  limited-let_through :
      (passed : Bool) (r : Request) (s : S)
      → is_let_through (limited clock buckets js counters passed r s).1 ≡ passed
  unfolding limited
  limited-let_through true r s = handle_route-let_through r s
  limited-let_through false r s = refl

  serve_http-verdict :
      (r : Request) (server : Server L S C)
      → verdict (r, (serve_http clock buckets js counters r server).1)
        ≡ (r.ip, (rate_limit buckets 100 200 r.ip r.asked server.clients).1)
  unfolding serve_http
  serve_http-verdict r server = ap (λ b. (r.ip, b)) (limited-let_through _ r server.stream)

  serve_http-clients :
      (r : Request) (server : Server L S C)
      → (serve_http clock buckets js counters r server).0.clients
        ≡ (rate_limit buckets 100 200 r.ip r.asked server.clients).0
  unfolding serve_http
  serve_http-clients r server = refl

  serve_run-verdicts :
      (rs : List Request) (server : Server L S C)
      → map verdict (serve_run clock buckets js counters rs server).1
        ≡ serve buckets 100 200 (map asking rs) server.clients
  unfolding serve_run serve
  serve_run-verdicts [] server = refl
  serve_run-verdicts (r ∷ rs) server =
      let ih = serve_run-verdicts rs (serve_http clock buckets js counters r server).0 in
      cc (ih, serve_http-verdict r server, serve_http-clients r server)

  -- In every run of the server, of the requests of one address exactly those are answered 429 that a
  -- token bucket of its own refuses, made for 100 requests a second and bursts of 200 unless there is
  -- one already, and asked at the times of these requests alone.
  pub serve_run-alone :
      (ip : String) (rs : List Request) (server : Server L S C)
      → answers ip (map verdict (serve_run clock buckets js counters rs server).1)
        ≡ alone buckets 100 200
            (bucket_of buckets 100 200 ip server.clients)
            (times ip (map asking rs))
  serve_run-alone ip rs server =
      rw (serve_run-verdicts rs server)
        (serve-alone buckets 100 200 ip (map asking rs) server.clients)

  -- A request over the limit is answered 429 and leaves the stream as it was, whatever its body.
  pub serve_http_refused :
      (r : Request) (server : Server L S C)
      → (rate_limit buckets 100 200 r.ip r.asked server.clients).1 ≡ false
      → ((serve_http clock buckets js counters r server).0.stream ≡ server.stream)
        × ((serve_http clock buckets js counters r server).1 ≡ too_many_requests)
  unfolding serve_http
  serve_http_refused r server over = rw over (refl, refl)
