-- ===== src/Collector/RateLimit.antt =====
-- The rate limit of the collector's HTTP server (cmd/collector/ratelimit.go): one token bucket for
-- each client address, made at its first request. The bucket is a library's and a parameter.
pub mod Isolation
use vkr_public.Base.{
  ℕ, String, Bool, true, false, Option, none, some, List, [], ◌∷◌, if◌then◌else◌, Assoc, lookup,
  insert,
}
use vkr_public.Instant.{Time}
use vkr_public.Http.{Body, error_text, Reply}

-- rate.NewLimiter and Limiter.Allow, which reads the clock.
pub record Buckets (L : Type 0) : Type 0 where
  pub new_limiter : ℕ → ℕ → L
  pub allow : L → Time → L × Bool

module _ {L : Type 0} (buckets : Buckets L) (rps burst : ℕ) where
  -- `limiter(ip)`: the limiter of the address, and the map with it.
  unfoldable pub limiter : String → Assoc L → Assoc L × L
  unfolding lookup insert
  limiter ip clients = elim (lookup ip clients) [
    | some l ↦ (clients, l)
    | none ↦ (insert ip (buckets.new_limiter rps burst) clients, buckets.new_limiter rps burst)
  ]

  -- Allow changes the limiter that the map holds. `true` lets the request through, and `false`
  -- aborts it with 429.
  unfoldable pub rate_limit : String → Time → Assoc L → Assoc L × Bool
  unfolding limiter
  rate_limit ip now clients =
      let (clients', l) = limiter ip clients in
      let (l', passed) = buckets.allow l now in (insert ip l' clients', passed)

  -- The requests of a run, each with its answer.
  unfoldable pub serve : List (String × Time) → Assoc L → List (String × Bool)
  unfolding rate_limit
  serve [] clients = []
  serve ((ip, now) ∷ rest) clients =
      (ip, (rate_limit ip now clients).1) ∷ serve rest (rate_limit ip now clients).0

abbrev pub too_many_requests : Reply Body
too_many_requests = record { status = 429; body = error_text "rate limit exceeded" }
