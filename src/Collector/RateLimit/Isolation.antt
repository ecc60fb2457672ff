-- ===== src/Collector/RateLimit/Isolation.antt =====
-- Each address has its own limit.
use vkr_public.Base.{
  ℕ, String, ◌≡◌, refl, Bool, true, false, none, some, List, [], ◌∷◌, arith, ◌==◌, eq_iff,
  if◌then◌else◌, Assoc, lookup, lookup-insert, Option-cases, Bool-cases, inl, inr,
}
use vkr_public.Instant.{Time}
use vkr_public.Collector.RateLimit.{Buckets, limiter, rate_limit, serve}

-- The answers to one address.
abbrev pub answers : String → List (String × Bool) → List Bool
answers ip [] = []
answers ip ((j, b) ∷ rest) = if j == ip then b ∷ answers ip rest else answers ip rest

-- The times of its requests.
abbrev pub times : String → List (String × Time) → List Time
times ip [] = []
times ip ((j, t) ∷ rest) = if j == ip then t ∷ times ip rest else times ip rest

module _ {L : Type 0} (buckets : Buckets L) (rps burst : ℕ) where
  -- One bucket alone, asked at these times.
  abbrev pub alone : L → List Time → List Bool
  alone l [] = []
  alone l (t ∷ ts) = (buckets.allow l t).1 ∷ alone (buckets.allow l t).0 ts

  -- The bucket of an address: the one that the map holds, or a new one.
  abbrev pub bucket_of : String → Assoc L → L
  bucket_of ip clients = elim (lookup ip clients) [
    | some l ↦ l
    | none ↦ buckets.new_limiter rps burst
  ]

  limiter-bucket :
      (ip : String) (clients : Assoc L)
      → (limiter buckets rps burst ip clients).1 ≡ bucket_of ip clients
  unfolding limiter
  limiter-bucket ip clients = ground arith

  lookup-limiter :
      (ip j : String) (clients : Assoc L)
      → (ip == j) ≡ false
      → lookup j (limiter buckets rps burst ip clients).0 ≡ lookup j clients
  unfolding limiter
  lookup-limiter ip j clients other = elim (Option-cases (lookup ip clients)) [
    | inl e ↦ rw (e, limiter) (rw lookup-insert (rw other))
    | inr (l, e) ↦ rw (e, limiter)
  ]

  rate_limit-answer :
      (ip : String) (now : Time) (clients : Assoc L)
      → (rate_limit buckets rps burst ip now clients).1
        ≡ (buckets.allow (bucket_of ip clients) now).1
  unfolding rate_limit
  rate_limit-answer ip now clients = rw (← limiter-bucket ip clients)

  lookup-rate_limit_self :
      (ip j : String) (now : Time) (clients : Assoc L)
      → (ip == j) ≡ true
      → lookup j (rate_limit buckets rps burst ip now clients).0
        ≡ some (buckets.allow (bucket_of ip clients) now).0
  unfolding rate_limit
  lookup-rate_limit_self ip j now clients same =
      rw lookup-insert (rw (same, ← limiter-bucket ip clients))

  lookup-rate_limit_other :
      (ip j : String) (now : Time) (clients : Assoc L)
      → (ip == j) ≡ false
      → lookup j (rate_limit buckets rps burst ip now clients).0 ≡ lookup j clients
  unfolding rate_limit
  lookup-rate_limit_other ip j now clients other =
      rw lookup-insert (rw (other, lookup-limiter ip j clients other))

  bucket_of-rate_limit_self :
      (ip j : String) (now : Time) (clients : Assoc L)
      → (ip == j) ≡ true
      → bucket_of j (rate_limit buckets rps burst ip now clients).0
        ≡ (buckets.allow (bucket_of ip clients) now).0
  bucket_of-rate_limit_self ip j now clients same =
      rw (lookup-rate_limit_self ip j now clients same, bucket_of)

  bucket_of-rate_limit_other :
      (ip j : String) (now : Time) (clients : Assoc L)
      → (ip == j) ≡ false
      → bucket_of j (rate_limit buckets rps burst ip now clients).0 ≡ bucket_of j clients
  bucket_of-rate_limit_other ip j now clients other =
      rw (lookup-rate_limit_other ip j now clients other, bucket_of)

  -- Whatever the other addresses do, an address is answered as by one bucket of its own that is
  -- asked at the times of its requests.
  pub serve-alone :
      (ip : String) (requests : List (String × Time)) (clients : Assoc L)
      → answers ip (serve buckets rps burst requests clients)
        ≡ alone (bucket_of ip clients) (times ip requests)
  unfolding serve
  serve-alone ip [] clients = refl
  serve-alone ip ((j, t) ∷ rest) clients =
      let next = (rate_limit buckets rps burst j t clients).0 in
      let ih = serve-alone ip rest next in
      elim (Bool-cases (j == ip)) [
        | inl same ↦ rw same (
            cc (
              ih,
              (eq_iff j ip).0 same,
              rate_limit-answer j t clients,
              bucket_of-rate_limit_self j ip t clients same,
            ))
        | inr other ↦ rw other (cc (ih, bucket_of-rate_limit_other j ip t clients other))
      ]
