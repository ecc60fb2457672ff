-- ===== src/Nats/Subscription.antt =====
-- The deliveries of one consumer of the stream (internal/nats/jetstream.go: Subscribe). The server
-- keeps each message of the consumer's subject until it is acknowledged, delivers the kept ones again
-- and in any order, and loses an answer or not.
use vkr_public.Base.{
  ℕ, zero, suc, ◌≡◌, refl, ◌⊎◌, inl, inr, Bool, true, false, Option, none, some, List, [], ◌∷◌,
  ◌++◌, Option-cases,
}
use vkr_public.Nats.Defs.{Delivery, ack, nak}

module _ {A : Type 0} where
  abbrev pub pick : ℕ → List A → Option A
  pick k [] = none
  pick zero (x ∷ xs) = some x
  pick (suc k) (x ∷ xs) = pick k xs

  abbrev pub remove_at : ℕ → List A → List A
  remove_at k [] = []
  remove_at zero (x ∷ xs) = xs
  remove_at (suc k) (x ∷ xs) = x ∷ remove_at k xs

  -- What the server keeps after the answer to its k-th message: an acknowledgement that arrives
  -- removes it, and after Nak, or without an answer, it is delivered again.
  abbrev pub settled : Bool → Delivery → ℕ → List A → List A
  settled true ack k kept = remove_at k kept
  settled false ack k kept = kept
  settled arrives nak k kept = kept

  -- The message is among those that the server keeps.
  abbrev pub IsKept : A → List A → Type 0
  IsKept m [] = ⊥
  IsKept m (x ∷ xs) = (m ≡ x) ⊎ IsKept m xs

  pub IsKept-append_left : (m : A) (xs ys : List A) → IsKept m xs → IsKept m (xs ++ ys)
  IsKept-append_left m [] ys h = absurd h
  IsKept-append_left m (x ∷ xs) ys (inl e) = inl e
  IsKept-append_left m (x ∷ xs) ys (inr k) = inr (IsKept-append_left m xs ys k)

  pub IsKept-append_right : (m : A) (xs ys : List A) → IsKept m ys → IsKept m (xs ++ ys)
  IsKept-append_right m [] ys h = h
  IsKept-append_right m (x ∷ xs) ys h = inr (IsKept-append_right m xs ys h)

  pub IsKept-append_self : (m : A) (xs : List A) → IsKept m (xs ++ m ∷ [])
  IsKept-append_self m [] = inl refl
  IsKept-append_self m (x ∷ xs) = inr (IsKept-append_self m xs)

  -- A kept message that is not the one removed stays.
  IsKept-remove_at :
      (m : A) (k : ℕ) (xs : List A) → IsKept m xs → (pick k xs ≡ some m) ⊎ IsKept m (remove_at k xs)
  IsKept-remove_at m k [] h = absurd h
  IsKept-remove_at m zero (x ∷ xs) (inl e) = inl cc
  IsKept-remove_at m zero (x ∷ xs) (inr h) = inr h
  IsKept-remove_at m (suc k) (x ∷ xs) (inl e) = inr (inl e)
  IsKept-remove_at m (suc k) (x ∷ xs) (inr h) = elim (IsKept-remove_at m k xs h) [
    | inl e ↦ inl e
    | inr kept ↦ inr (inr kept)
  ]

  pub IsKept-settled :
      (m : A) (arrives : Bool) (d : Delivery) (k : ℕ) (xs : List A)
      → IsKept m xs
      → ((d ≡ ack) × (pick k xs ≡ some m)) ⊎ IsKept m (settled arrives d k xs)
  IsKept-settled m true ack k xs h = elim (IsKept-remove_at m k xs h) [
    | inl e ↦ inl (refl, e)
    | inr kept ↦ inr kept
  ]
  IsKept-settled m false ack k xs h = inr h
  IsKept-settled m arrives nak k xs h = inr h

module _ {A W S : Type 0} (handle : W → A → S → S × Delivery) where
  abbrev deliver_to : Option A → ℕ → W → Bool → List A × S → List A × S
  deliver_to none k w arrives (kept, s) = (kept, s)
  deliver_to (some m) k w arrives (kept, s) =
      (settled arrives (handle w m s).1 k kept, (handle w m s).0)

  -- The server delivers its k-th message.
  unfoldable pub deliver : ℕ → W → Bool → List A × S → List A × S
  deliver k w arrives (kept, s) = deliver_to (pick k kept) k w arrives (kept, s)

  -- A kept message stays, or was delivered and acknowledged.
  pub deliver-IsKept :
      (m : A) (k : ℕ) (w : W) (arrives : Bool) (kept : List A) (s : S)
      → IsKept m kept
      → IsKept m (deliver k w arrives (kept, s)).0
        ⊎ (((handle w m s).1 ≡ ack) × ((deliver k w arrives (kept, s)).1 ≡ (handle w m s).0))
  unfolding deliver
  deliver-IsKept m k w arrives kept s h = elim (Option-cases (pick k kept)) [
    | inl e ↦ inl (rw e h)
    | inr (x, e) ↦ elim (IsKept-settled m arrives (handle w x s).1 k kept h) [
      | inl (acked, same) ↦ inr (cc, rw (same, deliver_to))
      | inr stays ↦ inl (rw e stays)
    ]
  ]

  -- What every handling keeps is kept by a delivery.
  pub deliver-keeps :
      (P : S → Type 0)
      → ((w : W) (m : A) (s : S) → P s → P (handle w m s).0)
      → (k : ℕ) (w : W) (arrives : Bool) (kept : List A) (s : S) → P s
      → P (deliver k w arrives (kept, s)).1
  unfolding deliver
  deliver-keeps P keep k w arrives kept s h = elim (Option-cases (pick k kept)) [
    | inl e ↦ rw e h
    | inr (x, e) ↦ rw e (keep w x s h)
  ]
