-- ===== src/Collector/Grpc/Delivery.antt =====
-- What is in the stream after a call of the gRPC server.
use vkr_public.Base.{
  ℕ, suc, ◌≤◌, String, ◌≡◌, refl, sym, ◌∙◌, inl, inr, none, some, List, [], ◌∷◌, ◌++◌, append-nil,
  append_assoc, arith, length, take, Option-cases,
}
use vkr_public.Instant.{TimeText}
use vkr_public.Nats.{JetStream}
use vkr_public.Collector.Requests.{Payload, marshal}
use vkr_public.Collector.Publisher.{PublishError, Message, publish, publish_stored, publish_failed}
use vkr_public.Collector.Grpc.{Response, accepted, internal, publish_each, respond}

some_not_none {ℓ} : {A : Type ℓ} {a : A} → some a ≡ none → ⊥
some_not_none h = cc

module _ (clock : TimeText) where
  -- The messages are the JSON of the values, in their order, under the subject.
  abbrev pub Encodes : String → List Payload → List Message → Type 0
  Encodes subject [] [] = Unit
  Encodes subject [] (m ∷ ms) = ⊥
  Encodes subject (v ∷ vs) [] = ⊥
  Encodes subject (v ∷ vs) (m ∷ ms) =
      (m.0 ≡ subject) × (marshal clock v ≡ some m.1) × Encodes subject vs ms

module _ (clock : TimeText) {S : Type 0} (js : JetStream S) where
  -- The stream has grown by exactly these values.
  abbrev pub Grown : S → S → String → List Payload → Type 0
  Grown s s' subject vs =
      (sent : List Message) × Encodes clock subject vs sent × (js.stored s' ≡ js.stored s ++ sent)

  Grown-cons :
      (s s' s'' : S) (subject : String) (v : Payload) (vs : List Payload)
      → Grown s s' subject (v ∷ [])
      → Grown s' s'' subject vs
      → Grown s s'' subject (v ∷ vs)
  Grown-cons s s' s'' subject v vs (m ∷ [], (a, b, _), first) (sent, enc, later) =
      (m ∷ sent, (a, b, enc), rw (later, first) (append_assoc (js.stored s) (m ∷ []) sent))
  Grown-cons s s' s'' subject v vs ([], a, first) _ = elim a [ ]
  Grown-cons s s' s'' subject v vs (m ∷ n ∷ ms, a, first) _ = absurd a.2

  pub publish-Grown :
      (s : S) (subject : String) (v : Payload)
      → (publish clock js s subject v).1 ≡ none
      → Grown s (publish clock js s subject v).0 subject (v ∷ [])
  publish-Grown s subject v h =
      let (j, enc, at_end) = publish_stored clock js s subject v h in
      ((subject, j) ∷ [], (refl, enc, tt), at_end)

  pub publish_each-Grown :
      (subject : String) (vs : List Payload) (s : S)
      → (publish_each clock js subject vs s).1 ≡ none
      → Grown s (publish_each clock js subject vs s).0 subject vs
  unfolding publish_each
  publish_each-Grown subject [] s h = ([], tt, sym (append-nil _))
  publish_each-Grown subject (v ∷ vs) s h = elim (Option-cases (publish clock js s subject v).1) [
    | inl sent ↦
        rw (sent, publish_each)
          (Grown-cons s _ _ subject v vs (publish-Grown s subject v sent)
            (publish_each-Grown subject vs _ (rw (sent, publish_each) at h)))
    | inr (e, failed) ↦ absurd (some_not_none (rw (failed, publish_each) at h))
  ]

  -- The stream has grown by the first of these values, up to some place.
  abbrev pub GrownPrefix : S → S → String → List Payload → Type 0
  GrownPrefix s s' subject vs = (k : ℕ) × (k ≤ length vs) × Grown s s' subject (take k vs)

  pub publish-GrownPrefix :
      (s : S) (subject : String) (v : Payload) (vs : List Payload) {e : PublishError}
      → (publish clock js s subject v).1 ≡ some e
      → GrownPrefix s (publish clock js s subject v).0 subject (v ∷ vs)
  publish-GrownPrefix s subject v vs h = elim (publish_failed clock js s subject v h) [
    | inl same ↦ (0, omega arith, ([], tt, same ∙ sym (append-nil _)))
    | inr (j, enc, added) ↦ (1, omega arith, ((subject, j) ∷ [], (refl, enc, tt), added))
  ]

  pub publish_each-GrownPrefix :
      (subject : String) (vs : List Payload) (s : S) {e : PublishError}
      → (publish_each clock js subject vs s).1 ≡ some e
      → GrownPrefix s (publish_each clock js subject vs s).0 subject vs
  unfolding publish_each
  publish_each-GrownPrefix subject [] s h = absurd (some_not_none (sym h))
  publish_each-GrownPrefix subject (v ∷ vs) s {e} h =
      elim (Option-cases (publish clock js s subject v).1) [
        | inl sent ↦
            let (k, le, grown) =
              publish_each-GrownPrefix subject vs (publish clock js s subject v).0 {e = e}
                (rw (sent, publish_each) at h) in
            rw (sent, publish_each)
              (
                suc k,
                omega arith,
                Grown-cons s _ _ subject v (take k vs) (publish-Grown s subject v sent) grown,
              )
        | inr (e', failed) ↦ rw (failed, publish_each) (publish-GrownPrefix s subject v vs failed)
      ]

  -- What a response says of the stream: after `accepted n` all the values are in it, after an error
  -- the first of them up to some place.
  abbrev pub Outcome : S → S → String → List Payload → ℕ → Response → Type 0
  Outcome s s' subject vs n (accepted k) = (k ≡ n) × Grown s s' subject vs
  Outcome s s' subject vs n (internal e) = GrownPrefix s s' subject vs

  pub respond-Outcome :
      (subject : String) (vs : List Payload) (n : ℕ) (s : S)
      → let r = respond clock js n (publish_each clock js subject vs s) in
        Outcome s r.0 subject vs n r.1
  respond-Outcome subject vs n s = elim (Option-cases (publish_each clock js subject vs s).1) [
    | inl sent ↦ rw (sent, respond) (refl, publish_each-Grown subject vs s sent)
    | inr (e, failed) ↦ rw (failed, respond) (publish_each-GrownPrefix subject vs s failed)
  ]
