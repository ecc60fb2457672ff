-- ===== src/Collector/Publisher.antt =====
-- `Client.Publish` (internal/nats/jetstream.go), through which both transports of the collector go.
use vkr_public.Base.{
  String, ◌≡◌, refl, Option, none, some, [], ◌∷◌, ◌++◌, arith, ◌⊎◌, inl, inr, Option-cases,
}
use vkr_public.Instant.{TimeText}
use vkr_public.Json.{Json}
use vkr_public.Nats.{JetStream}
use vkr_public.Collector.Requests.{Payload, marshal}

pub data PublishError : Type 0 where
  unsupported_value : PublishError
  broker : String → PublishError

abbrev broker_error : Option String → Option PublishError
broker_error none = none
broker_error (some e) = some (broker e)

abbrev pub Message : Type 0
Message = String × Json

module _ (clock : TimeText) {S : Type 0} (js : JetStream S) where
  abbrev publish_data : S → String → Option Json → S × Option PublishError
  publish_data s subject none = (s, some unsupported_value)
  publish_data s subject (some j) = let (s', e) = js.publish s subject j in (s', broker_error e)

  -- A value that cannot be marshalled is an error before anything is sent.
  unfoldable pub publish : S → String → Payload → S × Option PublishError
  publish s subject v = publish_data s subject (marshal clock v)

  publish_data-stored :
      (s : S) (subject : String) (o : Option Json)
      → (publish_data s subject o).1 ≡ none
      → (j : Json) × (o ≡ some j)
        × (js.stored (publish_data s subject o).0 ≡ js.stored s ++ (subject, j) ∷ [])
  publish_data-stored s subject none h = cc
  publish_data-stored s subject (some j) h = (j, refl, js.stored-publish s subject j (ground arith))

  -- A publication that reports no error is at the end of the stream, as the JSON of its value.
  pub publish_stored :
      (s : S) (subject : String) (v : Payload)
      → (publish s subject v).1 ≡ none
      → (j : Json) × (marshal clock v ≡ some j)
        × (js.stored (publish s subject v).0 ≡ js.stored s ++ (subject, j) ∷ [])
  unfolding publish
  publish_stored s subject v h = publish_data-stored s subject (marshal clock v) h

  publish_data-failed :
      (s : S) (subject : String) (o : Option Json) {e : PublishError}
      → (publish_data s subject o).1 ≡ some e
      → (js.stored (publish_data s subject o).0 ≡ js.stored s)
        ⊎ ((j : Json) × (o ≡ some j)
            × (js.stored (publish_data s subject o).0 ≡ js.stored s ++ (subject, j) ∷ []))
  publish_data-failed s subject none h = inl refl
  publish_data-failed s subject (some j) h = elim (Option-cases (js.publish s subject j).1) [
    | inl sent ↦ ground arith
    | inr (e, lost) ↦ elim (js.stored-publish_failed s subject j lost) [
      | inl same ↦ inl same
      | inr added ↦ inr (j, refl, added)
    ]
  ]

  -- A publication that reports an error has left the stream as it was, or is at its end.
  pub publish_failed :
      (s : S) (subject : String) (v : Payload) {e : PublishError}
      → (publish s subject v).1 ≡ some e
      → (js.stored (publish s subject v).0 ≡ js.stored s)
        ⊎ ((j : Json) × (marshal clock v ≡ some j)
            × (js.stored (publish s subject v).0 ≡ js.stored s ++ (subject, j) ∷ []))
  unfolding publish
  publish_failed s subject v h = publish_data-failed s subject (marshal clock v) h

  -- The value can be marshalled, and the stream reports no error for it.
  abbrev pub Publishes : String → Payload → S → Type 0
  Publishes subject v s =
      (j : Json) × (marshal clock v ≡ some j) × ((js.publish s subject j).1 ≡ none)

  publish_data-none :
      (subject : String) (s : S) (o : Option Json)
      → (publish_data s subject o).1 ≡ none
      → (j : Json) × (o ≡ some j) × ((js.publish s subject j).1 ≡ none)
  publish_data-none subject s none h = cc
  publish_data-none subject s (some j) h = (j, refl, ground arith)

  pub publish-Publishes :
      (subject : String) (v : Payload) (s : S)
      → (publish s subject v).1 ≡ none
      → Publishes subject v s
  unfolding publish
  publish-Publishes subject v s h = publish_data-none subject s (marshal clock v) h

  pub Publishes-publish :
      (subject : String) (v : Payload) (s : S)
      → Publishes subject v s
      → (publish s subject v).1 ≡ none
  unfolding publish
  Publishes-publish subject v s (j, sent, ok) = rw (sent, ok) refl
