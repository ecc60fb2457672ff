-- ===== src/Api/Thresholds/Durable.antt =====
-- The thresholds after a restart, and at the agents.
use vkr_public.Base.{ℕ, ◌≡◌, refl, true, Option, arith, inl, inr, Bool-cases, Option-cases}
use vkr_public.Float64.{ltf, is_finite, positive_of_one_le}
use vkr_public.Json.{Json}
use vkr_public.Warn.{Warn, decode_warn, warn_is_finite, encode_warn, all_positive}
use vkr_public.Warn.Laws.{decode_warn-is_finite, decode_warn-encode_warn}
use vkr_public.Storage.Tables.{Tables, Link, up, Loaded, row, failed}
use vkr_public.Storage.Tables.Inserts.{load_settings-save_settings}
use vkr_public.Agent.Thresholds.{Thresholds, fetch}
use vkr_public.Api.Thresholds.{
  Store, new_threshold_store, handle_get, persisted, bound, handle_set, apply_bound, key_thresholds,
  default_warn, loaded_warn, usable, is_out_of_range, response_of,
}
use vkr_public.Api.Thresholds.Accepted.{
  IsAccepted, is_out_of_range-IsAccepted, handle_set_outcome, bound-is_finite,
}

pub bad_request-ne-ok : ◌≡◌ {A = ℕ} 400 200 → ⊥
bad_request-ne-ok h = omega arith

-- The current thresholds can be sent as JSON, and an agent takes them.
pub record IsServable (c : Warn) : Type 0 where
  pub finite : warn_is_finite c ≡ true
  pub positive : all_positive c ≡ true

pub IsAccepted-IsServable : (c : Warn) → warn_is_finite c ≡ true → IsAccepted c → IsServable c
unfolding all_positive
IsAccepted-IsServable c f a = record {
  finite = f;
  positive =
      rw
        (positive_of_one_le _ a.cpu.0, positive_of_one_le _ a.mem.0, positive_of_one_le _ a.disk.0);
}

default_warn-IsServable : IsServable default_warn
unfolding warn_is_finite all_positive is_finite ltf
default_warn-IsServable = record { finite = refl; positive = refl }

loaded_warn-IsServable : (l : Loaded) → IsServable (loaded_warn l)
loaded_warn-IsServable (failed e) = default_warn-IsServable
loaded_warn-IsServable (row j) = elim (Option-cases (decode_warn j)) [
  | inl e ↦ rw (e, usable) default_warn-IsServable
  | inr (c, e) ↦ elim (Bool-cases (all_positive c)) [
    | inl p ↦ rw (e, usable) (rw p (record { finite = decode_warn-is_finite j e; positive = p }))
    | inr p ↦ rw (e, usable) (rw p default_warn-IsServable)
  ]
]

-- The thresholds that the API starts with are finite and positive, whatever the database holds or
-- fails with.
pub new_threshold_store-IsServable :
    (link : Link) (db : Tables) → IsServable (new_threshold_store link db).cfg
unfolding new_threshold_store
new_threshold_store-IsServable link db = loaded_warn-IsServable _

-- Finite and positive thresholds stay so at every PUT, whatever its body and the fate of its
-- statement.
pub handle_set-IsServable :
    (link : Link) (body : Option Json) (s : Store)
    → IsServable s.cfg
    → IsServable (handle_set link body s).0.cfg
handle_set-IsServable link body s v = elim (handle_set_outcome link body s) [
  | inl (c, good, a, now, _) ↦ rw now (IsAccepted-IsServable c (bound-is_finite body good) a)
  | inr (_, same, _) ↦ rw same v
]

restart-persisted :
    (c : Warn) (s : Store)
    → IsServable c
    → (new_threshold_store up (persisted up c (record s { cfg = c })).db).cfg ≡ c
unfolding new_threshold_store
restart-persisted c s v =
    rw (v.finite, load_settings-save_settings key_thresholds key_thresholds (encode_warn c) s.db)
      (rw (decode_warn-encode_warn c v.finite) (rw v.positive))

-- A restart of the API after a PUT that was answered 200 and whose statement the database executed
-- finds the thresholds that were put.
pub new_threshold_store-handle_set :
    (body : Option Json) (s : Store)
    → (handle_set up body s).1.status ≡ 200
    → (new_threshold_store up (handle_set up body s).0.db).cfg ≡ (handle_set up body s).0.cfg
unfolding handle_set
new_threshold_store-handle_set body s h = elim (Option-cases (bound body)) [
  | inl bad ↦ absurd (bad_request-ne-ok (rw (bad, apply_bound) at h))
  | inr (c, good) ↦ elim (Bool-cases (is_out_of_range c)) [
    | inl out ↦ absurd (bad_request-ne-ok (rw (good, out) at h))
    | inr fits ↦
        rw (good, fits)
          (restart-persisted c s (
            IsAccepted-IsServable c (bound-is_finite body good)
              (is_out_of_range-IsAccepted c (bound-is_finite body good) fits)))
  ]
]

-- Where the thresholds of the store are finite and positive, an agent that fetches what GET answers
-- takes exactly these.
pub fetch-handle_get :
    (s : Store) (t : Thresholds)
    → IsServable s.cfg
    → fetch (response_of (handle_get s)) t
      ≡ record { cpu = s.cfg.cpu_warn; mem = s.cfg.mem_warn; disk = s.cfg.disk_warn }
unfolding fetch handle_get
fetch-handle_get s t v = rw v.finite (rw (decode_warn-encode_warn s.cfg v.finite) (rw v.positive))
