-- ===== src/Warn/Laws.antt =====
-- Decoded thresholds are finite, and encoding loses nothing.
use mathlib.Core.Option
use vkr_public.Base.{
  String, ◌≡◌, refl, Bool, true, Option, none, some, [], ◌∷◌, arith, Assoc, Option-cases, inl, inr,
}
use vkr_public.Float64.{Float64, is_finite}
use vkr_public.Json.{Json, null, obj, num, entries, float_into, struct_into, members_into}
use vkr_public.Warn.{Warn, zero_warn, set_warn, decode_warn, warn_is_finite, encode_warn}

pub decode_warn-encode_warn :
    (c : Warn) → warn_is_finite c ≡ true → decode_warn (encode_warn c) ≡ some c
unfolding decode_warn warn_is_finite struct_into members_into float_into Option.bind
decode_warn-encode_warn c h = ground arith

-- A failed decoding has no value to test.
abbrev holds {ℓ} : {A : Type ℓ} → (A → Bool) → Option A → Bool
holds p none = true
holds p (some a) = p a

float_into-is_finite :
    (j : Json) (old : Float64) → is_finite old ≡ true → holds is_finite (float_into j old) ≡ true
unfolding float_into
float_into-is_finite null old h = h
float_into-is_finite (num y) old h = ground arith
float_into-is_finite _ old h = refl

set_warn-is_finite :
    (k : String) (j : Json) (c : Warn)
    → warn_is_finite c ≡ true
    → holds warn_is_finite (set_warn k j c) ≡ true
unfolding set_warn warn_is_finite
set_warn-is_finite k j c h = ground (
  arith,
  float_into-is_finite j c.cpu_warn,
  float_into-is_finite j c.mem_warn,
  float_into-is_finite j c.disk_warn,
)

members_into-is_finite :
    (l : Assoc Json) (c : Warn)
    → warn_is_finite c ≡ true
    → holds warn_is_finite (members_into set_warn l c) ≡ true
unfolding members_into Option.bind
members_into-is_finite [] c h = h
members_into-is_finite ((k, j) ∷ l) c h = elim (Option-cases (set_warn k j c)) [
  | inl e ↦ rw e
  | inr (c', e) ↦ rw e (members_into-is_finite l c' (rw (e, holds) at (set_warn-is_finite k j c h)))
]

decode_warn-holds : (j : Json) → holds warn_is_finite (decode_warn j) ≡ true
unfolding decode_warn struct_into warn_is_finite is_finite
decode_warn-holds (obj fs) =
    members_into-is_finite (entries fs) zero_warn (unfold warn_is_finite is_finite in refl)
decode_warn-holds _ = refl

-- Thresholds that were decoded are numbers, and no infinity.
pub decode_warn-is_finite : (j : Json) {c : Warn} → decode_warn j ≡ some c → warn_is_finite c ≡ true
decode_warn-is_finite j h = rw (h, holds) at (decode_warn-holds j)
