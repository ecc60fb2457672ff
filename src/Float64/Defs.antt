-- ===== src/Float64/Defs.antt =====
-- The representation of a float64 and its order.
use vkr_public.Base.{
  ℕ, String, ◌+◌, ◌-◌, Bool, true, false, not, ◌&&◌, ◌||◌, ltb, leb, eqb, if◌then◌else◌,
}

abbrev pub Float64 : Type 0
Float64 = ℕ

abbrev pub sign_bit : ℕ
sign_bit = 9223372036854775808

-- The magnitude of an infinity: all exponent bits set, no fraction.
abbrev pub infinity_bits : ℕ
infinity_bits = 9218868437227405312

unfoldable pub negative : Float64 → Bool
negative x = leb sign_bit x

unfoldable pub magnitude : Float64 → ℕ
unfolding negative
magnitude x = if negative x then x - sign_bit else x

unfoldable pub is_nan : Float64 → Bool
unfolding magnitude
is_nan x = ltb infinity_bits (magnitude x)

unfoldable pub is_finite : Float64 → Bool
unfolding magnitude
is_finite x = ltb (magnitude x) infinity_bits

abbrev lt_signed : Bool → ℕ → Bool → ℕ → Bool
lt_signed false m false n = ltb m n
lt_signed true m true n = ltb n m
lt_signed true m false n = ltb 0 (m + n)
lt_signed false m true n = false

abbrev le_signed : Bool → ℕ → Bool → ℕ → Bool
le_signed false m false n = leb m n
le_signed true m true n = leb n m
le_signed true m false n = true
le_signed false m true n = eqb (m + n) 0

-- x < y
unfoldable pub ltf : Float64 → Float64 → Bool
unfolding is_nan magnitude negative
ltf x y =
    not (is_nan x || is_nan y) && lt_signed (negative x) (magnitude x) (negative y) (magnitude y)

-- x <= y
unfoldable pub lef : Float64 → Float64 → Bool
unfolding is_nan magnitude negative
lef x y =
    not (is_nan x || is_nan y) && le_signed (negative x) (magnitude x) (negative y) (magnitude y)

abbrev pub zero_f : Float64
zero_f = 0

abbrev pub one_f : Float64
one_f = 0x3FF0000000000000

abbrev pub hundred_f : Float64
hundred_f = 0x4059000000000000

abbrev pub eighty_five_f : Float64
eighty_five_f = 0x4055400000000000

abbrev pub ninety_f : Float64
ninety_f = 0x4056800000000000

-- The conversion of an unsigned integer, the quotient, the seconds of a duration in nanoseconds, and
-- the texts of `%.1f` and `%.0f`, which are not modelled.
pub record FloatOps : Type 0 where
  pub of_uint : ℕ → Float64
  pub quotient : Float64 → Float64 → Float64
  pub seconds : ℕ → Float64
  pub text_1 : Float64 → String
  pub text_0 : Float64 → String
