-- ===== src/Float64/Order.antt =====
-- Laws of the comparisons.
use vkr_public.Base.{◌≡◌, true, false, ◌⊎◌, arith}
use vkr_public.Float64.Defs.{Float64, is_nan, ltf, lef, zero_f, one_f}

-- At numbers the two comparisons exclude each other and one of them holds.
pub ltf-lef : (x y : Float64) → ltf x y ≡ true → lef y x ≡ false
unfolding ltf lef
ltf-lef x y h = ground arith

pub lef-total :
    (x y : Float64) → is_nan x ≡ false → is_nan y ≡ false → (ltf x y ≡ true) ⊎ (lef y x ≡ true)
unfolding ltf lef is_nan
lef-total x y p q = ground arith

pub not-ltf-nan : (x y : Float64) → is_nan x ≡ true → ltf x y ≡ false
unfolding ltf is_nan
not-ltf-nan x y h = ground arith

pub not-lef-nan : (x y : Float64) → is_nan y ≡ true → lef x y ≡ false
unfolding lef is_nan
not-lef-nan x y h = ground arith

-- What is not below one, and is a number, is positive.
pub positive_of_one_le : (x : Float64) → lef one_f x ≡ true → ltf zero_f x ≡ true
unfolding ltf lef
positive_of_one_le x h = ground arith
