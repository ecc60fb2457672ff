-- ===== src/Base/Digits.antt =====
-- The text of a number is read back as the number.
use Prim.Native.Char.{code}
use Prim.Native.String.{String, ◌++◌}
use Prim.Native.String.append
use Prim.Native.Nat.{ℕ, zero, suc, ◌+◌, ◌-◌, ◌*◌, ◌/◌, ◌%◌, ◌<◌}
use mathlib.Core.Path.{◌≡◌, refl, ap, ◌∙◌}
use native.Mathlib.Omega.{arith}
use vkr_public.Base.Tests.{ltb, Bool-cases, ltb→lt}
use vkr_public.Base.Decimal.{digit, decimal_from, decimal}
use mathlib.Core.Bool.{false}
use mathlib.Core.Logic.{inl, inr}

-- The digits after a number that has been read.
abbrev pub read_digits : ℕ → String → ℕ
read_digits n String.[] = n
read_digits n (String.◌∷◌ c s) = read_digits (n * 10 + (code c - 48)) s

read_digits-append :
    (n : ℕ) (s t : String) → read_digits n (s ++ t) ≡ read_digits (read_digits n s) t
read_digits-append n String.[] t = ap (read_digits n) (append.nil t)
read_digits-append n (String.◌∷◌ c s) t =
    ap (read_digits n) (append.cons c s t) ∙ read_digits-append (n * 10 + (code c - 48)) s t

-- Each of the ten digits.
read_digits-digit : (n d : ℕ) → d < 10 → read_digits n (digit d) ≡ n * 10 + d
unfolding digit
read_digits-digit n zero h = refl
read_digits-digit n (suc zero) h = refl
read_digits-digit n (suc (suc zero)) h = refl
read_digits-digit n (suc (suc (suc zero))) h = refl
read_digits-digit n (suc (suc (suc (suc zero)))) h = refl
read_digits-digit n (suc (suc (suc (suc (suc zero))))) h = refl
read_digits-digit n (suc (suc (suc (suc (suc (suc zero)))))) h = refl
read_digits-digit n (suc (suc (suc (suc (suc (suc (suc zero))))))) h = refl
read_digits-digit n (suc (suc (suc (suc (suc (suc (suc (suc zero)))))))) h = refl
read_digits-digit n (suc (suc (suc (suc (suc (suc (suc (suc (suc zero))))))))) h = refl
read_digits-digit n (suc (suc (suc (suc (suc (suc (suc (suc (suc (suc d)))))))))) h =
    absurd (omega arith)

zero_add : (n : ℕ) → 0 * 10 + n ≡ n
zero_add n = omega arith

split : (n : ℕ) → n / 10 * 10 + n % 10 ≡ n
split n = omega arith

shorter : (fuel n : ℕ) → n < suc fuel → ltb n 10 ≡ false → n / 10 < fuel
shorter fuel n h large = ground arith

read_digits-decimal_from : (fuel n : ℕ) → n < fuel → read_digits 0 (decimal_from fuel n) ≡ n
unfolding decimal_from
read_digits-decimal_from zero n h = absurd (omega arith)
read_digits-decimal_from (suc fuel) n h = elim (Bool-cases (ltb n 10)) [
  | inl small ↦ rw small (read_digits-digit 0 n (ltb→lt n 10 small) ∙ zero_add n)
  | inr large ↦ rw large (
      read_digits-append 0 (decimal_from fuel (n / 10)) (digit (n % 10))
      ∙ read_digits-digit _ (n % 10) (omega arith)
      ∙ ap (λ q. q * 10 + n % 10) (read_digits-decimal_from fuel (n / 10) (shorter fuel n h large))
      ∙ split n)
]

-- The text of a number, whatever its size, reads as the number.
pub read_digits-decimal : (n : ℕ) → read_digits 0 (decimal n) ≡ n
unfolding decimal
read_digits-decimal n = read_digits-decimal_from (suc n) n (omega arith)
