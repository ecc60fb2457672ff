-- ===== src/Ids.antt =====
-- Go's `%x` of bytes, and the random identifiers: newID of cmd/agent/client.go, newSpanID of
-- cmd/collector/grpc_server.go and newAggSpanID of cmd/aggregator/consumer.go. The source of the
-- random bytes is an argument: its k-th byte for each k.
mod Examples
use Prim.Native.Char.{Char, code}
use Prim.Native.String.{String}
use Prim.Native.Nat.{ℕ, zero, suc, ◌+◌, ◌*◌, ◌/◌, ◌%◌, ◌<◌, ◌≤◌}
use mathlib.Core.Path.{◌≡◌, refl, ap}
use mathlib.Core.Option.{Option, none, some}
use mathlib.Core.List.{List, [], ◌∷◌}
use native.Mathlib.Omega.{arith}
use vkr_public.Base.{eqb, if◌then◌else◌, length, All}

abbrev hex_digits : List Char
hex_digits =
    "0" ∷ "1" ∷ "2" ∷ "3" ∷ "4" ∷ "5" ∷ "6" ∷ "7" ∷ "8" ∷ "9" ∷ "a" ∷ "b" ∷ "c" ∷ "d" ∷ "e" ∷ "f"
    ∷ []

abbrev nth : ℕ → List Char → Char
nth d [] = "0"
nth zero (c ∷ cs) = c
nth (suc d) (c ∷ cs) = nth d cs

abbrev hex_digit : ℕ → Char
hex_digit d = nth d hex_digits

-- Two digits for each byte, the high one first.
unfoldable pub hex : List ℕ → String
hex [] = ""
hex (b ∷ bs) = String.◌∷◌ (hex_digit (b / 16)) (String.◌∷◌ (hex_digit (b % 16)) (hex bs))

-- rand.Read into a slice of n bytes.
abbrev pub read_bytes : ℕ → (ℕ → ℕ) → List ℕ
read_bytes zero random = []
read_bytes (suc n) random = random 0 ∷ read_bytes n (λ k. random (suc k))

-- The identifiers: 16 random bytes at the agent, and 8 at the collector and the aggregator.
unfoldable pub new_id : (ℕ → ℕ) → String
unfolding hex
new_id random = hex (read_bytes 16 random)

unfoldable pub new_span_id : (ℕ → ℕ) → String
unfolding hex
new_span_id random = hex (read_bytes 8 random)

unfoldable pub new_agg_span_id : (ℕ → ℕ) → String
unfolding hex
new_agg_span_id random = hex (read_bytes 8 random)

-- hex.DecodeString: the value of a digit, and the bytes of a text of digits.
abbrev index_of : Char → List Char → ℕ → Option ℕ
index_of c [] d = none
index_of c (x ∷ xs) d = if eqb (code c) (code x) then some d else index_of c xs (suc d)

abbrev digit_value : Char → Option ℕ
digit_value c = index_of c hex_digits 0

abbrev with_byte : Option ℕ → Option ℕ → Option (List ℕ) → Option (List ℕ)
with_byte (some high) (some low) (some bs) = some ((high * 16 + low) ∷ bs)
with_byte high low bs = none

unfoldable pub decode_hex : String → Option (List ℕ)
decode_hex String.[] = some []
decode_hex (String.◌∷◌ a String.[]) = none
decode_hex (String.◌∷◌ a (String.◌∷◌ b s)) =
    with_byte (digit_value a) (digit_value b) (decode_hex s)

abbrev pub characters : String → ℕ
characters String.[] = 0
characters (String.◌∷◌ c s) = suc (characters s)

abbrev Below {ℓ} : (ℕ → Type ℓ) → ℕ → Type ℓ
Below P zero = Unit
Below P (suc n) = P 0 × Below (λ k. P (suc k)) n

below_lem {ℓ} : (P : ℕ → Type ℓ) (n d : ℕ) → Below P n → d < n → P d
below_lem P zero d h less = absurd (omega arith)
below_lem P (suc n) zero (p, h) less = p
below_lem P (suc n) (suc d) (p, h) less = below_lem (λ k. P (suc k)) n d h (omega arith)

digit_value-hex_digit : (d : ℕ) → d < 16 → digit_value (hex_digit d) ≡ some d
digit_value-hex_digit d less =
    below_lem (λ n. digit_value (hex_digit n) ≡ some n) 16 d
      (
        refl,
        (
          refl,
          (
            refl,
            (
              refl,
              (
                refl,
                (
                  refl,
                  (
                    refl,
                    (refl, (refl, (refl, (refl, (refl, (refl, (refl, (refl, (refl, tt))))))))),
                  ),
                ),
              ),
            ),
          ),
        ),
      )
      less

characters-hex : (bs : List ℕ) → characters (hex bs) ≡ 2 * length bs
unfolding hex
characters-hex [] = refl
characters-hex (b ∷ bs) = omega (arith, characters-hex bs)

decode_hex-hex : (bs : List ℕ) → All (λ b. b < 256) bs → decode_hex (hex bs) ≡ some bs
unfolding decode_hex hex
decode_hex-hex [] h = refl
decode_hex-hex (b ∷ bs) (small, h) =
    rw
      (
        digit_value-hex_digit (b / 16) (omega (arith, small)),
        digit_value-hex_digit (b % 16) (omega arith),
        decode_hex-hex bs h,
      )
      (ap (λ n. some (n ∷ bs)) (omega arith))

abbrev pub IsBytes : (ℕ → ℕ) → Type 0
IsBytes random = (k : ℕ) → random k < 256

read_bytes-All :
    (n : ℕ) (random : ℕ → ℕ) → IsBytes random → All (λ b. b < 256) (read_bytes n random)
read_bytes-All zero random h = tt
read_bytes-All (suc n) random h = (h 0, read_bytes-All n (λ k. random (suc k)) (λ k. h (suc k)))

-- Whatever the random source gives, an identifier of the agent has 32 characters and is the hexadecimal
-- of sixteen bytes of the source, and one of the collector or the aggregator has 16 and is that of
-- eight, so that different bytes give different identifiers.
pub new_id-decode :
    (random : ℕ → ℕ)
    → IsBytes random
    → (decode_hex (new_id random) ≡ some (read_bytes 16 random))
      × (characters (new_id random) ≡ 32)
      × (decode_hex (new_span_id random) ≡ some (read_bytes 8 random))
      × (characters (new_span_id random) ≡ 16)
      × (decode_hex (new_agg_span_id random) ≡ some (read_bytes 8 random))
      × (characters (new_agg_span_id random) ≡ 16)
unfolding new_id new_span_id new_agg_span_id
new_id-decode random bytes = (
  decode_hex-hex _ (read_bytes-All 16 random bytes),
  characters-hex (read_bytes 16 random),
  decode_hex-hex _ (read_bytes-All 8 random bytes),
  characters-hex (read_bytes 8 random),
  decode_hex-hex _ (read_bytes-All 8 random bytes),
  characters-hex (read_bytes 8 random),
)
