-- ===== src/Ids/Examples.antt =====
-- An identifier of concrete bytes.
use vkr_public.Base.{ℕ, ◌*◌, ◌+◌, ◌%◌, ◌≡◌, refl, some, arith}
use vkr_public.Ids.{
  new_id, new_span_id, new_agg_span_id, characters, decode_hex, read_bytes, new_id-decode,
}

abbrev source : ℕ → ℕ
source k = (k * 37 + 5) % 256

new_span_id_test : new_span_id source ≡ "052a4f7499bee308"
unfolding new_span_id
new_span_id_test = refl

new_id-decode_example :
    (decode_hex (new_id source) ≡ some (read_bytes 16 source))
    × (characters (new_id source) ≡ 32)
    × (decode_hex (new_span_id source) ≡ some (read_bytes 8 source))
    × (characters (new_span_id source) ≡ 16)
    × (decode_hex (new_agg_span_id source) ≡ some (read_bytes 8 source))
    × (characters (new_agg_span_id source) ≡ 16)
new_id-decode_example = new_id-decode source (λ k. omega arith)
