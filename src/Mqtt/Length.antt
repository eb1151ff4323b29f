-- ===== src/Mqtt/Length.antt =====
-- internal/mqtt/codec.go: the remaining length of a packet, seven bits to a byte.
pub mod RoundTrip
use wave_mq.Prelude.{
  ℕ, zero, suc, ◌+◌, ◌*◌, ◌/◌, ◌%◌, Bool, Option, none, some, [], ◌∷◌, bit_and, bit_or, ltb, ◌==◌,
  if◌then◌else◌,
}
use mathlib.Core.Option
use wave_mq.Wire.{Bytes, Reader, pure, raise, ◌>>=◌, read_byte, malformed_remaining_length}

-- The loop of `encodeRemainingLength` on fuel, which is the number of bytes that it may write.
unfoldable pub encode_length_loop : ℕ → ℕ → Option Bytes
encode_length_loop zero n = none
encode_length_loop (suc fuel) n =
    let more = encode_length_loop fuel (n / 128) in
    if ltb 0 (n / 128)
    then Option.map (λ bs. bit_or (n % 128) 128 ∷ bs) more
    else some ((n % 128) ∷ [])

-- An int has 63 bits beside its sign, so nine bytes are enough.
unfoldable pub encode_remaining_length : ℕ → Option Bytes
unfolding encode_length_loop
encode_remaining_length n = encode_length_loop 9 n

-- The loop of `decodeRemainingLength`. The multiplier grows by 128 a round and may not pass
-- 128 * 128 * 128, so the fuel of four rounds never runs out before it does.
unfoldable pub decode_length_loop : ℕ → ℕ → ℕ → Reader ℕ
decode_length_loop zero multiplier value = raise malformed_remaining_length
decode_length_loop (suc fuel) multiplier value = do
  encoded ← read_byte
  let value' = value + bit_and encoded 127 * multiplier
  let more = decode_length_loop fuel (multiplier * 128) value'
  if bit_and encoded 128 == 0
      then pure value'
      else if ltb (128 * 128 * 128) (multiplier * 128)
      then raise malformed_remaining_length
      else more

unfoldable pub decode_remaining_length : Reader ℕ
unfolding decode_length_loop
decode_remaining_length = decode_length_loop 4 1 0
