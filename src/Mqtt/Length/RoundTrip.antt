-- ===== src/Mqtt/Length/RoundTrip.antt =====
-- `decodeRemainingLength` reads back what `encodeRemainingLength` wrote, up to the largest length
-- that four bytes hold, and refuses all beyond.
use wave_mq.Prelude.{
  ℕ, zero, suc, ◌+◌, ◌*◌, ◌/◌, ◌%◌, ◌^◌, ◌≤◌, ◌<◌, ◌≡◌, ap, ◌∙◌, Option, some, [], ◌∷◌, ◌++◌, ok,
  err, arith, Bool-cases, inl, inr, ltb, ltb→lt,
}
use native.Mathlib.Nat.{div-add-mod, pow-suc}
use wave_mq.Wire.{
  Bytes, pure, raise, ◌>>=◌, read_byte, bit_and_127, bit_and_128, bit_or_128,
  malformed_remaining_length,
}
use wave_mq.Mqtt.Length.{
  encode_length_loop, encode_remaining_length, decode_length_loop, decode_remaining_length,
}

last_byte :
    (fuel m v w : ℕ) (rest : Bytes)
    → w < 128
    → decode_length_loop (suc fuel) m v (w ∷ rest) ≡ ok (v + w * m, rest)
unfolding decode_length_loop read_byte ◌>>=◌ pure raise
last_byte fuel m v w rest h = ground (arith, bit_and_127 w, bit_and_128 w)

further_byte :
    (fuel m v w : ℕ) (rest : Bytes)
    → w < 128
    → m * 128 ≤ 2097152
    → decode_length_loop (suc fuel) m v ((w + 128) ∷ rest)
      ≡ decode_length_loop fuel (m * 128) (v + w * m) rest
unfolding decode_length_loop read_byte ◌>>=◌ pure raise
further_byte fuel m v w rest h small = ground (arith, bit_and_127 (w + 128), bit_and_128 (w + 128))

byte_too_many :
    (fuel m v w : ℕ) (rest : Bytes)
    → w < 128
    → 2097152 < m * 128
    → decode_length_loop (suc fuel) m v ((w + 128) ∷ rest) ≡ err malformed_remaining_length
unfolding decode_length_loop read_byte ◌>>=◌ pure raise
byte_too_many fuel m v w rest h big = ground (arith, bit_and_128 (w + 128))

encode_last : (fuel n : ℕ) → n < 128 → encode_length_loop (suc fuel) n ≡ some (n ∷ [])
unfolding encode_length_loop
encode_last fuel n h = ground arith

encode_more :
    (fuel n : ℕ) {bs : Bytes}
    → 128 ≤ n
    → encode_length_loop fuel (n / 128) ≡ some bs
    → encode_length_loop (suc fuel) n ≡ some ((n % 128 + 128) ∷ bs)
unfolding encode_length_loop
encode_more fuel n h e = rw (e, encode_length_loop) (ground (arith, bit_or_128 (n % 128)))

-- The bytes of a length, and what the decoder makes of them from the multiplier `m` on.
abbrev Decodes : ℕ → ℕ → ℕ → Option Bytes → Type 0
Decodes k m n o =
    (bs : Bytes) × (o ≡ some bs)
    × ((v : ℕ) (rest : Bytes) → decode_length_loop (suc k) m v (bs ++ rest) ≡ ok (v + n * m, rest))

power_positive : (k : ℕ) → 1 ≤ 128 ^ k
power_positive zero = omega arith
power_positive (suc k) = omega (arith, power_positive k)

power_step : (m k : ℕ) → m * 128 ^ suc k ≤ 2097152 → m * 128 * 128 ^ k ≤ 2097152
power_step m k h = omega (arith, ap (λ (t : ℕ). m * t) (pow-suc 128 k))

below_power : (m k : ℕ) → m * 128 * 128 ^ k ≤ 2097152 → m * 128 ≤ 2097152
below_power m k h = grind (arith, power_positive k)

split_low : (n m v : ℕ) → v + n % 128 * m + n / 128 * (m * 128) ≡ v + n * m
split_low n m v = omega (arith, ap (λ (t : ℕ). t * m) (div-add-mod n 128))

loop-Decodes :
    (k fuel m n : ℕ)
    → n < 128 ^ suc k
    → m * 128 ^ k ≤ 2097152
    → k ≤ fuel
    → Decodes k m n (encode_length_loop (suc fuel) n)
loop-Decodes zero fuel m n h small le =
    (n ∷ [], encode_last fuel n h, λ v rest. last_byte 0 m v n rest h)
loop-Decodes (suc k) zero m n h small le = elim le [ ]
loop-Decodes (suc k) (suc fuel) m n h small le = elim (Bool-cases (ltb n 128)) [
  | inl lt ↦ (
    n ∷ [],
    encode_last (suc fuel) n (ltb→lt _ _ lt),
    λ v rest. last_byte (suc k) m v n rest (ltb→lt _ _ lt),
  )
  | inr ge ↦
      let (bs, e, d) =
        loop-Decodes k fuel (m * 128) (n / 128) (omega arith) (power_step m k small)
          (omega arith) in
      (
        (n % 128 + 128) ∷ bs,
        encode_more (suc fuel) n (ground arith) e,
        λ v rest.
            further_byte (suc k) m v (n % 128) (bs ++ rest) (omega arith)
              (below_power m k (power_step m k small))
            ∙ d (v + n % 128 * m) rest
            ∙ ap (λ t. ok (t, rest)) (split_low n m v),
      )
]

-- Every length that MQTT allows comes back: below 128 ^ 4 `encodeRemainingLength` writes bytes from
-- which `decodeRemainingLength` reads that length, and it leaves whatever follows them.
pub decode-encode_remaining_length :
    (n : ℕ) (rest : Bytes)
    → n < 128 ^ 4
    → (bs : Bytes) × (encode_remaining_length n ≡ some bs)
      × (decode_remaining_length (bs ++ rest) ≡ ok (n, rest))
unfolding encode_remaining_length decode_remaining_length
decode-encode_remaining_length n rest h =
    let (bs, e, d) = loop-Decodes 3 8 1 n h (omega arith) (omega arith) in
    let one : 0 + n * 1 ≡ n = omega arith in (bs, e, d 0 rest ∙ ap (λ t. ok (t, rest)) one)
