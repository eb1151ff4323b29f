-- ===== src/Wire/Ints.antt =====
-- Fixed-width integers on the wire. A Go signed integer is a ℤ, sent in two's complement.
use wave_mq.Prelude.{
  ◌%◌, [], ◌∷◌, err, ℕ, ◌-◌, ◌*◌, ◌^◌, ◌<◌, ◌≡◌, refl, ◌∙◌, true, ◌++◌, length, ltb, leb,
  if◌then◌else◌, ok, arith, length-append, take-append_length, drop-append_length,
}
use wave_mq.Wire.Monad.{
  Bytes, eof, Reader, Writer, pure, ◌>>=◌, bind-ok, read_full, RoundTrips, RoundTrips-bytes,
  WritesAtLeast, WritesAtLeast-bytes,
}
use wave_mq.Wire.Endian.{
  le_bytes, le_value, be_bytes, be_value, length-le_bytes, length-be_bytes, le_value-le_bytes,
  be_value-be_bytes,
}

-- `negsuc n` is -(n + 1).
pub data ℤ : Type 0 where
  pos : ℕ → ℤ
  negsuc : ℕ → ℤ

abbrev pub pos_part : ℤ → ℕ
pos_part (pos n) = n
pos_part (negsuc n) = 0

-- The signed integers below `half`, and the pattern of 2 * half values that stands for each.
abbrev pub FitsSigned : ℕ → ℤ → Type 0
FitsSigned half (pos n) = n < half
FitsSigned half (negsuc n) = n < half

abbrev pub to_pattern : ℕ → ℤ → ℕ
to_pattern half (pos n) = n
to_pattern half (negsuc n) = 2 * half - 1 - n

abbrev pub of_pattern : ℕ → ℕ → ℤ
of_pattern half v = if ltb v half then pos v else negsuc (2 * half - 1 - v)

pub to_pattern-lt : (half : ℕ) (z : ℤ) → FitsSigned half z → to_pattern half z < 2 * half
to_pattern-lt half (pos n) h = omega arith
to_pattern-lt half (negsuc n) h = omega arith

pub of_pattern-to_pattern :
    (half : ℕ) (z : ℤ) → FitsSigned half z → of_pattern half (to_pattern half z) ≡ z
of_pattern-to_pattern half (pos n) h = ground arith
of_pattern-to_pattern half (negsuc n) h = ground arith

abbrev pub i16_half : ℕ
i16_half = 2 ^ 15

abbrev pub i32_half : ℕ
i32_half = 2 ^ 31

abbrev pub i64_half : ℕ
i64_half = 2 ^ 63

-- A raw block of bytes.
pub read_full-append : (xs rest : Bytes) → read_full (length xs) (xs ++ rest) ≡ ok (xs, rest)
unfolding read_full
read_full-append xs rest = rw (fits, take-append_length, drop-append_length)
  where
    fits : leb (length xs) (length (xs ++ rest)) ≡ true
    fits = ground (arith, length-append xs rest)

-- A raw block of known length.
pub RoundTrips-raw : (xs : Bytes) → RoundTrips (read_full (length xs)) (ok xs) xs
RoundTrips-raw xs = RoundTrips-bytes xs (read_full-append xs)

-- binary.Write and binary.Read of an unsigned integer of `n` bytes.
unfoldable pub put_le : ℕ → ℕ → Writer
put_le n v = ok (le_bytes n v)

unfoldable pub read_le : ℕ → Reader ℕ
read_le n = do bs ← read_full n; pure (le_value bs)

unfoldable pub put_be : ℕ → ℕ → Writer
put_be n v = ok (be_bytes n v)

unfoldable pub read_be : ℕ → Reader ℕ
read_be n = do bs ← read_full n; pure (be_value 0 bs)

-- The same for a signed integer with the patterns of 2 * half values.
unfoldable pub put_le_int : ℕ → ℕ → ℤ → Writer
unfolding put_le
put_le_int n half z = put_le n (to_pattern half z)

unfoldable pub read_le_int : ℕ → ℕ → Reader ℤ
unfolding read_le
read_le_int n half = do v ← read_le n; pure (of_pattern half v)

unfoldable pub put_be_int : ℕ → ℕ → ℤ → Writer
unfolding put_be
put_be_int n half z = put_be n (to_pattern half z)

unfoldable pub read_be_int : ℕ → ℕ → Reader ℤ
unfolding read_be
read_be_int n half = do v ← read_be n; pure (of_pattern half v)

pub put_le_int-pos : (n half v : ℕ) → put_le_int n half (pos v) ≡ put_le n v
unfolding put_le_int
put_le_int-pos n half v = refl

read_full-exact :
    (n : ℕ) (xs rest : Bytes) → length xs ≡ n → read_full n (xs ++ rest) ≡ ok (xs, rest)
read_full-exact n xs rest e = rw (← e) (read_full-append xs rest)

read_le-append :
    (n v : ℕ) (rest : Bytes) → v < 256 ^ n → read_le n (le_bytes n v ++ rest) ≡ ok (v, rest)
unfolding read_le pure
read_le-append n v rest h =
    bind-ok (read_full n) (λ bs. pure (le_value bs)) (le_bytes n v ++ rest)
      (read_full-exact n (le_bytes n v) rest (length-le_bytes n v))
    ∙ rw (le_value-le_bytes n v h)

read_be-append :
    (n v : ℕ) (rest : Bytes) → v < 256 ^ n → read_be n (be_bytes n v ++ rest) ≡ ok (v, rest)
unfolding read_be pure
read_be-append n v rest h =
    bind-ok (read_full n) (λ bs. pure (be_value 0 bs)) (be_bytes n v ++ rest)
      (read_full-exact n (be_bytes n v) rest (length-be_bytes n v))
    ∙ rw (be_value-be_bytes n v h)

pub RoundTrips-le : (n v : ℕ) → v < 256 ^ n → RoundTrips (read_le n) (put_le n v) v
unfolding put_le
RoundTrips-le n v h = RoundTrips-bytes (le_bytes n v) (λ rest. read_le-append n v rest h)

pub RoundTrips-be : (n v : ℕ) → v < 256 ^ n → RoundTrips (read_be n) (put_be n v) v
unfolding put_be
RoundTrips-be n v h = RoundTrips-bytes (be_bytes n v) (λ rest. read_be-append n v rest h)

-- The pattern of a signed integer, read as an unsigned one.
pub RoundTrips-pattern :
    (n half : ℕ) (z : ℤ)
    → 2 * half ≡ 256 ^ n
    → FitsSigned half z
    → RoundTrips (read_le n) (put_le_int n half z) (to_pattern half z)
unfolding put_le_int
RoundTrips-pattern n half z width fits =
    RoundTrips-le n (to_pattern half z) (omega (arith, to_pattern-lt half z fits))

module _ (n half : ℕ) (width : 2 * half ≡ 256 ^ n) (z : ℤ) (fits : FitsSigned half z) where
  small : to_pattern half z < 256 ^ n
  small = omega (arith, to_pattern-lt half z fits)

  pub RoundTrips-le_int : RoundTrips (read_le_int n half) (put_le_int n half z) z
  unfolding put_le_int read_le_int pure
  RoundTrips-le_int = RoundTrips-bytes (le_bytes n (to_pattern half z)) λ rest.
      bind-ok (read_le n) (λ v. pure (of_pattern half v)) (le_bytes n (to_pattern half z) ++ rest)
        (read_le-append n (to_pattern half z) rest small)
      ∙ rw (of_pattern-to_pattern half z fits)

  pub RoundTrips-be_int : RoundTrips (read_be_int n half) (put_be_int n half z) z
  unfolding put_be_int read_be_int pure
  RoundTrips-be_int = RoundTrips-bytes (be_bytes n (to_pattern half z)) λ rest.
      bind-ok (read_be n) (λ v. pure (of_pattern half v)) (be_bytes n (to_pattern half z) ++ rest)
        (read_be-append n (to_pattern half z) rest small)
      ∙ rw (of_pattern-to_pattern half z fits)

module _ (n : ℕ) where
  pub WritesAtLeast-le : (v : ℕ) → WritesAtLeast n (put_le n v)
  unfolding put_le
  WritesAtLeast-le v = WritesAtLeast-bytes n (le_bytes n v) (length-le_bytes n v)

  pub WritesAtLeast-be : (v : ℕ) → WritesAtLeast n (put_be n v)
  unfolding put_be
  WritesAtLeast-be v = WritesAtLeast-bytes n (be_bytes n v) (length-be_bytes n v)

  pub WritesAtLeast-le_int : (half : ℕ) (z : ℤ) → WritesAtLeast n (put_le_int n half z)
  unfolding put_le_int
  WritesAtLeast-le_int half z =
      WritesAtLeast-bytes n (le_bytes n (to_pattern half z)) (length-le_bytes n _)

-- One byte; a number is cut to the byte that Go's conversion keeps.
unfoldable pub put_byte : ℕ → Writer
put_byte b = ok ((b % 256) ∷ [])

unfoldable pub read_byte : Reader ℕ
read_byte [] = err eof
read_byte (b ∷ r) = ok (b, r)

pub RoundTrips-byte : (b : ℕ) → b < 256 → RoundTrips read_byte (put_byte b) b
unfolding put_byte read_byte
RoundTrips-byte b h =
    RoundTrips-bytes ((b % 256) ∷ []) (λ rest. let same : b % 256 ≡ b = omega arith in rw same refl)
