-- ===== src/Wire/Endian.antt =====
-- Unsigned integers as bytes, least significant first (little-endian) or last (big-endian).
use wave_mq.Prelude.{
  ℕ, zero, suc, ◌+◌, ◌*◌, ◌/◌, ◌%◌, ◌^◌, ◌<◌, ◌≡◌, refl, ap, All, [], ◌∷◌, ◌++◌, length,
  length-append, arith,
}
use wave_mq.Wire.Monad.{Bytes}

-- binary.LittleEndian: the `n` bytes of `v`.
unfoldable pub le_bytes : ℕ → ℕ → Bytes
le_bytes zero v = []
le_bytes (suc n) v = (v % 256) ∷ le_bytes n (v / 256)

unfoldable pub le_value : Bytes → ℕ
le_value [] = 0
le_value (b ∷ bs) = b + 256 * le_value bs

-- binary.BigEndian
unfoldable pub be_bytes : ℕ → ℕ → Bytes
be_bytes zero v = []
be_bytes (suc n) v = be_bytes n (v / 256) ++ ((v % 256) ∷ [])

unfoldable pub be_value : ℕ → Bytes → ℕ
be_value acc [] = acc
be_value acc (b ∷ bs) = be_value (256 * acc + b) bs

pub length-le_bytes : (n v : ℕ) → length (le_bytes n v) ≡ n
unfolding le_bytes
length-le_bytes zero v = refl
length-le_bytes (suc n) v = omega (arith, length-le_bytes n (v / 256))

pub length-be_bytes : (n v : ℕ) → length (be_bytes n v) ≡ n
unfolding be_bytes
length-be_bytes zero v = refl
length-be_bytes (suc n) v =
    omega
      (arith, length-be_bytes n (v / 256), length-append (be_bytes n (v / 256)) ((v % 256) ∷ []))

div-lt_pow : (n v : ℕ) → v < 256 ^ suc n → v / 256 < 256 ^ n
div-lt_pow n v h = omega arith

pub le_value-le_bytes : (n v : ℕ) → v < 256 ^ n → le_value (le_bytes n v) ≡ v
unfolding le_bytes le_value
le_value-le_bytes zero v h = omega arith
le_value-le_bytes (suc n) v h = omega (arith, le_value-le_bytes n (v / 256) (div-lt_pow n v h))

be_value-append :
    (acc b : ℕ) (bs : Bytes) → be_value acc (bs ++ (b ∷ [])) ≡ 256 * be_value acc bs + b
unfolding be_value
be_value-append acc b [] = refl
be_value-append acc b (c ∷ bs) = be_value-append (256 * acc + c) b bs

pub be_value-be_bytes : (n v : ℕ) → v < 256 ^ n → be_value 0 (be_bytes n v) ≡ v
unfolding be_bytes be_value
be_value-be_bytes zero v h = omega arith
be_value-be_bytes (suc n) v h = omega (
  arith,
  be_value-append 0 (v % 256) (be_bytes n (v / 256)),
  be_value-be_bytes n (v / 256) (div-lt_pow n v h),
)

abbrev pub IsByte : ℕ → Type 0
IsByte b = b < 256

pub le_bytes-le_value : (bs : Bytes) → All IsByte bs → le_bytes (length bs) (le_value bs) ≡ bs
unfolding le_bytes le_value
le_bytes-le_value [] h = refl
le_bytes-le_value (b ∷ bs) (hb, h) =
    let low : (b + 256 * le_value bs) % 256 ≡ b = omega arith in
    let high : (b + 256 * le_value bs) / 256 ≡ le_value bs = omega arith in
    rw (low, high) (ap (λ t. b ∷ t) (le_bytes-le_value bs h))
