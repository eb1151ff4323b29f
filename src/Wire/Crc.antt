-- ===== src/Wire/Crc.antt =====
-- hash/crc32 with the Castagnoli table (reflected polynomial 0x82f63b78), one bit at a time.
use wave_mq.Prelude.{
  ℕ, zero, suc, ◌/◌, ◌%◌, ◌^◌, ◌<◌, ◌≡◌, refl, bit_xor, [], ◌∷◌, ◌==◌, if◌then◌else◌, arith,
}
use wave_mq.Wire.Monad.{Bytes}

crc_bits : ℕ → ℕ → ℕ
crc_bits zero crc = crc
crc_bits (suc n) crc = crc_bits n (if crc % 2 == 0 then crc / 2 else bit_xor (crc / 2) 0x82f6_3b78)

crc_update : ℕ → Bytes → ℕ
crc_update crc [] = crc
crc_update crc (b ∷ bs) = crc_update (crc_bits 8 (bit_xor crc b)) bs

-- crc32.Checksum(data, crc32.MakeTable(crc32.Castagnoli)), a uint32
unfoldable pub crc32c : Bytes → ℕ
unfolding crc_update crc_bits
crc32c bs = bit_xor (crc_update 0xffff_ffff bs) 0xffff_ffff % 2 ^ 32

pub crc32c-lt : (bs : Bytes) → crc32c bs < 2 ^ 32
unfolding crc32c
crc32c-lt bs = omega arith

-- The check value of the algorithm, over the text "123456789".
check_value : crc32c (49 ∷ 50 ∷ 51 ∷ 52 ∷ 53 ∷ 54 ∷ 55 ∷ 56 ∷ 57 ∷ []) ≡ 0xe306_9283
unfolding crc32c
check_value = refl
