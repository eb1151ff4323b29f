-- ===== src/Wire/Bits.antt =====
-- Masks on a byte as arithmetic; each law is checked at all of the values that it speaks of.
use wave_mq.Prelude.{
  ℕ, zero, suc, ◌+◌, ◌*◌, ◌/◌, ◌%◌, ◌<◌, ◌≡◌, refl, Bool, true, ◌&&◌, bit_and, bit_or, ◌==◌, ==_iff,
  arith,
}

module _ (p : ℕ → Bool) where
  holds_below : ℕ → Bool
  holds_below zero = true
  holds_below (suc n) = p n && holds_below n

  holds_below→at : (n i : ℕ) → holds_below n ≡ true → i < n → p i ≡ true
  unfolding holds_below
  holds_below→at zero i h lt = absurd (omega arith)
  holds_below→at (suc n) i h lt = ground (arith, holds_below→at n i)

module _ (f g : ℕ → ℕ) where
  -- Two functions that agree at every value below a bound.
  agree_below : (n i : ℕ) → holds_below (λ k. f k == g k) n ≡ true → i < n → f i ≡ g i
  agree_below n i h lt = (==_iff (f i) (g i)).0 (holds_below→at (λ k. f k == g k) n i h lt)

pub bit_and_127 : (b : ℕ) → b < 256 → bit_and b 127 ≡ b % 128
unfolding holds_below
bit_and_127 b h = agree_below (λ k. bit_and k 127) (λ k. k % 128) 256 b refl h

pub bit_and_128 : (b : ℕ) → b < 256 → bit_and b 128 ≡ b / 128 * 128
unfolding holds_below
bit_and_128 b h = agree_below (λ k. bit_and k 128) (λ k. k / 128 * 128) 256 b refl h

pub bit_or_128 : (b : ℕ) → b < 128 → bit_or b 128 ≡ b + 128
unfolding holds_below
bit_or_128 b h = agree_below (λ k. bit_or k 128) (λ k. k + 128) 128 b refl h

pub bit_and_15 : (b : ℕ) → b < 256 → bit_and b 15 ≡ b % 16
unfolding holds_below
bit_and_15 b h = agree_below (λ k. bit_and k 15) (λ k. k % 16) 256 b refl h
