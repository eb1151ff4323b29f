-- ===== src/Wire/Keys.antt =====
-- Go's `==` on strings and on integers.
use wave_mq.Prelude.{◌≡◌, refl, Bool, true, false, ◌&&◌, [], ◌∷◌, ◌==◌, ltb, arith}
use wave_mq.Wire.Monad.{Bytes}
use wave_mq.Wire.Ints.{ℤ, pos, negsuc}

unfoldable pub string_eq : Bytes → Bytes → Bool
string_eq [] [] = true
string_eq (a ∷ s) (b ∷ t) = a == b && string_eq s t
string_eq _ _ = false

pub string_eq_refl : (s : Bytes) → string_eq s s ≡ true
unfolding string_eq
string_eq_refl [] = refl
string_eq_refl (a ∷ s) = ground (arith, string_eq_refl s)

pub string_eq→eq : (s t : Bytes) → string_eq s t ≡ true → s ≡ t
unfolding string_eq
string_eq→eq [] [] h = refl
string_eq→eq [] (b ∷ t) h = cc
string_eq→eq (a ∷ s) [] h = cc
string_eq→eq (a ∷ s) (b ∷ t) h = ground (arith, string_eq→eq s t)

unfoldable pub int_eq : ℤ → ℤ → Bool
int_eq (pos a) (pos b) = a == b
int_eq (negsuc a) (negsuc b) = a == b
int_eq _ _ = false

pub int_eq_refl : (z : ℤ) → int_eq z z ≡ true
unfolding int_eq
int_eq_refl (pos a) = ground arith
int_eq_refl (negsuc a) = ground arith

pub int_eq→eq : (y z : ℤ) → int_eq y z ≡ true → y ≡ z
unfolding int_eq
int_eq→eq (pos a) (pos b) h = ground arith
int_eq→eq (pos a) (negsuc b) h = cc
int_eq→eq (negsuc a) (pos b) h = cc
int_eq→eq (negsuc a) (negsuc b) h = ground arith

-- Go's `<` on integers.
unfoldable pub int_ltb : ℤ → ℤ → Bool
int_ltb (pos a) (pos b) = ltb a b
int_ltb (pos a) (negsuc b) = false
int_ltb (negsuc a) (pos b) = true
int_ltb (negsuc a) (negsuc b) = ltb b a
