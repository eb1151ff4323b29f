-- ===== src/Prelude/Results.antt =====
-- Go's pair of a value and an error, of which the callers read exactly one.
pub data Result {ℓ} (E : Type 0) (A : Type ℓ) : Type ℓ where
  ok : A → Result E A
  err : E → Result E A
