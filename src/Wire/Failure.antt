-- ===== src/Wire/Failure.antt =====
-- The bytes of a writer on which a reader fails, whatever follows them.
use wave_mq.Prelude.{◌≡◌, ◌++◌, append_assoc, ok, err, ◌∙◌, ap}
use wave_mq.Wire.Monad.{
  Bytes, Error, Reader, Writer, pure, raise, ◌>>=◌, bind-ok, ◌▹◌, ▹-eq-ok, RoundTrips,
}

pub record Fails {ℓ} {A : Type ℓ} (m : Reader A) (w : Writer) (e : Error) : Type ℓ where
  pub at : (bs rest : Bytes) → w ≡ ok bs → m (bs ++ rest) ≡ err e

module _ {ℓ} {A : Type ℓ} where
  pub Fails-raise : (m : Reader A) (w : Writer) (e : Error) → m ≡ raise e → Fails m w e
  unfolding raise
  Fails-raise m w e h = record { at = λ bs rest p. ap (λ g. g (bs ++ rest)) h }

  -- What the reader does not reach does not matter.
  pub Fails-first : (m : Reader A) (w v : Writer) (e : Error) → Fails m w e → Fails m (w ▹ v) e
  Fails-first m w v e h = record {
    at = λ bs rest p.
        let (xs, ys, ex, ey, split) = ▹-eq-ok w v p in
        rw (split, append_assoc) (h.at xs (ys ++ rest) ex);
  }

module _ {ℓ κ} {A : Type ℓ} {B : Type κ} where
  pub Fails-bind :
      {m : Reader A} {w : Writer} {a : A} (f : A → Reader B) {v : Writer} {e : Error}
      → RoundTrips m w a
      → Fails (f a) v e
      → Fails (m >>= f) (w ▹ v) e
  Fails-bind {m} {w} {a} f {v} {e} h k = record {
    at = λ bs rest p.
        let (xs, ys, ex, ey, split) = ▹-eq-ok w v p in
        rw (split, append_assoc)
          (bind-ok m f (xs ++ (ys ++ rest)) (h.at xs (ys ++ rest) ex) ∙ k.at ys rest ey);
  }

  pub Fails-here :
      {m : Reader A} (f : A → Reader B) {w : Writer} {e : Error} → Fails m w e → Fails (m >>= f) w e
  unfolding ◌>>=◌
  Fails-here {m} f h = record { at = λ bs rest p. rw (h.at bs rest p, ◌>>=◌) }

  -- A step that reads nothing.
  pub Fails-skip :
      {m : Reader A} {a : A} (f : A → Reader B) {w : Writer} {e : Error}
      → m ≡ pure a
      → Fails (f a) w e
      → Fails (m >>= f) w e
  unfolding pure
  Fails-skip {m} f p h = record {
    at = λ bs rest q. bind-ok m f (bs ++ rest) (ap (λ g. g (bs ++ rest)) p) ∙ h.at bs rest q;
  }

  -- What was read is refused.
  pub Fails-after :
      {m : Reader A} {w : Writer} {a : A} (f : A → Reader B) {e : Error}
      → RoundTrips m w a
      → ((r : Bytes) → f a r ≡ err e)
      → Fails (m >>= f) w e
  Fails-after {m} f h k = record {
    at = λ bs rest q. bind-ok m f (bs ++ rest) (h.at bs rest q) ∙ k rest;
  }
