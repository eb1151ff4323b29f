-- ===== src/Frames/Log.antt =====
-- A log file as it grows: whole records that a scan accepts in turn, and then a crash.
use wave_mq.Prelude.{
  ℕ, ◌+◌, ◌^◌, ◌<◌, ◌≡◌, refl, sym, ap, Option, some, List, [], ◌∷◌, ◌++◌, All, length,
  length-append, ok, arith,
}
use wave_mq.Wire.{Bytes, Writer, ◌▹◌}
use wave_mq.Frames.{placeholders, seal_after, scan}
use wave_mq.Frames.Seal.{
  frame, checked_body, length-frame, length-checked_body, seal_after-eq-frame,
}
use wave_mq.Frames.Scan.{Fits, frames, fold_steps, Stops, no_frame, scan-frames}
use wave_mq.Frames.Next.{next_frame-torn}

module _ {ℓ} {S : Type ℓ} (step : S → Bytes → Option S) where
  -- The file holds records that lead from the one state to the other.
  pub record Logged (s : S) (file : Bytes) (s' : S) : Type ℓ where
    records : List Bytes
    file_eq : file ≡ frames records
    fit : All Fits records
    accepted : fold_steps step s records ≡ some s'

  pub Logged-nil : (s : S) → Logged s [] s
  unfolding frames fold_steps
  Logged-nil s = record { records = []; file_eq = refl; fit = tt; accepted = refl }

  -- One sealed record in front.
  pub Logged-cons :
      (s s' s'' : S) (body file : Bytes)
      → length (checked_body body) + 4 < 2 ^ 32
      → step s (checked_body body) ≡ some s'
      → Logged s' file s''
      → Logged s (frame (checked_body body) ++ file) s''
  unfolding frames fold_steps
  Logged-cons s s' s'' body file small e h = record {
    records = checked_body body ∷ h.records;
    file_eq = ap (λ t. frame (checked_body body) ++ t) h.file_eq;
    fit = ((omega (arith, length-checked_body body), small), h.fit);
    accepted = rw (e, fold_steps) h.accepted;
  }

  pub scan-Logged :
      (s s' : S) (file tail : Bytes)
      → Logged s file s'
      → Stops step s' tail
      → scan step s (file ++ tail) ≡ some (s', length file)
  scan-Logged s s' file tail h stop =
      rw h.file_eq (scan-frames step h.records s tail h.fit h.accepted stop)

-- A sealed record that was cut short stops every scan.
pub Stops-torn {ℓ} :
    {S : Type ℓ} (step : S → Bytes → Option S) (s : S) (w : Writer) (front : Bytes) (x : ℕ)
    (back : Bytes)
    → seal_after (ok placeholders ▹ w) ≡ ok (front ++ (x ∷ back))
    → length (front ++ (x ∷ back)) < 2 ^ 32
    → Stops step s front
Stops-torn step s w front x back e small =
    let (body, _, framed, _) = seal_after-eq-frame w (front ++ (x ∷ back)) e in
    no_frame (
      next_frame-torn (checked_body body) front x back
        (omega (arith, ap length framed, length-frame (checked_body body))) (sym framed))

-- The size of a sealed record, from the size of the file that begins with it.
pub sealed_size :
    (body xs ys file : Bytes)
    → xs ≡ frame (checked_body body)
    → file ≡ xs ++ ys
    → length file < 2 ^ 32
    → (length (checked_body body) + 4 < 2 ^ 32) × (length ys < 2 ^ 32)
sealed_size body xs ys file framed split small = omega (
  arith,
  ap length framed,
  ap length split,
  length-append xs ys,
  length-frame (checked_body body),
)
