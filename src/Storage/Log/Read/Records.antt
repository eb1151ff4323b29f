-- ===== src/Storage/Log/Read/Records.antt =====
-- What `readFromSegment` reads from a segment of whole records.
use wave_mq.Prelude.{
  ℕ, zero, suc, ◌+◌, ◌%◌, ◌^◌, ◌≤◌, ◌<◌, ◌≡◌, refl, sym, ap, subst, ◌∙◌, true, false, Option, none,
  some, List, [], ◌∷◌, ◌++◌, length, drop, ltb, leb, if◌then◌else◌, lt→ltb, Result, ok, err, arith,
}
use wave_mq.Wire.{
  Bytes, Error, crc32c, ℤ, pos, negsuc, pos_part, ▹-eq-ok, int_ltb, i32_half, le_bytes,
}
use wave_mq.Api.{Record}
use wave_mq.Frames.{next_frame}
use wave_mq.Frames.Seal.{frame, checked_body, length-checked_body}
use wave_mq.Frames.Next.{next_frame-frame}
use wave_mq.Storage.Record.{
  encode_record, decode_record, string_of, write_record_body, write_record_bytes_field,
  check_int32_length,
}
use wave_mq.Storage.Record.RoundTrip.{Storable, decode_record-checked_body}
use wave_mq.Storage.Segment.{validate_record}
use wave_mq.Storage.Segment.Recovery.{validate_record-checked_body}
use wave_mq.Storage.Log.Read

-- The bytes that were written, where there was no error.
abbrev written_bytes : Result Error Bytes → Bytes
written_bytes (ok b) = b
written_bytes (err e) = []

-- A record as it is read back, with the checksum of its encoding.
abbrev pub stored : Record → Record
stored r = record r { crc32c = crc32c (drop 8 (written_bytes (encode_record r))) }

-- The records from the first on, as long as the values of those before, `spent` bytes in all, have not
-- reached the limit.
unfoldable pub up_to : ℕ → ℕ → List Record → List Record
up_to limit spent [] = []
up_to limit spent (r ∷ rs) =
    let rest = up_to limit (spent + length (string_of r.value)) rs in
    r ∷ (if ltb (spent + length (string_of r.value)) limit then rest else [])

-- The records that a read with this limit on the bytes of their values returns: all of them where the
-- limit is not positive.
unfoldable pub within : ℤ → List Record → List Record
unfolding up_to
within (pos zero) rs = rs
within (pos (suc limit)) rs = up_to (suc limit) 0 rs
within (negsuc n) rs = rs

value_fits :
    (r : Record) (body : Bytes) → write_record_body r ≡ ok body → Read.value_length r < i32_half
unfolding write_record_body write_record_bytes_field check_int32_length
value_fits r body e =
    let (_, _, _, e₁, _) = ▹-eq-ok _ _ e in
    let (_, _, _, e₂, _) = ▹-eq-ok _ _ e₁ in
    let (_, _, e₃, _, _) = ▹-eq-ok _ _ e₂ in split r.value e₃
  where
    split :
        (v : Option Bytes) {xs : Bytes}
        → write_record_bytes_field v ≡ ok xs
        → length (elim v [ none ↦ [] | some b ↦ b ]) < i32_half
    split none w = omega arith
    split (some b) w = let (_, _, e₄, _, _) = ▹-eq-ok _ _ w in ground arith

-- One record at the front of the unread part.
module _ (n : ℕ) (r : Record) (h : Storable n r) (body rest : Bytes)
    (written : write_record_body r ≡ ok body)
    (encoded : encode_record r ≡ ok (frame (checked_body body)))
    (small : length (checked_body body) + 4 < 2 ^ 32) (fuel at size' offset' : ℕ) (max' : ℤ) where
  stored_eq : record r { crc32c = crc32c body } ≡ stored r
  unfolding frame checked_body le_bytes
  stored_eq = rw encoded refl

  decoded : decode_record (checked_body body) ≡ ok (stored r)
  decoded = decode_record-checked_body n r h body written ∙ ap ok stored_eq

  valid : validate_record (checked_body body) n ≡ ok tt
  valid = validate_record-checked_body n r h body written

  at_front : next_frame (frame (checked_body body) ++ rest) ≡ some (checked_body body, rest)
  at_front =
      next_frame-frame (checked_body body) rest small (omega (arith, length-checked_body body))

  valid_at : validate_record (checked_body body) (pos_part (stored r).offset) ≡ ok tt
  valid_at =
      subst (λ o. validate_record (checked_body body) (pos_part o) ≡ ok tt) (sym h.offset_eq) valid

  is_below : int_ltb (stored r).offset (pos offset') ≡ ltb n offset'
  unfolding int_ltb
  is_below = ap (λ o. int_ltb o (pos offset')) h.offset_eq

  pub skipped :
      n < offset'
      → Read.read_section (suc fuel) at size' (pos offset') max' (frame (checked_body body) ++ rest)
        ≡ Read.read_section fuel
            (at + (4 + length (checked_body body)) % 2 ^ 32)
            size'
            (pos offset')
            max'
            rest
  unfolding Read.read_section
  skipped below =
      let yes : int_ltb (stored r).offset (pos offset') ≡ true = is_below ∙ lt→ltb _ _ below in
      rw (at_front, decoded, valid_at, yes, Read.read_section) refl

  module _ (reached : offset' ≤ n) where
    not_below : int_ltb (stored r).offset (pos offset') ≡ false
    not_below = is_below ∙ ground arith

    no_refusal : Read.refuses_length max' (Read.value_length r) ≡ false
    unfolding Read.refuses_length
    no_refusal = split max'
      where
        fits : Read.value_length r < i32_half
        fits = value_fits r body written

        split : (m : ℤ) → Read.refuses_length m (Read.value_length r) ≡ false
        split (pos zero) = refl
        split (pos (suc m)) = ground (arith, fits)
        split (negsuc m) = refl

    pub used_up :
        Read.remaining max' (Read.value_length r) ≡ none
        → Read.read_section
            (suc fuel)
            at
            size'
            (pos offset')
            max'
            (frame (checked_body body) ++ rest)
          ≡ some (ok (stored r ∷ []))
    unfolding Read.read_section
    used_up e = rw (at_front, decoded, valid_at, not_below, no_refusal, e, Read.read_section) refl

    module _ (left : ℤ) (e : Read.remaining max' (Read.value_length r) ≡ some left) where
      pub at_end :
          leb size' (at + (4 + length (checked_body body)) % 2 ^ 32) ≡ true
          → Read.read_section
              (suc fuel)
              at
              size'
              (pos offset')
              max'
              (frame (checked_body body) ++ rest)
            ≡ some (ok (stored r ∷ []))
      unfolding Read.read_section
      at_end y =
          rw (at_front, decoded, valid_at, not_below, no_refusal, e, y, Read.read_section) refl

      pub goes_on :
          leb size' (at + (4 + length (checked_body body)) % 2 ^ 32) ≡ false
          → Read.read_section
              (suc fuel)
              at
              size'
              (pos offset')
              max'
              (frame (checked_body body) ++ rest)
            ≡ Read.with_first (stored r) (
                Read.read_section fuel
                  (at + (4 + length (checked_body body)) % 2 ^ 32)
                  size'
                  (pos offset')
                  left
                  rest)
      unfolding Read.read_section
      goes_on y =
          rw (at_front, decoded, valid_at, not_below, no_refusal, e, y, Read.read_section) refl
