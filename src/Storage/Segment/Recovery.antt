-- ===== src/Storage/Segment/Recovery.antt =====
-- Crash recovery of a segment: what `scanSegment` finds in a file of encoded records.
use wave_mq.Prelude.{
  ℕ, suc, ◌+◌, ◌^◌, ◌≤◌, ◌<◌, ◌≡◌, refl, sym, ap, ◌∙◌, some, List, [], ◌∷◌, ◌++◌, append_assoc,
  length, take, drop, ok, arith, All, length-append,
}
use wave_mq.Wire.{
  Bytes, ▹-eq-ok, ok-injective, crc32c, crc32c-lt, le_value, le_bytes, le_value-le_bytes, put_le,
  IsByte,
}
use wave_mq.Api.{Record}
use wave_mq.Frames.Seal.{
  frame, length-frame, checked_body, length-checked_body, seal_after-eq-frame,
}
use wave_mq.Frames.Next.{next_frame-torn}
use wave_mq.Frames.Scan.{
  Fits, frames, Stops, no_frame, fold_steps, scan-Found, scan-frames, scan-take,
}
use wave_mq.Storage.Record.{
  encode_record, decode_record, write_record_body, write_record_fixed_fields,
}
use wave_mq.Storage.Record.RoundTrip.{
  Storable, HasOffset, min-le-length-body, decode_record-checked_body,
}
use wave_mq.Storage.Segment.{as_unit, validate_record, accept_record, scan_segment, write_records}

module _ (body : Bytes) where
  stored_crc : le_value (take 4 (checked_body body)) ≡ crc32c body
  unfolding checked_body le_bytes
  stored_crc = le_value-le_bytes 4 (crc32c body) (crc32c-lt body)

  stored_body : drop 4 (checked_body body) ≡ body
  unfolding checked_body le_bytes
  stored_body = refl

module _ (n : ℕ) (r : Record) (h : HasOffset n r) (body : Bytes)
    (written : write_record_body r ≡ ok body) where
  body_split : (more : Bytes) × (body ≡ le_bytes 8 n ++ more)
  unfolding write_record_body write_record_fixed_fields put_le
  body_split =
      let (xs, ys, ex, _, split) = ▹-eq-ok _ _ written in
      let (os, ts, eo, _, split') = ▹-eq-ok _ _ (rw h.offset_eq at ex) in
      (ts ++ ys, rw (split, split', ← ok-injective eo) (append_assoc (le_bytes 8 n) ts ys))

  stored_offset : le_value (take 8 body) ≡ n
  unfolding le_bytes
  stored_offset =
      let (more, e) = body_split in rw e (le_value-le_bytes 8 n (omega (arith, h.offset_fits)))

  -- The checks before the decoder pass: it decides.
  pub validate_record-decides :
      validate_record (checked_body body) n ≡ as_unit (decode_record (checked_body body))
  unfolding validate_record
  validate_record-decides =
      rw (stored_crc, stored_body, stored_offset)
        (ground (arith, h.offset_fits, min-le-length-body n r h body written))

module _ (n : ℕ) (r : Record) (h : Storable n r) (body : Bytes)
    (written : write_record_body r ≡ ok body) where
  -- What was encoded at an offset is valid at that offset.
  pub validate_record-checked_body : validate_record (checked_body body) n ≡ ok tt
  unfolding as_unit
  validate_record-checked_body =
      validate_record-decides n r h.placed body written
      ∙ ap as_unit (decode_record-checked_body n r h body written)

  accept_record-checked_body : accept_record n (checked_body body) ≡ some (suc n)
  unfolding accept_record
  accept_record-checked_body =
      let next : n + 1 ≡ suc n = omega arith in
      rw (validate_record-checked_body, accept_record) (ap some next)

  checked_body-Fits : length (checked_body body) + 4 < 2 ^ 32 → Fits (checked_body body)
  checked_body-Fits small = (omega (arith, length-checked_body body), small)

-- Records at consecutive offsets from `n`, each of which the reader can take back.
abbrev pub StorableFrom : ℕ → List Record → Type 0
StorableFrom n [] = Unit
StorableFrom n (r ∷ rs) = Storable n r × StorableFrom (suc n) rs

-- The file as whole records, which the scan accepts in turn.
record AsFrames (n : ℕ) (rs : List Record) (file : Bytes) : Type 0 where
  records : List Bytes
  file_eq : file ≡ frames records
  fit : All Fits records
  accepted : fold_steps accept_record n records ≡ some (n + length rs)

write_records-AsFrames :
    (n : ℕ) (rs : List Record) (file : Bytes)
    → StorableFrom n rs
    → length file < 2 ^ 32
    → write_records rs ≡ ok file
    → AsFrames n rs file
unfolding write_records frames fold_steps
write_records-AsFrames n [] file h small e = record {
  records = [];
  file_eq = sym (ok-injective e);
  fit = tt;
  accepted = ap some (omega' n);
}
  where
    omega' : (n : ℕ) → n ≡ n + 0
    omega' n = omega arith
write_records-AsFrames n (r ∷ rs) file (h, hs) small e =
    let (xs, ys, ex, ey, split) = ▹-eq-ok _ _ e in
    let total : length file ≡ length xs + length ys = rw split (length-append xs ys) in
    join xs ys split total
      (seal_after-eq-frame (write_record_body r) xs (unfold encode_record in ex))
      (write_records-AsFrames (suc n) rs ys hs (omega arith) ey)
  where
    join :
        (xs ys : Bytes)
        → file ≡ xs ++ ys
        → length file ≡ length xs + length ys
        → (body : Bytes) × (write_record_body r ≡ ok body)
          × (xs ≡ frame (checked_body body))
          × (length (checked_body body) < 2 ^ 32)
        → AsFrames (suc n) rs ys
        → AsFrames n (r ∷ rs) file
    join xs ys split total (body, written, framed, _) rest =
        let small' : length (checked_body body) + 4 < 2 ^ 32 =
          omega (arith, ap length framed, length-frame (checked_body body)) in
        let end : suc n + length rs ≡ n + suc (length rs) = omega arith in
        record {
          records = checked_body body ∷ rest.records;
          file_eq = rw (split, framed, ← rest.file_eq);
          fit = (checked_body-Fits n r h body written small', rest.fit);
          accepted =
              rw (accept_record-checked_body n r h body written, fold_steps)
                (rest.accepted ∙ ap some end);
        }

-- The scan stops at a tail that holds no acceptable record.
pub scan_segment-tail :
    (base : ℕ) (rs : List Record) (file tail : Bytes)
    → StorableFrom base rs
    → length file < 2 ^ 32
    → write_records rs ≡ ok file
    → Stops accept_record (base + length rs) tail
    → scan_segment base (file ++ tail) ≡ some (base + length rs, length file)
unfolding scan_segment
scan_segment-tail base rs file tail h small e stop =
    let whole = write_records-AsFrames base rs file h small e in
    rw whole.file_eq
      (scan-frames accept_record whole.records base tail whole.fit whole.accepted stop)

-- Recovery after a crash in the middle of a write. Where a segment below 4 GiB holds the encodings
-- of storable records at consecutive offsets from `base`, and then a proper prefix, possibly empty,
-- of the encoding of one more record, `scanSegment` finds all of the whole records and nothing of
-- the torn one: the next offset is `base` plus their number, and the valid bytes are theirs.
pub scan_segment-torn :
    (base : ℕ) (rs : List Record) (torn : Record) (file front : Bytes) (x : ℕ) (back : Bytes)
    → StorableFrom base rs
    → write_records rs ≡ ok file
    → encode_record torn ≡ ok (front ++ (x ∷ back))
    → length file < 2 ^ 32
    → length (front ++ (x ∷ back)) < 2 ^ 32
    → scan_segment base (file ++ front) ≡ some (base + length rs, length file)
unfolding encode_record
scan_segment-torn base rs torn file front x back h e cut small small' =
    let (body, _, framed, _) =
      seal_after-eq-frame (write_record_body torn) (front ++ (x ∷ back)) cut in
    scan_segment-tail base rs file front h small e (
      no_frame (
        next_frame-torn (checked_body body) front x back
          (omega (arith, ap length framed, length-frame (checked_body body))) (sym framed)))

-- Opening a segment repairs it once and for all. On any file below 4 GiB `scanSegment` ends; what it
-- counts as valid lies within the file; and the scan of the file truncated there finds the same next
-- offset and the same valid bytes.
pub scan_segment_repair :
    (base : ℕ) (file : Bytes)
    → All IsByte file
    → length file < 2 ^ 32
    → (next : ℕ) × (valid : ℕ) × (scan_segment base file ≡ some (next, valid))
      × (valid ≤ length file)
      × (scan_segment base (take valid file) ≡ some (next, valid))
unfolding scan_segment
scan_segment_repair base file bytes small =
    let (next, valid, e, _) = scan-Found accept_record base file small bytes in
    let (within, again) = scan-take accept_record base file next valid small bytes e in
    (next, valid, e, within, again)
