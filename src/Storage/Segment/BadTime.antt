-- ===== src/Storage/Segment/BadTime.antt =====
-- Records dated before 1970: `encodeRecord` writes their time as a signed integer, which
-- `decodeRecordPrefix` refuses.
use wave_mq.Prelude.{
  ℕ, ◌+◌, ◌^◌, ◌<◌, ◌≡◌, refl, ap, ◌∙◌, none, some, List, [], ◌++◌, append-nil, length, ok, err,
  arith,
}
use wave_mq.Wire.{
  Bytes, out_of_range, Reader, raise, ◌>>=◌, bind-ok, ◌▹◌, ℤ, negsuc, to_pattern, i64_half, crc32c,
  crc32c-lt, put_le, RoundTrips-le, RoundTrips-pattern, Fails, Fails-first, Fails-bind, Fails-here,
  ▹_assoc, Fails-skip, Fails-after,
}
use wave_mq.Api.{Record}
use wave_mq.Frames.Seal.{checked_body, length-frame, seal_after-eq-frame, length-checked_body}
use wave_mq.Frames.Next.{next_frame-frame}
use wave_mq.Frames.Scan.{rejected}
use wave_mq.Storage.Record.{
  encode_record, decode_record, read_record_fields, read_record_prefix, reject_small,
  uint64_to_int64, write_record_body, write_record_fixed_fields, whole,
}
use wave_mq.Storage.Record.RoundTrip.{HasOffset, checked_body_written, in_int64, not_small}
use wave_mq.Storage.Segment.{accept_record, scan_segment, write_records, as_unit}
use wave_mq.Storage.Segment.Recovery.{StorableFrom, scan_segment-tail, validate_record-decides}

-- A time of -(t + 1) nanoseconds.
pub record BeforeEpoch (r : Record) : Type 0 where
  pub t : ℕ
  pub time_eq : r.timestamp ≡ negsuc t
  pub time_fits : t < i64_half

module _ (n : ℕ) (r : Record) (h : HasOffset n r) (early : BeforeEpoch r) where
  too_large :
      (t : ℕ) → t < i64_half → uint64_to_int64 (to_pattern i64_half (negsuc t)) ≡ raise out_of_range
  unfolding uint64_to_int64
  too_large t fits = ground arith

  prefix-Fails :
      (crc : ℕ)
      → crc < 2 ^ 32
      → Fails read_record_prefix (put_le 4 crc ▹ write_record_fixed_fields r) out_of_range
  unfolding read_record_prefix write_record_fixed_fields
  prefix-Fails crc small =
      rw (h.offset_eq, early.time_eq)
        (Fails-bind _ (RoundTrips-le 4 crc small) (
          Fails-bind _ (RoundTrips-le 8 n (omega (arith, h.offset_fits))) (
            Fails-skip _ (in_int64 n h.offset_fits) (
              Fails-after _ (RoundTrips-pattern 8 i64_half (negsuc early.t) refl early.time_fits)
                (refused _)))))
    where
      refused :
          (k : ℤ → Reader Record) (rest : Bytes)
          → (uint64_to_int64 (to_pattern i64_half (negsuc early.t)) >>= k) rest ≡ err out_of_range
      refused k rest = rw (too_large early.t early.time_fits) (unfold ◌>>=◌ raise in refl)

  fields-Fails :
      (crc : ℕ)
      → crc < 2 ^ 32
      → Fails read_record_fields (put_le 4 crc ▹ write_record_body r) out_of_range
  unfolding read_record_fields write_record_body
  fields-Fails crc small =
      rw (← ▹_assoc) (Fails-first _ _ _ _ (Fails-here _ (prefix-Fails crc small)))

  module _ (body : Bytes) (written : write_record_body r ≡ ok body) where
    fields_error : read_record_fields (checked_body body) ≡ err out_of_range
    fields_error = rw append-nil at (
        (fields-Fails (crc32c body) (crc32c-lt body)).at (checked_body body) []
          (checked_body_written n r h body written))

    decode_record-early : decode_record (checked_body body) ≡ err out_of_range
    unfolding decode_record
    decode_record-early = ap whole (
        bind-ok reject_small (λ _. read_record_fields) (checked_body body)
          (not_small n r h body written)
        ∙ fields_error)

    accept_record-early : accept_record n (checked_body body) ≡ none
    unfolding accept_record as_unit
    accept_record-early =
        rw (validate_record-decides n r h body written, accept_record) (rw decode_record-early)

-- A record dated before 1970 is lost, with all that follows it. `encodeRecord` writes it; but where a
-- segment below 4 GiB holds the encodings of storable records at consecutive offsets from `base`,
-- then such a record at the next offset, then any bytes, `scanSegment` stops before that record: the
-- repair at the next start cuts it off, and whatever was appended later.
pub scan_segment-early :
    (base : ℕ) (rs : List Record) (r : Record) (file b more : Bytes)
    → StorableFrom base rs
    → HasOffset (base + length rs) r
    → BeforeEpoch r
    → write_records rs ≡ ok file
    → encode_record r ≡ ok b
    → length file < 2 ^ 32
    → length b < 2 ^ 32
    → scan_segment base (file ++ (b ++ more)) ≡ some (base + length rs, length file)
unfolding encode_record
scan_segment-early base rs r file b more hs h early e written small small' =
    let (body, written', framed, _) = seal_after-eq-frame (write_record_body r) b written in
    let fits : length (checked_body body) + 4 < 2 ^ 32 =
      omega (arith, ap length framed, length-frame (checked_body body)) in
    scan_segment-tail base rs file (b ++ more) hs small e (
      rejected (checked_body body) more
        (rw framed (
          next_frame-frame (checked_body body) more fits (omega (arith, length-checked_body body))))
        (accept_record-early (base + length rs) r h early body written'))
