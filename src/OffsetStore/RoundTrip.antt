-- ===== src/OffsetStore/RoundTrip.antt =====
-- Reading back what `encodeOffsetRecord` wrote.
use wave_mq.Prelude.{
  ◌<◌, ◌≡◌, refl, true, false, some, [], append-nil, length, take, drop, ok, arith,
}
use wave_mq.Wire.{
  Bytes, RoundTrips, RoundTrips-bind, RoundTrips-last, RoundTrips-check, RoundTrips-raw,
  RoundTrips-le, RoundTrips-le_int, WritesAtLeast, WritesAtLeast-▹, WritesAtLeast-zero,
  WritesAtLeast-check, WritesAtLeast-le, WritesAtLeast-le_int, ℤ, pos, negsuc, FitsSigned, i32_half,
  i64_half, crc32c, crc32c-lt, le_value, le_bytes, le_value-le_bytes,
}
use wave_mq.Frames.Seal.{checked_body, length-checked_body}
use wave_mq.OffsetStore.{
  Commit, write_commit_body, read_commit, out_of_int32, decode_offset_record,
  offset_record_is_valid, recover_record, store_commit, set_offset, Offsets,
}

in_int32 : (z : ℤ) → out_of_int32 z ≡ false → FitsSigned i32_half z
unfolding out_of_int32
in_int32 (pos n) h = ground arith
in_int32 (negsuc n) h = ground arith

module _ (c : Commit) (fits : FitsSigned i64_half c.offset) where
  commit_field : RoundTrips read_commit (write_commit_body c) c
  unfolding read_commit write_commit_body
  commit_field = RoundTrips-check _ _ λ short.
      RoundTrips-bind _ (RoundTrips-le 2 (length c.group) (ground arith)) (
        RoundTrips-bind _ (RoundTrips-raw c.group) (
          RoundTrips-bind _ (RoundTrips-le 2 (length c.topic) (ground arith)) (
            RoundTrips-bind _ (RoundTrips-raw c.topic) (
              RoundTrips-check _ _ λ in_range.
                RoundTrips-bind _
                  (RoundTrips-le_int 4 i32_half refl c.partition (in_int32 c.partition in_range))
                  (RoundTrips-last _ (RoundTrips-le_int 8 i64_half refl c.offset fits) refl)))))

body_length : (c : Commit) → WritesAtLeast 16 (write_commit_body c)
unfolding write_commit_body
body_length c = WritesAtLeast-check 16 _ _ _ (
    WritesAtLeast-▹ 2 14 _ _ (WritesAtLeast-le 2 (length c.group)) (
      WritesAtLeast-▹ 0 14 _ _ (WritesAtLeast-zero _) (
        WritesAtLeast-▹ 2 12 _ _ (WritesAtLeast-le 2 (length c.topic)) (
          WritesAtLeast-▹ 0 12 _ _ (WritesAtLeast-zero _) (
            WritesAtLeast-check 12 _ _ _ (
              WritesAtLeast-▹ 4 8 _ _ (WritesAtLeast-le_int 4 i32_half c.partition)
                (WritesAtLeast-le_int 8 i64_half c.offset)))))))

module _ (c : Commit) (fits : FitsSigned i64_half c.offset) (body : Bytes)
    (written : write_commit_body c ≡ ok body) where
  stored_crc : le_value (take 4 (checked_body body)) ≡ crc32c body
  unfolding checked_body le_bytes
  stored_crc = le_value-le_bytes 4 (crc32c body) (crc32c-lt body)

  stored_body : drop 4 (checked_body body) ≡ body
  unfolding checked_body le_bytes
  stored_body = refl

  is_valid : offset_record_is_valid (checked_body body) ≡ true
  unfolding offset_record_is_valid
  is_valid =
      rw (stored_crc, stored_body)
        (ground (arith, length-checked_body body, (body_length c).at body written))

  decoded : decode_offset_record (checked_body body) ≡ some c
  unfolding decode_offset_record
  decoded =
      let e : read_commit body ≡ ok (c, []) =
        rw append-nil at ((commit_field c fits).at body [] written) in
      rw (stored_body, e, decode_offset_record)

  -- What was committed is accepted, and set.
  pub recover_record-checked_body :
      (m : Offsets)
      → length (checked_body body) < i32_half
      → recover_record m (checked_body body) ≡ some (set_offset m c)
  unfolding recover_record store_commit
  recover_record-checked_body m small = ground (arith, is_valid, decoded)
