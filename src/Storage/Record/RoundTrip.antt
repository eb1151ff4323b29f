-- ===== src/Storage/Record/RoundTrip.antt =====
-- Reading back what `encodeRecord` wrote.
use wave_mq.Prelude.{
  ℕ, ◌^◌, ◌≤◌, ◌<◌, ◌≡◌, refl, ap, ◌∙◌, Option, none, some, List, [], ◌∷◌, length, drop, ok, arith,
  append-nil,
}
use wave_mq.Wire.{
  Bytes, le_bytes, crc32c, crc32c-lt, pure, ◌>>=◌, bind-ok, ◌▹◌, RoundTrips, RoundTrips-bind,
  RoundTrips-pure, RoundTrips-last, RoundTrips-skip, RoundTrips-check, RoundTrips-raw,
  RoundTrips-on_error, WritesAtLeast, WritesAtLeast-▹, WritesAtLeast-check, WritesAtLeast-first,
  WritesAtLeast-le, WritesAtLeast-le_int, pos, negsuc, i32_half, i64_half, put_le, RoundTrips-le,
  RoundTrips-le_int, put_le_int-pos, ▹_assoc,
}
use wave_mq.Frames.Seal.{checked_body, length-checked_body, frame, seal_after-eq-frame}
use wave_mq.Api.{Header, Record}
use wave_mq.Storage.Record

-- The record stands at an offset of an int64.
pub record HasOffset (n : ℕ) (r : Record) : Type 0 where
  pub offset_eq : r.offset ≡ pos n
  pub offset_fits : n < i64_half

-- The reader takes times from 1970 on, as far as an int64 of nanoseconds goes.
pub record Storable (n : ℕ) (r : Record) : Type 0 where
  pub placed : HasOffset n r
  pub open placed use *
  pub t : ℕ
  pub time_eq : r.timestamp ≡ pos t
  pub time_fits : t < i64_half

pub bytes_field :
    (b : Option Bytes)
    → RoundTrips Record.read_record_bytes_field (Record.write_record_bytes_field b) b
unfolding Record.read_record_bytes_field Record.write_record_bytes_field Record.record_bytes
bytes_field none =
    RoundTrips-last _
      (RoundTrips-on_error _ (RoundTrips-le_int 4 i32_half refl (negsuc 0) (omega arith))) refl
bytes_field (some b) = RoundTrips-check _ _ λ fits.
    RoundTrips-bind _
      (RoundTrips-on_error _ (RoundTrips-le_int 4 i32_half refl (pos (length b)) (ground arith)))
      (RoundTrips-last _ (RoundTrips-on_error _ (RoundTrips-raw b)) refl)

each_header :
    (hs : List Header)
    → RoundTrips (Record.read_each_header (length hs)) (Record.write_each_header hs) hs
unfolding Record.read_each_header Record.write_each_header
each_header [] = RoundTrips-pure []
each_header (h ∷ hs) =
    RoundTrips-bind _ (bytes_field (some h.key))
      (RoundTrips-bind _ (bytes_field h.value) (RoundTrips-last _ (each_header hs) refl))

headers_field :
    (hs : List Header) → RoundTrips Record.read_record_headers (Record.write_record_headers hs) hs
unfolding Record.read_record_headers Record.write_record_headers Record.read_header_count
headers_field hs = RoundTrips-check _ _ λ fits.
    RoundTrips-bind _
      (RoundTrips-on_error _ (RoundTrips-le_int 4 i32_half refl (pos (length hs)) (ground arith)))
      (each_header hs)

-- Every field writes its length at least, so a record is never below the smallest size.
bytes_field_length : (b : Option Bytes) → WritesAtLeast 4 (Record.write_record_bytes_field b)
unfolding Record.write_record_bytes_field
bytes_field_length none = WritesAtLeast-le_int 4 i32_half (negsuc 0)
bytes_field_length (some b) =
    WritesAtLeast-check 4 _ _ _
      (WritesAtLeast-first 4 _ _ (WritesAtLeast-le_int 4 i32_half (pos (length b))))

headers_length : (hs : List Header) → WritesAtLeast 4 (Record.write_record_headers hs)
unfolding Record.write_record_headers
headers_length hs =
    WritesAtLeast-check 4 _ _ _
      (WritesAtLeast-first 4 _ _ (WritesAtLeast-le_int 4 i32_half (pos (length hs))))

module _ (n : ℕ) (r : Record) (h : HasOffset n r) where
  fixed_length : WritesAtLeast 16 (Record.write_record_fixed_fields r)
  unfolding Record.write_record_fixed_fields
  fixed_length =
      rw (h.offset_eq) (
        WritesAtLeast-▹ 8 8 _ _ (WritesAtLeast-le 8 n)
          (WritesAtLeast-le_int 8 i64_half r.timestamp))

  body_length : WritesAtLeast 28 (Record.write_record_body r)
  unfolding Record.write_record_body
  body_length = WritesAtLeast-▹ 16 12 _ _ fixed_length (
      WritesAtLeast-▹ 4 8 _ _ (bytes_field_length r.key)
        (WritesAtLeast-▹ 4 4 _ _ (bytes_field_length r.value) (headers_length r.headers)))

  pub checked_body_written :
      (body : Bytes)
      → Record.write_record_body r ≡ ok body
      → put_le 4 (crc32c body) ▹ Record.write_record_body r ≡ ok (checked_body body)
  unfolding put_le ◌▹◌ checked_body
  checked_body_written body written = rw written

  pub min-le-length-body :
      (body : Bytes)
      → Record.write_record_body r ≡ ok body
      → Record.min_record_size ≤ length (checked_body body)
  min-le-length-body body written =
      omega (arith, length-checked_body body, body_length.at body written)

  pub not_small :
      (body : Bytes)
      → Record.write_record_body r ≡ ok body
      → Record.reject_small (checked_body body) ≡ ok (tt, checked_body body)
  unfolding Record.reject_small
  not_small body written = ground (arith, min-le-length-body body written)

pub in_int64 : (v : ℕ) → v < i64_half → Record.uint64_to_int64 v ≡ pure (pos v)
unfolding Record.uint64_to_int64
in_int64 v fits = ground arith

module _ (n : ℕ) (r : Record) (h : Storable n r) where
  prefix_field :
      (crc : ℕ)
      → crc < 2 ^ 32
      → RoundTrips Record.read_record_prefix
          (put_le 4 crc ▹ Record.write_record_fixed_fields r)
          (record {
            offset = r.offset;
            timestamp = r.timestamp;
            key = none;
            value = none;
            headers = [];
            crc32c = crc;
          })
  unfolding Record.read_record_prefix Record.write_record_fixed_fields
  prefix_field crc small =
      rw (h.offset_eq, h.time_eq, put_le_int-pos)
        (RoundTrips-bind _ (RoundTrips-le 4 crc small) (
          RoundTrips-bind _ (RoundTrips-le 8 n (omega (arith, h.offset_fits))) (
            RoundTrips-skip _ (in_int64 n h.offset_fits) (
              RoundTrips-last _ (RoundTrips-le 8 h.t (omega (arith, h.time_fits)))
                (rw (in_int64 h.t h.time_fits) (unfold ◌>>=◌ pure in refl))))))

  abbrev pub restored : ℕ → Record
  restored crc = record r { crc32c = crc }

  record_field :
      (crc : ℕ)
      → crc < 2 ^ 32
      → RoundTrips Record.read_record_fields
          (put_le 4 crc ▹ Record.write_record_body r)
          (restored crc)
  unfolding Record.read_record_fields Record.write_record_body
  record_field crc small = rw (← ▹_assoc) (
      RoundTrips-bind _ (prefix_field crc small) (
        RoundTrips-bind _ (bytes_field r.key) (
          RoundTrips-bind _ (bytes_field r.value)
            (RoundTrips-last _ (headers_field r.headers) refl))))

  module _ (body : Bytes) (written : Record.write_record_body r ≡ ok body) where
    fields_read : Record.read_record_fields (checked_body body) ≡ ok (restored (crc32c body), [])
    fields_read = rw append-nil at (
        (record_field (crc32c body) (crc32c-lt body)).at (checked_body body) []
          (checked_body_written n r h.placed body written))

    -- What was written is decoded, with the checksum that was stored.
    pub decode_record-checked_body :
        Record.decode_record (checked_body body) ≡ ok (restored (crc32c body))
    unfolding Record.decode_record
    decode_record-checked_body = ap Record.whole (
        bind-ok Record.reject_small (λ _. Record.read_record_fields) (checked_body body)
          (not_small n r h.placed body written)
        ∙ fields_read)

-- A record is read back as it was stored: where `encodeRecord` accepts a record with an offset and a
-- time that are not negative int64s, `decodeRecord` of what stands behind the length prefix gives the
-- same record, nil and empty slices told apart, with the checksum that was stored.
pub decode_record-encode_record :
    (n : ℕ) (r : Record) (b : Bytes)
    → Storable n r
    → Record.encode_record r ≡ ok b
    → Record.decode_record (drop 4 b) ≡ ok (record r { crc32c = crc32c (drop 8 b) })
unfolding Record.encode_record
decode_record-encode_record n r b h e =
    let (body, written, framed, _) = seal_after-eq-frame (Record.write_record_body r) b e in
    rw (framed, behind_length body, behind_crc body) (decode_record-checked_body n r h body written)
  where
    behind_length : (body : Bytes) → drop 4 (frame (checked_body body)) ≡ checked_body body
    behind_length body = unfold frame le_bytes in refl

    behind_crc : (body : Bytes) → drop 8 (frame (checked_body body)) ≡ body
    behind_crc body = unfold frame checked_body le_bytes in refl
