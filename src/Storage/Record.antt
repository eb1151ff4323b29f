-- ===== src/Storage/Record.antt =====
-- internal/storage/log.go: the encoding of one record in a segment file.
pub mod RoundTrip
use wave_mq.Prelude.{
  ℕ, zero, suc, ◌^◌, Bool, true, false, Option, none, some, List, [], ◌∷◌, length, ltb, leb,
  if◌then◌else◌, Result, ok, err,
}
use wave_mq.Wire.{
  Bytes, Error, out_of_range, negative_offset, record_too_small, trailing_bytes, invalid_length,
  invalid_header_count, Reader, Writer, pure, raise, ◌>>=◌, ◌>>◌, reject_if, on_error, read_full,
  check, ◌▹◌, ℤ, pos, negsuc, to_pattern, of_pattern, i32_half, i64_half, put_le, read_le,
  put_le_int, read_le_int,
}
use wave_mq.Api.{Header, Record}
use wave_mq.Frames.{placeholders, seal_after}

-- toInt32Length
unfoldable pub check_int32_length : ℕ → Writer
check_int32_length n = check (leb i32_half n) out_of_range

-- offsetToUint64: the offset as a uint64, unless it is negative
unfoldable pub offset_to_uint64 : ℤ → Result Error ℕ
offset_to_uint64 (pos n) = ok n
offset_to_uint64 (negsuc n) = err negative_offset

put_offset : Result Error ℕ → Writer
put_offset (ok n) = put_le 8 n
put_offset (err e) = err e

unfoldable pub write_record_fixed_fields : Record → Writer
unfolding put_offset offset_to_uint64
write_record_fixed_fields r =
    put_offset (offset_to_uint64 r.offset) ▹ put_le_int 8 i64_half r.timestamp

unfoldable pub write_record_bytes_field : Option Bytes → Writer
unfolding check_int32_length
write_record_bytes_field none = put_le_int 4 i32_half (negsuc 0)
write_record_bytes_field (some b) =
    check_int32_length (length b) ▹ (put_le_int 4 i32_half (pos (length b)) ▹ ok b)

unfoldable pub write_each_header : List Header → Writer
write_each_header [] = ok []
write_each_header (h ∷ hs) =
    write_record_bytes_field (some h.key)
    ▹ (write_record_bytes_field h.value ▹ write_each_header hs)

unfoldable pub write_record_headers : List Header → Writer
unfolding check_int32_length
write_record_headers hs =
    check_int32_length (length hs)
    ▹ (put_le_int 4 i32_half (pos (length hs)) ▹ write_each_header hs)

-- The fields of a record, in the order in which `encodeRecord` writes them.
unfoldable pub write_record_body : Record → Writer
write_record_body r =
    write_record_fixed_fields r
    ▹ (write_record_bytes_field r.key
        ▹ (write_record_bytes_field r.value ▹ write_record_headers r.headers))

unfoldable pub encode_record : Record → Writer
encode_record r = seal_after (ok placeholders ▹ write_record_body r)

-- In the readers `data[*idx:]` is the unread part.
unfoldable pub record_bytes : ℤ → Reader (Option Bytes)
record_bytes (negsuc n) = pure none
record_bytes (pos l) = do b ← on_error invalid_length (read_full l); pure (some b)

unfoldable pub read_record_bytes_field : Reader (Option Bytes)
read_record_bytes_field = do l ← on_error invalid_length (read_le_int 4 i32_half); record_bytes l

-- `string(k)` of a nil slice is the empty string.
abbrev pub string_of : Option Bytes → Bytes
string_of none = []
string_of (some b) = b

unfoldable pub read_each_header : ℕ → Reader (List Header)
read_each_header zero = pure []
read_each_header (suc n) = do
  k ← read_record_bytes_field
  v ← read_record_bytes_field
  hs ← read_each_header n
  pure (record { key = string_of k; value = v } ∷ hs)

unfoldable pub read_header_count : ℤ → Reader (List Header)
read_header_count (negsuc n) = raise invalid_header_count
read_header_count (pos n) = read_each_header n

unfoldable pub read_record_headers : Reader (List Header)
read_record_headers = do
  n ← on_error invalid_header_count (read_le_int 4 i32_half)
  read_header_count n

abbrev pub min_record_size : ℕ
min_record_size = 32

unfoldable pub reject_small : Reader (Unit {0})
reject_small r = if ltb (length r) min_record_size then err record_too_small else ok (tt, r)

-- uint64ToOffset, uint64ToInt64
unfoldable pub uint64_to_int64 : ℕ → Reader ℤ
uint64_to_int64 v = if leb i64_half v then raise out_of_range else pure (pos v)

-- `decodeRecordPrefix` behind the test of the size
unfoldable pub read_record_prefix : Reader Record
read_record_prefix = do
  crc ← read_le 4
  raw_offset ← read_le 8
  offset' ← uint64_to_int64 raw_offset
  raw_time ← read_le 8
  time' ← uint64_to_int64 raw_time
  pure (record {
    offset = offset';
    timestamp = time';
    key = none;
    value = none;
    headers = [];
    crc32c = crc;
  })

-- `decodeRecord` behind the test of the size
unfoldable pub read_record_fields : Reader Record
read_record_fields = do
  r ← read_record_prefix
  k ← read_record_bytes_field
  v ← read_record_bytes_field
  hs ← read_record_headers
  pure (record r { key = k; value = v; headers = hs })

-- `idx != len(data)`
unfoldable pub whole {ℓ} : {A : Type ℓ} → Result Error (A × Bytes) → Result Error A
whole (err e) = err e
whole (ok (a, [])) = ok a
whole (ok (a, b ∷ bs)) = err trailing_bytes

unfoldable pub decode_record : Bytes → Result Error Record
unfolding whole
decode_record data' = whole ((reject_small >> read_record_fields) data')
