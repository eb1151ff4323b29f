-- ===== src/Netproto/Record.antt =====
-- internal/netproto/codec.go: headers and records.
pub mod RoundTrip
use wave_mq.Prelude.{
  ℕ, Bool, true, false, none, List, [], ◌∷◌, length, take, drop, ltb, if◌then◌else◌, ok, err,
}
use wave_mq.Wire.{
  Bytes, Error, invalid_length, Reader, Writer, pure, raise, ◌>>=◌, ◌▹◌, ℤ, pos, negsuc, i32_half,
  i64_half, put_be_int, read_be_int,
}
use wave_mq.Api.{Header, Record}
use wave_mq.Netproto.Primitives.{
  put_checked_int32, put_string, read_string, put_bytes, read_bytes, put_counted, read_counted,
}

unfoldable pub put_header : Header → Writer
put_header h = put_string h.key ▹ put_bytes h.value

unfoldable pub put_headers : List Header → Writer
unfolding put_header
put_headers hs = put_counted put_header hs

unfoldable pub read_header : Reader Header
read_header = do k ← read_string; v ← read_bytes; pure (record { key = k; value = v })

unfoldable pub read_headers : Reader (List Header)
unfolding read_header
read_headers = read_counted read_header

unfoldable pub encode_record : Record → Writer
unfolding put_headers
encode_record r =
    put_be_int 8 i64_half r.offset
    ▹ (put_be_int 8 i64_half r.timestamp
        ▹ (put_bytes r.key ▹ (put_bytes r.value ▹ put_headers r.headers)))

-- The checksum of a record is not sent.
unfoldable pub decode_record : Reader Record
unfolding read_headers
decode_record = do
  offset' ← read_be_int 8 i64_half
  time' ← read_be_int 8 i64_half
  key' ← read_bytes
  value' ← read_bytes
  headers' ← read_headers
  pure (record {
    offset = offset';
    timestamp = time';
    key = key';
    value = value';
    headers = headers';
    crc32c = 0;
  })

-- A record behind its length.
unfoldable pub sized : Writer → Writer
unfolding put_checked_int32
sized (ok bs) = put_checked_int32 (pos (length bs)) ▹ ok bs
sized (err e) = err e

unfoldable pub put_sized_record : Record → Writer
unfolding encode_record sized
put_sized_record r = sized (encode_record r)

-- `m` on a buffer of its own; what it leaves there is dropped.
unfoldable pub within {ℓ} : {A : Type ℓ} → Reader A → Bytes → Reader A
within m bs r = elim (m bs) [ ok (a, _) ↦ ok (a, r) | err e ↦ err e ]

-- `l < 0 || int(l) > buf.Len()`, then `buf.Next(int(l))`
unfoldable pub record_of_length : ℤ → Reader Record
record_of_length (negsuc n) r = err invalid_length
record_of_length (pos n) r =
    if ltb (length r) n then err invalid_length else within decode_record (take n r) (drop n r)

unfoldable pub read_sized_record : Reader Record
unfolding record_of_length
read_sized_record = do l ← read_be_int 4 i32_half; record_of_length l

unfoldable pub put_records : List Record → Writer
unfolding put_sized_record
put_records rs = put_counted put_sized_record rs

unfoldable pub read_records : Reader (List Record)
unfolding read_sized_record
read_records = read_counted read_sized_record
