-- ===== src/Netproto/Frame.antt =====
-- internal/netproto/codec.go: the frame around a request or a response.
pub mod RoundTrip
use wave_mq.Prelude.{
  ℕ, ◌-◌, ◌*◌, ◌^◌, Bool, true, false, not, [], ◌∷◌, ◌++◌, length, take, drop, ltb, leb,
  if◌then◌else◌, Result, ok, err,
}
use wave_mq.Wire.{
  Bytes, Error, out_of_range, invalid_frame_length, frame_too_long, unsupported_version, Reader,
  Writer, pure, raise, ◌>>=◌, ◌>>◌, reject_if, read_full, check, ◌▹◌, ℤ, pos, negsuc, of_pattern,
  i16_half, i32_half, put_be, read_be, put_be_int, be_bytes, int_eq,
}

abbrev pub frame_header_size : ℕ
frame_header_size = 14

abbrev pub max_frame_length : ℕ
max_frame_length = 16 * 2 ^ 20

-- What `decodeFrame` returns.
pub record Frame : Type 0 where
  pub api_key : ℤ
  pub correlation_id : ℤ
  pub payload : Bytes

-- The buffer with its placeholder, before the length is put in.
unfoldable pub frame_fields : Frame → Writer
frame_fields f =
    put_be 4 0
    ▹ (put_be_int 2 i16_half f.api_key
        ▹ (put_be_int 2 i16_half (pos 0)
            ▹ (put_be_int 4 i32_half f.correlation_id
                ▹ (put_be_int 2 i16_half (pos 0) ▹ ok f.payload))))

unfoldable pub put_length : Writer → Writer
put_length (ok bs) =
    check (leb (2 ^ 32) (length bs - 4)) out_of_range ▹ ok (be_bytes 4 (length bs - 4) ++ drop 4 bs)
put_length (err e) = err e

-- encodeFrame, encodeRequestFrame, encodeResponseFrame
unfoldable pub encode_frame : Frame → Writer
unfolding frame_fields put_length
encode_frame f = put_length (frame_fields f)

-- uint16ToInt16, uint32ToInt32: the pattern of a negative number is refused.
unfoldable pub unsigned_to_signed : ℕ → ℕ → Reader ℤ
unsigned_to_signed half v = if leb half v then raise out_of_range else pure (pos v)

-- A header of frame_header_size bytes: the length, the key and the correlation id.
unfoldable pub decode_header : Reader (ℕ × (ℤ × ℤ))
decode_header = do
  l ← read_be 4
  reject_if (ltb l 10) invalid_frame_length
  reject_if (ltb max_frame_length l) frame_too_long
  reject_if (leb i32_half l) frame_too_long
  raw_key ← read_be 2
  key ← unsigned_to_signed i16_half raw_key
  raw_version ← read_be 2
  version ← unsigned_to_signed i16_half raw_version
  reject_if (not (int_eq version (pos 0))) unsupported_version
  raw_corr ← read_be 4
  corr ← unsigned_to_signed i32_half raw_corr
  pure (l, (key, corr))

-- The payload, once the header is decoded.
unfoldable pub read_payload : Result Error ((ℕ × (ℤ × ℤ)) × Bytes) → Reader Frame
read_payload (err e) = raise e
read_payload (ok ((l, (key, corr)), flags)) = do
  p ← read_full (l - 10)
  pure (record { api_key = key; correlation_id = corr; payload = p })

-- decodeFrame, decodeRequestFrame, decodeResponseFrame
unfoldable pub decode_frame : Reader Frame
unfolding decode_header
decode_frame = do header ← read_full frame_header_size; read_payload (decode_header header)
