-- ===== src/Netproto/Frame/RoundTrip.antt =====
-- Reading back what `encodeFrame` wrote.
use wave_mq.Prelude.{
  ℕ, ◌+◌, ◌-◌, ◌^◌, ◌≤◌, ◌<◌, ◌≡◌, refl, ap, ◌∙◌, not, false, [], ◌++◌, append_assoc, length, drop,
  ltb, leb, ok, err, arith, length-append,
}
use wave_mq.Wire.{
  ℤ, raise, reject_if, invalid_frame_length, Fails-bind, Fails-skip, Fails-here, Fails-raise, Bytes,
  pure, ◌>>=◌, ◌▹◌, bind-ok, read_full, RoundTrips-bind, RoundTrips-last, RoundTrips-skip,
  RoundTrips-raw, RoundTrips-reject_if, RoundTrips-be, read_full-append, put_be, put_be_int,
  be_bytes, pos, i16_half, i32_half, int_eq, frame_too_long,
}
use wave_mq.Netproto.Frame

-- What `decode_header` looks at, and the flags behind it.
header_fields : ℕ → ℕ → ℕ → Bytes
header_fields l k c = be_bytes 4 l ++ (be_bytes 2 k ++ (be_bytes 2 0 ++ be_bytes 4 c))

header_of : ℕ → ℕ → ℕ → Bytes
header_of l k c = header_fields l k c ++ be_bytes 2 0

length-header_of : (l k c : ℕ) → length (header_of l k c) ≡ 14
unfolding header_of header_fields be_bytes
length-header_of l k c = refl

is_signed : (half v : ℕ) → v < half → Frame.unsigned_to_signed half v ≡ pure (pos v)
unfolding Frame.unsigned_to_signed
is_signed half v h = ground arith

header_written :
    (l k c : ℕ) → put_be 4 l ▹ (put_be 2 k ▹ (put_be 2 0 ▹ put_be 4 c)) ≡ ok (header_fields l k c)
unfolding put_be ◌▹◌ header_fields
header_written l k c = refl

module _ (l k c : ℕ) (key : k < i16_half) (corr : c < i32_half) where
  version_read : not (int_eq (pos 0) (pos 0)) ≡ false
  unfolding int_eq
  version_read = refl

  corr_read :
      ◌>>=◌ {B = ℕ × (ℤ × ℤ)} (Frame.unsigned_to_signed i32_half c) (λ c'. pure (l, (pos k, c')))
      ≡ pure (l, (pos k, pos c))
  unfolding ◌>>=◌ pure
  corr_read = rw (is_signed i32_half c corr) refl

  decode_header-header_of :
      10 ≤ l
      → l ≤ Frame.max_frame_length
      → Frame.decode_header (header_of l k c) ≡ ok ((l, (pos k, pos c)), be_bytes 2 0)
  unfolding header_of Frame.decode_header
  decode_header-header_of low high =
      (RoundTrips-bind _ (RoundTrips-be 4 l (omega arith)) (
          RoundTrips-reject_if _ _ (ground arith) (
            RoundTrips-reject_if _ _ (ground arith) (
              RoundTrips-reject_if _ _ (ground arith) (
                RoundTrips-bind _ (RoundTrips-be 2 k (omega arith)) (
                  RoundTrips-skip _ (is_signed i16_half k key) (
                    RoundTrips-bind _ (RoundTrips-be 2 0 (omega arith)) (
                      RoundTrips-skip _ (is_signed i16_half 0 (omega arith)) (
                        RoundTrips-reject_if _ _ version_read (
                          RoundTrips-last _ (RoundTrips-be 4 c (omega arith)) corr_read)))))))))).at
        (header_fields l k c) (be_bytes 2 0) (header_written l k c)

  -- A length above the largest is the first thing refused.
  decode_header-too_long :
      l < 2 ^ 32
      → Frame.max_frame_length < l
      → Frame.decode_header (header_of l k c) ≡ err frame_too_long
  unfolding header_of Frame.decode_header
  decode_header-too_long word high =
      (Fails-bind _ (RoundTrips-be 4 l (omega arith))
          (Fails-skip _ not_short (Fails-here _ (Fails-raise _ _ _ long)))).at
        (header_fields l k c) (be_bytes 2 0) (header_written l k c)
    where
      not_short : reject_if (ltb l 10) invalid_frame_length ≡ pure tt
      not_short = unfold reject_if in ground arith

      long : reject_if (ltb Frame.max_frame_length l) frame_too_long ≡ raise frame_too_long
      long = unfold reject_if in ground arith

abbrev pub frame_of : ℕ → ℕ → Bytes → Frame.Frame
frame_of k c p = record { api_key = pos k; correlation_id = pos c; payload = p }

frame_fields-bytes :
    (k c : ℕ) (p : Bytes) → Frame.frame_fields (frame_of k c p) ≡ ok (header_of 0 k c ++ p)
unfolding Frame.frame_fields put_be put_be_int ◌▹◌ header_of header_fields be_bytes
frame_fields-bytes k c p = refl

put_length-header :
    (k c : ℕ) (p : Bytes)
    → length p < 2 ^ 32 - 10
    → Frame.put_length (ok (header_of 0 k c ++ p)) ≡ ok (header_of (10 + length p) k c ++ p)
put_length-header k c p small =
    let size : length (header_of 0 k c ++ p) - 4 ≡ 10 + length p =
      omega (arith, length-append (header_of 0 k c) p, length-header_of 0 k c) in
    let fits : leb (2 ^ 32) (10 + length p) ≡ false = ground arith in
    unfold Frame.put_length in rw (size, fits) (filled (10 + length p))
  where
    filled :
        (l : ℕ)
        → ok [] ▹ ok (be_bytes 4 l ++ drop 4 (header_of 0 k c ++ p)) ≡ ok (header_of l k c ++ p)
    filled l = unfold ◌▹◌ header_of header_fields be_bytes in refl

-- A frame with a payload that a uint32 can count is written.
encode_frame-bytes :
    (k c : ℕ) (p : Bytes)
    → length p < 2 ^ 32 - 10
    → Frame.encode_frame (frame_of k c p) ≡ ok (header_of (10 + length p) k c ++ p)
unfolding Frame.encode_frame
encode_frame-bytes k c p small =
    ap Frame.put_length (frame_fields-bytes k c p) ∙ put_length-header k c p small

module _ (k c : ℕ) (p : Bytes) (key : k < i16_half) (corr : c < i32_half) where
  payload_of_header :
      (h : Bytes) (l : ℕ) (rest : Bytes)
      → l ≡ 10 + length p
      → Frame.read_payload (ok ((l, (pos k, pos c)), h)) (p ++ rest) ≡ ok (frame_of k c p, rest)
  unfolding Frame.read_payload
  payload_of_header h l rest e =
      let same : l - 10 ≡ length p = omega (arith, e) in
      rw same ((RoundTrips-last _ (RoundTrips-raw p) refl).at p rest refl)

  decode_frame-header :
      (l : ℕ) (rest : Bytes)
      → Frame.decode_frame ((header_of l k c ++ p) ++ rest)
        ≡ Frame.read_payload (Frame.decode_header (header_of l k c)) (p ++ rest)
  unfolding Frame.decode_frame
  decode_frame-header l rest = rw append_assoc (
      bind-ok (read_full Frame.frame_header_size) _ (header_of l k c ++ (p ++ rest))
        (rw length-header_of at (read_full-append (header_of l k c) (p ++ rest))))

  -- A frame arrives as it was sent. Where the API key is below 2^15, the correlation id below 2^31
  -- and the payload, with the ten bytes of the header behind the length, within 16 MiB, `encodeFrame`
  -- succeeds, and `decodeFrame` returns, from these bytes and whatever follows them on the stream,
  -- the key, the correlation id and the payload, and leaves just what follows.
  pub decode_frame-encode_frame :
      10 + length p ≤ Frame.max_frame_length
      → (bs : Bytes) × (Frame.encode_frame (frame_of k c p) ≡ ok bs)
        × ((rest : Bytes) → Frame.decode_frame (bs ++ rest) ≡ ok (frame_of k c p, rest))
  decode_frame-encode_frame small = (
    header_of (10 + length p) k c ++ p,
    encode_frame-bytes k c p (omega arith),
    λ rest.
        decode_frame-header (10 + length p) rest
        ∙ (rw (decode_header-header_of (10 + length p) k c key corr (omega arith) small)
            (payload_of_header (be_bytes 2 0) (10 + length p) rest refl)),
  )

  -- `encodeFrame` has no limit of its own. Where the payload, with the ten bytes of the header behind
  -- the length, is above 16 MiB but a uint32 can count it, `encodeFrame` succeeds on an API key below
  -- 2^15 and a correlation id below 2^31, and `decodeFrame` refuses what it wrote as too long.
  pub decode_frame-too_long :
      Frame.max_frame_length < 10 + length p
      → length p < 2 ^ 32 - 10
      → (bs : Bytes) × (Frame.encode_frame (frame_of k c p) ≡ ok bs)
        × ((rest : Bytes) → Frame.decode_frame (bs ++ rest) ≡ err frame_too_long)
  decode_frame-too_long large small = (
    header_of (10 + length p) k c ++ p,
    encode_frame-bytes k c p small,
    λ rest.
        decode_frame-header (10 + length p) rest
        ∙ (rw (decode_header-too_long (10 + length p) k c key corr (omega arith) large)
            (unfold Frame.read_payload raise in refl)),
  )
