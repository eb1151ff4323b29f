-- ===== src/Frames/Seal.antt =====
-- What `seal` writes: the framed record, in one line.
use wave_mq.Prelude.{◌+◌, ◌^◌, ◌<◌, ◌≡◌, refl, ◌++◌, length, ok, err, arith, length-append}
use wave_mq.Wire.{Bytes, Writer, ◌▹◌, le_bytes, length-le_bytes, crc32c}
use wave_mq.Frames.{placeholders, seal, seal_after}

-- A record behind its length.
unfoldable pub frame : Bytes → Bytes
frame data' = le_bytes 4 (length data') ++ data'

-- The checksum and the body, which the length counts.
unfoldable pub checked_body : Bytes → Bytes
checked_body body = le_bytes 4 (crc32c body) ++ body

pub length-checked_body : (body : Bytes) → length (checked_body body) ≡ 4 + length body
unfolding checked_body
length-checked_body body =
    omega (arith, length-append (le_bytes 4 (crc32c body)) body, length-le_bytes 4 (crc32c body))

pub length-frame : (data' : Bytes) → length (frame data') ≡ 4 + length data'
unfolding frame
length-frame data' =
    omega (arith, length-append (le_bytes 4 (length data')) data', length-le_bytes 4 (length data'))

pub seal-eq-frame :
    (body bs : Bytes)
    → seal (placeholders ++ body) ≡ ok bs
    → (bs ≡ frame (checked_body body)) × (length (checked_body body) < 2 ^ 32)
unfolding seal frame checked_body ◌▹◌ le_bytes
seal-eq-frame body bs h = ground arith

pub seal_after-eq-frame :
    (w : Writer) (bs : Bytes)
    → seal_after (ok placeholders ▹ w) ≡ ok bs
    → (body : Bytes) × (w ≡ ok body)
      × (bs ≡ frame (checked_body body))
      × (length (checked_body body) < 2 ^ 32)
unfolding seal_after ◌▹◌
seal_after-eq-frame (ok body) bs h =
    let (e, small) = seal-eq-frame body bs h in (body, refl, e, small)
seal_after-eq-frame (err e) bs h = cc
