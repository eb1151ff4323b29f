-- ===== src/Frames.antt =====
-- The record framing that the three logs share (internal/storage/log.go,
-- internal/broker/offset_store.go, internal/metadata/store.go): a 32-bit length, a CRC-32C, a body.
-- Each of these files seals a record in the same way and scans its file with the same loop, which
-- differs only in what it does with the record that it has read: the argument `step`.
pub mod Seal
pub mod Next
pub mod Scan
pub mod Log
use wave_mq.Prelude.{
  ℕ, zero, suc, ◌+◌, ◌-◌, ◌*◌, ◌/◌, ◌%◌, ◌^◌, Option, none, some, [], ◌∷◌, ◌++◌, length, take, drop,
  leb, ◌==◌, if◌then◌else◌, ok, err,
}
use wave_mq.Wire.{Bytes, Writer, check, ◌▹◌, out_of_range, le_bytes, le_value, crc32c}

-- The two placeholders that every encoder writes first.
abbrev pub placeholders : Bytes
placeholders = 0 ∷ 0 ∷ 0 ∷ 0 ∷ 0 ∷ 0 ∷ 0 ∷ 0 ∷ []

-- binary.LittleEndian.PutUint32(b[i:i+4], v)
unfoldable pub put_u32_at : ℕ → ℕ → Bytes → Bytes
put_u32_at i v b = take i b ++ (le_bytes 4 v ++ drop (i + 4) b)

-- The end of each encoder: the length of what follows it, then the checksum of the body.
unfoldable pub seal : Bytes → Writer
unfolding put_u32_at
seal b =
    check (leb (2 ^ 32) (length b - 4)) out_of_range
    ▹ (let b' = put_u32_at 0 (length b - 4) b in ok (put_u32_at 4 (crc32c (drop 8 b')) b'))

-- `seal` after the writes to the buffer, unless one of them failed.
unfoldable pub seal_after : Writer → Writer
unfolding seal
seal_after (ok b) = seal b
seal_after (err e) = err e

-- The record at the front of the unread part of a file, and what follows it. A read that passes
-- the end of the file and a length of 0 end the scan; `4 + size` is a uint32.
unfoldable pub next_frame : Bytes → Option (Bytes × Bytes)
next_frame r =
    if leb 4 (length r)
    then (let size = le_value (take 4 r) in
        let data' = drop 4 r in
        if size == 0
        then none
        else if leb size (length data')
        then some (take size data', drop ((4 + size) % 2 ^ 32) r)
        else none)
    else none

-- The scan from `pos`, on fuel: the state after the last good record, and the position behind it.
-- `none` means that the fuel ran out.
unfoldable pub scan_from {ℓ} :
    {S : Type ℓ} → (S → Bytes → Option S) → ℕ → S → ℕ → Bytes → Option (S × ℕ)
scan_from step zero s pos r = none
scan_from step (suc fuel) s pos r = elim (next_frame r) [
  | none ↦ some (s, pos)
  | some (record', rest) ↦ elim (step s record') [
    | none ↦ some (s, pos)
    | some s' ↦ scan_from step fuel s' (pos + (4 + length record') % 2 ^ 32) rest
  ]
]

-- The scan of a whole file. Every record takes a byte at least, so the fuel is enough.
unfoldable pub scan {ℓ} : {S : Type ℓ} → (S → Bytes → Option S) → S → Bytes → Option (S × ℕ)
unfolding scan_from next_frame
scan step s file = scan_from step (suc (length file)) s 0 file
