-- ===== src/Storage/Segment.antt =====
-- internal/storage/log.go: the validation of a record and the scan of a segment file. Offsets here
-- are those of a log that starts at a non-negative base, so they are numbers.
pub mod Recovery
pub mod BadTime
use wave_mq.Prelude.{
  ℕ, ◌+◌, not, Option, none, some, List, [], ◌∷◌, length, take, drop, ltb, leb, ◌==◌, if◌then◌else◌,
  Result, ok, err,
}
use wave_mq.Wire.{
  Bytes, Error, Writer, ◌▹◌, crc32c, le_value, i64_half, record_too_small, crc_mismatch,
  out_of_range, offset_mismatch,
}
use wave_mq.Api.{Record}
use wave_mq.Frames.{scan}
use wave_mq.Storage.Record.{encode_record, decode_record, min_record_size}

unfoldable pub as_unit : Result Error Record → Result Error (Unit {0})
as_unit (ok r) = ok tt
as_unit (err e) = err e

-- validateRecord: the size, the checksum, the offset, and that the body can be decoded.
unfoldable pub validate_record : Bytes → ℕ → Result Error (Unit {0})
unfolding as_unit
validate_record data' expected =
    if ltb (length data') min_record_size
    then err record_too_small
    else if not (le_value (take 4 data') == crc32c (drop 4 data'))
    then err crc_mismatch
    else (let offset' = le_value (take 8 (drop 4 data')) in
        if leb i64_half offset'
        then err out_of_range
        else if not (offset' == expected)
        then err offset_mismatch
        else as_unit (decode_record data'))

-- One round of the scan: `nextOffset++`, unless the record is refused.
unfoldable pub accept_record : ℕ → Bytes → Option ℕ
accept_record next data' = elim (validate_record data' next) [
  | ok _ ↦ some (next + 1)
  | err _ ↦ none
]

-- scanSegment: the next offset, and the valid bytes.
unfoldable pub scan_segment : ℕ → Bytes → Option (ℕ × ℕ)
unfolding scan accept_record validate_record
scan_segment base file = scan accept_record base file

-- The bytes that `AppendBatch` writes to one segment, record by record.
unfoldable pub write_records : List Record → Writer
write_records [] = ok []
write_records (r ∷ rs) = encode_record r ▹ write_records rs
