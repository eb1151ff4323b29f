-- ===== src/Storage/Examples.antt =====
-- Runs of internal/storage/log.go on small inputs, and its theorems at concrete inputs.
use wave_mq.Prelude.{
  ℕ, ◌+◌, ◌≤◌, ◌<◌, ◌≡◌, refl, Option, none, some, List, [], ◌∷◌, ◌++◌, length, take, drop, zero,
  suc, ◌^◌, Result, ok, err, arith,
}
use wave_mq.Wire.{Bytes, Error, pos, negsuc, crc32c, le_bytes, put_le_int, ◌▹◌}
use wave_mq.Api.{Record}
use wave_mq.Storage.Record.{
  decode_record, encode_record, write_record_body, write_record_fixed_fields,
  write_record_bytes_field, write_record_headers, write_each_header,
}
use wave_mq.Storage.Record.RoundTrip.{decode_record-encode_record, HasOffset, Storable}
use wave_mq.Storage.Segment.{scan_segment, write_records}
use wave_mq.Storage.Segment.Recovery.{scan_segment-torn, scan_segment_repair}
use wave_mq.Storage.Segment.BadTime.{scan_segment-early}
use wave_mq.Storage.Index.{IndexEntry, lookup_index}
use wave_mq.Storage.Index.Search.{Increasing, IsFloorPosition, lookup_index-IsFloorPosition}
use wave_mq.Frames.{seal_after}

abbrev small_record : ℕ → Record
small_record n = record {
  offset = pos n;
  timestamp = pos 1000;
  key = none;
  value = some (104 ∷ 105 ∷ []);
  headers = record { key = 107 ∷ []; value = some [] } ∷ [];
  crc32c = 0;
}

abbrev bytes_of : Result Error Bytes → Bytes
bytes_of (ok bs) = bs
bytes_of (err e) = []

encoded : Record → Bytes
unfolding encode_record seal_after write_record_body write_record_fixed_fields
    write_record_bytes_field write_record_headers write_each_header ◌▹◌ put_le_int crc32c le_bytes
encoded r = bytes_of (encode_record r)

first_length : length (encoded (small_record 7)) ≡ 47
unfolding encoded
first_length = refl

abbrev file : Bytes
file = encoded (small_record 7)

abbrev front : Bytes
front = take 20 (encoded (small_record 8))

abbrev back : Bytes
back = drop 21 (encoded (small_record 8))

file_written : write_records (small_record 7 ∷ []) ≡ ok file
unfolding write_records encoded
file_written = refl

file_encoded : encode_record (small_record 7) ≡ ok file
unfolding encoded
file_encoded = refl

next_cut : encode_record (small_record 8) ≡ ok (front ++ (0 ∷ back))
unfolding encoded
next_cut = refl

small_record-HasOffset : (n : ℕ) → n < 100 → HasOffset n (small_record n)
small_record-HasOffset n h = record { offset_eq = refl; offset_fits = omega arith }

small_record-Storable : (n : ℕ) → n < 100 → Storable n (small_record n)
small_record-Storable n h = record {
  placed = small_record-HasOffset n h;
  t = 1000;
  time_eq = refl;
  time_fits = omega arith;
}

file_small : length file < 2 ^ 32
unfolding encoded
file_small = omega arith

next_small : length (front ++ (0 ∷ back)) < 2 ^ 32
unfolding encoded
next_small = omega arith

scan_segment-torn_example : scan_segment 7 (file ++ front) ≡ some (7 + 1, length file)
scan_segment-torn_example =
    scan_segment-torn 7 (small_record 7 ∷ []) (small_record 8) file front 0 back
      (small_record-Storable 7 (omega arith), tt) file_written next_cut file_small next_small

scan_segment_repair_example :
    (next : ℕ) × (valid : ℕ) × (scan_segment 7 (9 ∷ 0 ∷ 0 ∷ 0 ∷ 1 ∷ []) ≡ some (next, valid))
    × (valid ≤ 5)
    × (scan_segment 7 (take valid (9 ∷ 0 ∷ 0 ∷ 0 ∷ 1 ∷ [])) ≡ some (next, valid))
scan_segment_repair_example =
    scan_segment_repair 7 (9 ∷ 0 ∷ 0 ∷ 0 ∷ 1 ∷ []) (omega arith) (omega arith)

abbrev early_record : Record
early_record = record {
  offset = pos 8;
  timestamp = negsuc 0;
  key = none;
  value = some (1 ∷ []);
  headers = [];
  crc32c = 0;
}

early_written : encode_record early_record ≡ ok (encoded early_record)
unfolding encoded
early_written = refl

early_small : length (encoded early_record) < 2 ^ 32
unfolding encoded
early_small = omega arith

scan_segment-early_example :
    scan_segment 7 (file ++ (encoded early_record ++ encoded (small_record 9)))
    ≡ some (7 + 1, length file)
scan_segment-early_example =
    scan_segment-early 7 (small_record 7 ∷ []) early_record file (encoded early_record)
      (encoded (small_record 9)) (small_record-Storable 7 (omega arith), tt)
      (record { offset_eq = refl; offset_fits = omega arith })
      (record { t = 0; time_eq = refl; time_fits = omega arith }) file_written early_written
      file_small early_small

abbrev two_entries : List IndexEntry
two_entries =
    record { relative_offset = 0; position = 0 }
    ∷ record { relative_offset = 8; position = 376 }
    ∷ []

two_entries-Increasing : Increasing two_entries
two_entries-Increasing zero zero a b lt ea eb = absurd (omega arith)
two_entries-Increasing zero (suc zero) a b lt ea eb = ground arith
two_entries-Increasing zero (suc (suc j)) a b lt ea eb = cc
two_entries-Increasing (suc zero) zero a b lt ea eb = absurd (omega arith)
two_entries-Increasing (suc zero) (suc zero) a b lt ea eb = absurd (omega arith)
two_entries-Increasing (suc zero) (suc (suc j)) a b lt ea eb = cc
two_entries-Increasing (suc (suc i)) j a b lt ea eb = cc

lookup_index-IsFloorPosition_example :
    (p : Option ℕ) × (lookup_index two_entries 9 ≡ some p) × IsFloorPosition two_entries 9 p
lookup_index-IsFloorPosition_example =
    lookup_index-IsFloorPosition two_entries 9 two_entries-Increasing

lookup_nine : lookup_index two_entries 9 ≡ some (some 376)
unfolding lookup_index
lookup_nine = refl

decode_record-encode_record_example :
    decode_record (drop 4 file) ≡ ok (record (small_record 7) { crc32c = crc32c (drop 8 file) })
decode_record-encode_record_example =
    decode_record-encode_record 7 (small_record 7) file (small_record-Storable 7 (omega arith))
      file_encoded
