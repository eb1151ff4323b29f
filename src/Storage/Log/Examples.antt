-- ===== src/Storage/Log/Examples.antt =====
-- Runs of the segmented log of internal/storage/log.go, and its theorems at concrete inputs.
use wave_mq.Prelude.{
  ℕ, ◌+◌, ◌-◌, ◌^◌, ◌<◌, ◌≡◌, refl, sym, true, false, none, some, List, [], ◌∷◌, ◌++◌, map, length,
  drop, replicate, Result, ok, err, arith,
}
use wave_mq.Wire.{Bytes, Error, pos, crc32c, le_bytes, put_le_int, int_eq, ◌▹◌}
use wave_mq.Api.{Record}
use wave_mq.Storage.Record.{
  encode_record, write_record_body, write_record_fixed_fields, write_record_bytes_field,
  write_record_headers, write_each_header,
}
use wave_mq.Storage.Record.RoundTrip.{Storable}
use wave_mq.Storage.Segment.{scan_segment, write_records}
use wave_mq.Storage.Index.{lookup_index}
use wave_mq.Storage.Log
use wave_mq.Storage.Log.WellFormed.{WellFormed, contents}
use wave_mq.Storage.Log.Append.{stamp_all}
use wave_mq.Storage.Log.Batch.{append_batch-WellFormed, append_batch_lem}
use wave_mq.Storage.Log.View
use wave_mq.Storage.Log.Read.{read_from_segment}
use wave_mq.Storage.Log.Read.Records.{stored, within}
use wave_mq.Storage.Log.Read.Run.{read_from_segment_lem}
use wave_mq.Storage.Log.Truncate.{truncate, cut_segment}
use wave_mq.Storage.Log.Truncate.Lost.{truncate_lem, truncate-append_lost}
use wave_mq.Frames.{seal_after}

abbrev record_at : ℕ → Record
record_at n = record {
  offset = pos n;
  timestamp = pos 1000;
  key = none;
  value = some (104 ∷ 105 ∷ []);
  headers = [];
  crc32c = 0;
}

abbrev bytes_of : Result Error Bytes → Bytes
bytes_of (ok bs) = bs
bytes_of (err e) = []

encoded : Record → Bytes
unfolding encode_record seal_after write_record_body write_record_fixed_fields
    write_record_bytes_field write_record_headers write_each_header ◌▹◌ put_le_int crc32c le_bytes
encoded r = bytes_of (encode_record r)

record_at-Storable : (n : ℕ) → n < 100 → Storable n (record_at n)
record_at-Storable n h = record {
  placed = record { offset_eq = refl; offset_fits = omega arith };
  t = 1000;
  time_eq = refl;
  time_fits = omega arith;
}

abbrev small_segments : Log.LogConfig
small_segments = record {
  max_segment_bytes = 60;
  index_interval = 1;
  segment_max_age = 0;
  max_log_bytes = pos 50;
  base_offset = 0;
}

abbrev at_noon : Log.Clock
at_noon = record { stamp_at = λ n. pos 5; created_at = λ n. 7; retention_at = 9 }

-- A segment with the records at the offsets 7 and 8.
abbrev two_records : Log.Segment
two_records = record {
  base_offset = 7;
  next_offset = 9;
  file = encoded (record_at 7) ++ encoded (record_at 8);
  cursor = 76;
  size = 76;
  created_at = 1;
  idx = record { relative_offset = 0; position = 0 } ∷ [];
  idx_open = true;
}

abbrev one_log : Log.SegmentedLog
one_log = record { segments = two_records ∷ []; next_offset = 9; start_offset = 7; closed = false }

file_length : length (encoded (record_at 7) ++ encoded (record_at 8)) ≡ 76
unfolding encoded
file_length = refl

file_small : length (encoded (record_at 7) ++ encoded (record_at 8)) < 2 ^ 32
file_small = omega (arith, file_length)

one_log-WellFormed : WellFormed one_log
one_log-WellFormed = record {
  packed = (record { at_end = sym file_length; whole_size = sym file_length }, tt);
  chained = (omega arith, omega arith);
  starts = refl;
}

written_seven : write_records (record_at 7 ∷ []) ≡ ok (encoded (record_at 7))
unfolding write_records encoded
written_seven = refl

written_eight : write_records (record_at 8 ∷ []) ≡ ok (encoded (record_at 8))
unfolding write_records encoded
written_eight = refl

written_both :
    write_records (record_at 7 ∷ record_at 8 ∷ [])
    ≡ ok (encoded (record_at 7) ++ encoded (record_at 8))
unfolding write_records encoded
written_both = refl

stamped_encodings :
    View.encodings (stamp_all at_noon 9 (record_at 0 ∷ [])) ≡ ok (encoded (record_at 9) ∷ [])
unfolding View.encodings encoded Log.stamped int_eq
stamped_encodings = refl

append_batch-WellFormed_example :
    WellFormed (Log.append_batch small_segments at_noon (record_at 0 ∷ []) one_log).0
    × (0 < length (Log.append_batch small_segments at_noon (record_at 0 ∷ []) one_log).0.segments)
append_batch-WellFormed_example =
    append_batch-WellFormed small_segments at_noon (record_at 0 ∷ []) one_log one_log-WellFormed
      (omega arith)

-- The new record goes to a new segment, and the old one is removed.
removes_old :
    (Log.append_batch small_segments at_noon (record_at 0 ∷ []) one_log).0.start_offset ≡ 9
unfolding Log.append_batch encoded int_eq
removes_old = refl

append_batch_example :
    (l' : Log.SegmentedLog) × (appended : List Log.Segment) × (removed : ℕ) × (Log.append_batch
        small_segments at_noon
        (record_at 0 ∷ [])
        one_log
      ≡ (l', ok 9))
    × (l'.next_offset ≡ 9 + 1)
    × (View.view appended
        ≡ View.add_records 60 at_noon 9 (encoded (record_at 9) ∷ []) (View.view (two_records ∷ [])))
    × (contents appended ≡ contents (two_records ∷ []) ++ View.joined (encoded (record_at 9) ∷ []))
    × (l'.segments ≡ drop removed appended)
    × (View.view l'.segments ≡ View.retained small_segments 9 (View.view appended))
    × (0 < length l'.segments)
    × (Log.too_large small_segments l' ≡ false)
    × (l'.closed ≡ false)
    × WellFormed l'
append_batch_example =
    append_batch_lem small_segments at_noon (record_at 0) [] one_log (encoded (record_at 9) ∷ [])
      one_log-WellFormed (omega arith) refl stamped_encodings

-- The files that are left: the one of the new record.
only_new_file :
    View.retained small_segments 9
      (View.add_records 60 at_noon 9 (encoded (record_at 9) ∷ []) (View.view (two_records ∷ [])))
    ≡ record { base = 9; born = 7; bytes = encoded (record_at 9) } ∷ []
unfolding View.retained View.add_records View.view encoded
only_new_file = refl

found_start : lookup_index (record { relative_offset = 0; position = 0 } ∷ []) 1 ≡ some (some 0)
unfolding lookup_index
found_start = refl

read_from_segment_example :
    read_from_segment two_records 8 (pos 1)
    ≡ some (ok (within (pos 1) (map stored (drop (8 - (7 + 0)) (record_at 7 ∷ record_at 8 ∷ [])))))
read_from_segment_example =
    read_from_segment_lem two_records [] (record_at 7 ∷ record_at 8 ∷ []) [] _ (some 0) 8 (pos 1)
      (record_at-Storable 7 (omega arith), (record_at-Storable 8 (omega arith), tt))
      (unfold write_records in refl) written_both refl (sym file_length) file_small found_start refl

truncate_example :
    (l' : Log.SegmentedLog) × (s' : Log.Segment) × (truncate small_segments 3 8 one_log
      ≡ some (l', ok tt))
    × (l'.segments ≡ s' ∷ [])
    × (l'.next_offset ≡ 8)
    × (s'.file ≡ encoded (record_at 7))
    × (s'.size ≡ length (encoded (record_at 7)))
    × (s'.base_offset ≡ 7)
    × (s'.next_offset ≡ 8)
truncate_example =
    truncate_lem small_segments 3 two_records [] (record_at 7 ∷ []) (record_at 8 ∷ [])
      (encoded (record_at 7)) (encoded (record_at 8)) 8 (record_at-Storable 7 (omega arith), tt)
      (record_at-Storable 8 (omega arith), tt) written_seven written_eight refl (sym file_length)
      file_small refl (omega arith) (omega arith) (omega arith) [] one_log refl refl tt

truncate-append_example :
    ((Log.write_record small_segments 8
        (encoded (record_at 8))
        (cut_segment small_segments 8 (length (encoded (record_at 7))) two_records)).file
      ≡ encoded (record_at 7)
        ++ (replicate (length (encoded (record_at 8))) 0 ++ encoded (record_at 8)))
    × (scan_segment 7
          (Log.write_record small_segments 8
            (encoded (record_at 8))
            (cut_segment small_segments 8 (length (encoded (record_at 7))) two_records)).file
        ≡ some (8, length (encoded (record_at 7))))
truncate-append_example =
    truncate-append_lost small_segments 3 two_records [] (record_at 7 ∷ []) (record_at 8 ∷ [])
      (encoded (record_at 7)) (encoded (record_at 8)) 8 (record_at-Storable 7 (omega arith), tt)
      (record_at-Storable 8 (omega arith), tt) written_seven written_eight refl (sym file_length)
      file_small refl (omega arith) (omega arith) (omega arith) (encoded (record_at 8))
      (sym file_length)
