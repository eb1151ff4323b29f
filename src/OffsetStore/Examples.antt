-- ===== src/OffsetStore/Examples.antt =====
-- Runs of internal/broker/offset_store.go on small inputs, and its theorems at concrete inputs.
use wave_mq.Prelude.{
  All, ◌≤◌, ℕ, ◌^◌, ◌<◌, ◌≡◌, refl, some, none, [], ◌∷◌, ◌++◌, length, take, drop, ok, err, Result,
  arith, if◌then◌else◌,
}
use wave_mq.Wire.{
  IsByte, Bytes, Error, pos, crc32c, le_bytes, put_le, put_le_int, ◌▹◌, string_eq, int_eq,
}
use wave_mq.Frames.{seal_after}
use wave_mq.OffsetStore.{
  Commit, Offsets, OffsetStore, no_offsets, is_key, recover, append_bytes, compact, encode_commits,
  encode_offset_record, append_commit, replay_from,
}
use wave_mq.OffsetStore.Recovery.{recover-torn, recover-latest, commit_all}
use wave_mq.OffsetStore.Repair.{recover_repair}
use wave_mq.OffsetStore.Compaction.{Enumerates, has_key, recover-compact}

abbrev commit_of : ℕ → Commit
commit_of n = record { group = 103 ∷ []; topic = 116 ∷ 49 ∷ []; partition = pos 0; offset = pos n }

abbrev bytes_of : Result Error Bytes → Bytes
bytes_of (ok bs) = bs
bytes_of (err e) = []

encoded : Commit → Bytes
unfolding encode_offset_record seal_after ◌▹◌ put_le put_le_int crc32c le_bytes
encoded c = bytes_of (encode_offset_record c)

abbrev file : Bytes
file = encoded (commit_of 5)

abbrev front : Bytes
front = take 9 (encoded (commit_of 6))

abbrev back : Bytes
back = drop 10 (encoded (commit_of 6))

file_written : encode_commits (commit_of 5 ∷ []) ≡ ok file
unfolding encode_commits encoded
file_written = refl

next_cut : encode_offset_record (commit_of 6) ≡ ok (front ++ (0 ∷ back))
unfolding encoded
next_cut = refl

file_small : length file < 2 ^ 31
unfolding encoded
file_small = omega arith

next_small : length (front ++ (0 ∷ back)) < 2 ^ 32
unfolding encoded
next_small = omega arith

recover-torn_example :
    recover (record { file = file ++ front })
    ≡ some (replay_from no_offsets (commit_of 5 ∷ []), record { file = file })
recover-torn_example =
    recover-torn (commit_of 5 ∷ []) (commit_of 6) file front 0 back (omega arith, tt) file_written
      next_cut file_small next_small

abbrev two_commits : OffsetStore
two_commits = record { file = encoded (commit_of 5) ++ encoded (commit_of 6) }

both_written :
    commit_all (record { file = [] }) ((commit_of 5 ∷ []) ++ (commit_of 6 ∷ [])) ≡ ok two_commits
unfolding commit_all append_commit encoded
both_written = refl

both_small : length two_commits.file < 2 ^ 31
unfolding encoded
both_small = omega arith

recover-latest_example :
    (m : Offsets) × (recover two_commits ≡ some (m, two_commits))
    × (m (103 ∷ []) (116 ∷ 49 ∷ []) (pos 0) ≡ (
        if is_key (commit_of 6) (103 ∷ []) (116 ∷ 49 ∷ []) (pos 0)
        then some (pos 6)
        else replay_from no_offsets (commit_of 5 ∷ []) (103 ∷ []) (116 ∷ 49 ∷ []) (pos 0)))
recover-latest_example =
    recover-latest (commit_of 5 ∷ []) (commit_of 6) two_commits (103 ∷ []) (116 ∷ 49 ∷ []) (pos 0)
      (omega arith, (omega arith, tt)) both_written both_small

abbrev only_five : Offsets
only_five g t p = if is_key (commit_of 5) g t p then some (pos 5) else none

only_five-Enumerates : Enumerates only_five (commit_of 5 ∷ [])
unfolding string_eq int_eq
only_five-Enumerates = record {
  sound = (refl, tt);
  complete = λ g t p h. unfold has_key in ground arith;
}

compacted : compact two_commits (commit_of 5 ∷ []) ≡ ok (record { file = file })
unfolding compact append_bytes encode_commits encoded
compacted = refl

recover-compact_example :
    (m : Offsets) × (recover (record { file = file }) ≡ some (m, record { file = file }))
    × (m (103 ∷ []) (116 ∷ 49 ∷ []) (pos 0) ≡ only_five (103 ∷ []) (116 ∷ 49 ∷ []) (pos 0))
recover-compact_example =
    recover-compact only_five (commit_of 5 ∷ []) two_commits (record { file = file }) (103 ∷ [])
      (116 ∷ 49 ∷ []) (pos 0) only_five-Enumerates (omega arith, tt) compacted file_small

damaged_bytes : All IsByte (file ++ front)
unfolding encoded
damaged_bytes = omega arith

damaged_small : length (file ++ front) < 2 ^ 32
unfolding encoded
damaged_small = omega arith

recover_repair_example :
    (m : Offsets) × (s' : OffsetStore) × (recover (record { file = file ++ front }) ≡ some (m, s'))
    × (length s'.file ≤ length (file ++ front))
    × (recover s' ≡ some (m, s'))
recover_repair_example =
    recover_repair (record { file = file ++ front }) damaged_small damaged_bytes
