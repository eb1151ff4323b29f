-- ===== src/OffsetStore.antt =====
-- internal/broker/offset_store.go: the log of the offsets that consumer groups committed.
pub mod RoundTrip
pub mod Recovery
pub mod Compaction
pub mod Repair
mod Examples
use mathlib.Core.List.{foldl}
use wave_mq.Prelude.{
  ℕ, ◌^◌, Bool, true, false, ◌||◌, ◌&&◌, not, Option, none, some, List, [], ◌∷◌, ◌++◌, length, take,
  drop, ltb, leb, ◌==◌, if◌then◌else◌, Result, ok, err,
}
use wave_mq.Wire.{
  Bytes, Error, out_of_range, string_too_long, record_too_small, crc_mismatch, Reader, Writer, pure,
  ◌>>=◌, read_full, check, ◌▹◌, ℤ, pos, negsuc, i32_half, i64_half, put_le, read_le, put_le_int,
  read_le_int, crc32c, le_value, string_eq, int_eq,
}
use wave_mq.Frames.{placeholders, seal_after, scan}

-- What `AppendCommit` is given.
pub record Commit : Type 0 where
  pub group : Bytes
  pub topic : Bytes
  pub partition : ℤ
  pub offset : ℤ

-- toInt32
unfoldable pub out_of_int32 : ℤ → Bool
out_of_int32 (pos n) = leb i32_half n
out_of_int32 (negsuc n) = leb i32_half n

unfoldable pub write_commit_body : Commit → Writer
unfolding out_of_int32
write_commit_body c =
    check (ltb 65535 (length c.group) || ltb 65535 (length c.topic)) string_too_long
    ▹ (put_le 2 (length c.group)
        ▹ (ok c.group
            ▹ (put_le 2 (length c.topic)
                ▹ (ok c.topic
                    ▹ (check (out_of_int32 c.partition) out_of_range
                        ▹ (put_le_int 4 i32_half c.partition ▹ put_le_int 8 i64_half c.offset))))))

unfoldable pub encode_offset_record : Commit → Writer
unfolding write_commit_body
encode_offset_record c = seal_after (ok placeholders ▹ write_commit_body c)

unfoldable pub read_commit : Reader Commit
read_commit = do
  gl ← read_le 2
  group' ← read_full gl
  tl ← read_le 2
  topic' ← read_full tl
  partition' ← read_le_int 4 i32_half
  offset' ← read_le_int 8 i64_half
  pure (record { group = group'; topic = topic'; partition = partition'; offset = offset' })

-- The checksum is skipped, and bytes behind the offset are not looked at.
unfoldable pub decode_offset_record : Bytes → Option Commit
unfolding read_commit
decode_offset_record record' = elim (read_commit (drop 4 record')) [
  | ok (c, _) ↦ some c
  | err _ ↦ none
]

unfoldable pub offset_record_is_valid : Bytes → Bool
offset_record_is_valid record' =
    if ltb (length record') 20 then false else le_value (take 4 record') == crc32c (drop 4 record')

-- map[group]map[topic]map[partition]offset
abbrev pub Offsets : Type 0
Offsets = Bytes → Bytes → ℤ → Option ℤ

abbrev pub no_offsets : Offsets
no_offsets g t p = none

abbrev pub is_key : Commit → Bytes → Bytes → ℤ → Bool
is_key c g t p = string_eq c.group g && (string_eq c.topic t && int_eq c.partition p)

-- offsets[group][topic][partition] = off
unfoldable pub set_offset : Offsets → Commit → Offsets
set_offset m c g t p = if is_key c g t p then some c.offset else m g t p

unfoldable pub store_commit : Offsets → Option Commit → Option Offsets
store_commit m none = none
store_commit m (some c) = some (set_offset m c)

-- One round of `Recover`: a record that is too long, invalid or cannot be decoded ends it.
unfoldable pub recover_record : Offsets → Bytes → Option Offsets
recover_record m record' =
    if leb i32_half (length record')
    then none
    else if offset_record_is_valid record'
    then store_commit m (decode_offset_record record')
    else none

-- The open file, whose cursor stands at its end.
pub record OffsetStore : Type 0 where
  pub file : Bytes

-- `Recover` while its context is not cancelled: the offsets, and the file cut to its valid part.
unfoldable pub recover : OffsetStore → Option (Offsets × OffsetStore)
unfolding recover_record offset_record_is_valid decode_offset_record store_commit
recover s = elim (scan recover_record no_offsets s.file) [
  | none ↦ none
  | some (m, valid) ↦ some (m, record { file = take valid s.file })
]

unfoldable pub append_bytes : OffsetStore → Writer → Result Error OffsetStore
append_bytes s (ok rec) = ok (record { file = s.file ++ rec })
append_bytes s (err e) = err e

-- `AppendCommit` with a context that is not cancelled, on a file that takes the write.
unfoldable pub append_commit : OffsetStore → Commit → Result Error OffsetStore
unfolding append_bytes
append_commit s c = append_bytes s (encode_offset_record c)

-- The temporary file of `Compact`, for the commits of a map in the order in which it is walked.
unfoldable pub encode_commits : List Commit → Writer
unfolding encode_offset_record
encode_commits [] = ok []
encode_commits (c ∷ cs) = encode_offset_record c ▹ encode_commits cs

-- `Compact`: the temporary file takes the place of the log, unless an encoding fails.
unfoldable pub compact : OffsetStore → List Commit → Result Error OffsetStore
unfolding encode_commits append_bytes
compact s cs = append_bytes (record { file = [] }) (encode_commits cs)

-- What the log means: the commits in turn.
unfoldable pub replay_from : Offsets → List Commit → Offsets
unfolding set_offset
replay_from = foldl set_offset
