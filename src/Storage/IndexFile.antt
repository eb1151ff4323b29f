-- ===== src/Storage/IndexFile.antt =====
-- internal/storage/log.go: the index files, rebuildIndex and loadIndex.
use wave_mq.Prelude.{
  ℕ, zero, suc, ◌+◌, ◌%◌, ◌^◌, Bool, ◌||◌, Option, none, some, List, [], ◌∷◌, ◌++◌, length, take,
  drop, ltb, leb, ◌==◌, if◌then◌else◌, ok, err,
}
use wave_mq.Wire.{Bytes, le_value, le_bytes, i64_half}
use wave_mq.Frames.{next_frame}
use wave_mq.Storage.Index.{IndexEntry}
use wave_mq.Storage.Segment.{validate_record}

-- The loop of `rebuildIndex` on fuel, over the unread part of the log file. A read that fails, a
-- length of 0 and an invalid record end it; `none` means that the fuel ran out.
unfoldable pub index_from : ℕ → ℕ → ℕ → ℕ → ℕ → Bytes → Option (List IndexEntry)
index_from interval zero base count at r = none
index_from interval (suc fuel) base count at r = elim (next_frame r) [
  | none ↦ some []
  | some (record', rest) ↦ elim (validate_record record' (base + count)) [
    | err _ ↦ some []
    | ok _ ↦
        elim (index_from interval fuel base (count + 1) (at + (4 + length record') % 2 ^ 32) rest) [
          | none ↦ none
          | some entries ↦ some (
              if count % interval == 0
              then record { relative_offset = count; position = at } ∷ entries
              else entries)
        ]
  ]
]

-- The interval that `rebuildIndex` uses.
abbrev pub interval_or_default : ℕ → ℕ
interval_or_default zero = 1024
interval_or_default (suc n) = suc n

unfoldable pub rebuilt_entries : ℕ → ℕ → Bytes → Option (List IndexEntry)
unfolding index_from
rebuilt_entries interval base file =
    index_from (interval_or_default interval) (suc (length file)) base 0 0 file

unfoldable pub entry_bytes : List IndexEntry → Bytes
entry_bytes [] = []
entry_bytes (e ∷ es) = le_bytes 8 e.relative_offset ++ (le_bytes 8 e.position ++ entry_bytes es)

-- The file that `rebuildIndex` writes.
unfoldable pub index_file : ℕ → List IndexEntry → Bytes
unfolding entry_bytes
index_file base es = le_bytes 8 base ++ entry_bytes es

-- The entry at the front, which must not stand below the last one. A value from 2^63 is negative.
abbrev pub bad_entry : Option IndexEntry → ℕ → ℕ → Bool
bad_entry none rel at = leb i64_half rel || leb i64_half at
bad_entry (some last) rel at =
    leb i64_half rel || (leb i64_half at || (ltb rel last.relative_offset || ltb at last.position))

-- The loop of `loadIndex` on fuel: `none` for any of its errors.
unfoldable pub load_entries : ℕ → Option IndexEntry → Bytes → Option (List IndexEntry)
load_entries zero last r = none
load_entries (suc fuel) last r =
    let rel = le_value (take 8 r) in
    let at = le_value (take 8 (drop 8 r)) in
    let rest =
      load_entries fuel (some (record { relative_offset = rel; position = at })) (drop 16 r) in
    if length r == 0
    then some []
    else if ltb (length r) 16
    then none
    else if bad_entry last rel at
    then none
    else elim rest [
      | none ↦ none
      | some es ↦ some (record { relative_offset = rel; position = at } ∷ es)
    ]

-- `loadIndex` of a file that can be opened
unfoldable pub load_index : ℕ → Bytes → Option (List IndexEntry)
unfolding load_entries
load_index base file =
    if ltb (length file) 8
    then none
    else if le_value (take 8 file) == base
    then load_entries (suc (length file)) none (drop 8 file)
    else none

-- The index of a segment whose index file was rebuilt; what the loop leaves is read again.
unfoldable pub rebuilt_index : ℕ → ℕ → Bytes → Option (List IndexEntry)
unfolding rebuilt_entries load_index index_file
rebuilt_index interval base file = elim (rebuilt_entries interval base file) [
  | none ↦ none
  | some es ↦ load_index base (index_file base es)
]

-- `loadOrRebuildIndex`; `none` for the file means that there is none.
unfoldable pub load_or_rebuild_index : ℕ → ℕ → Bytes → Option Bytes → Option (List IndexEntry)
unfolding rebuilt_index load_index
load_or_rebuild_index interval base file none = rebuilt_index interval base file
load_or_rebuild_index interval base file (some idx) = elim (load_index base idx) [
  | some es ↦ some es
  | none ↦ rebuilt_index interval base file
]
