-- ===== src/Storage/Log/View.antt =====
-- The log of internal/storage/log.go as the list of its files, and what AppendBatch is to make of it.
pub mod Writes
pub mod Keeps
use wave_mq.Prelude.{
  ℕ, ◌+◌, Bool, true, false, ◌&&◌, List, [], ◌∷◌, ◌++◌, length, ltb, if◌then◌else◌, Result, ok, err,
}
use wave_mq.Wire.{Bytes, Error, ℤ, pos, negsuc}
use wave_mq.Api.{Record}
use wave_mq.Storage.Record.{encode_record}
use wave_mq.Storage.Log.{LogConfig, Clock, Segment}

-- A file of the log: the offset in its name, the time it was created at, and its bytes.
pub record LogFile : Type 0 where
  pub base : ℕ
  pub born : ℕ
  pub bytes : Bytes

unfoldable pub view : List Segment → List LogFile
view [] = []
view (s ∷ ss) = record { base = s.base_offset; born = s.created_at; bytes = s.file } ∷ view ss

abbrev pub fresh : Clock → ℕ → Bytes → LogFile
fresh clock next b = record { base = next; born = clock.created_at next; bytes = b }

-- A record goes to the end of the last file, unless that has bytes and would exceed the limit: then it
-- begins a file, which bears its offset.
unfoldable pub add_record : ℕ → Clock → ℕ → Bytes → List LogFile → List LogFile
add_record most clock next b [] = fresh clock next b ∷ []
add_record most clock next b (f ∷ []) =
    if ltb most (length f.bytes + length b) && ltb 0 (length f.bytes)
    then f ∷ fresh clock next b ∷ []
    else record f { bytes = f.bytes ++ b } ∷ []
add_record most clock next b (f ∷ (g ∷ gs)) = f ∷ add_record most clock next b (g ∷ gs)

unfoldable pub add_records : ℕ → Clock → ℕ → List Bytes → List LogFile → List LogFile
unfolding add_record
add_records most clock next [] files = files
add_records most clock next (b ∷ bs) files =
    add_records most clock (next + 1) bs (add_record most clock next b files)

-- The first files are dropped as long as the test holds of those that are left; one file always stays.
unfoldable pub shrink : (List LogFile → Bool) → List LogFile → List LogFile
shrink test [] = []
shrink test (f ∷ []) = f ∷ []
shrink test (f ∷ (g ∷ gs)) =
    let rest = shrink test (g ∷ gs) in if test (f ∷ (g ∷ gs)) then rest else f ∷ (g ∷ gs)

abbrev pub expired : ℕ → ℕ → List LogFile → Bool
expired age now [] = false
expired age now (f ∷ fs) = ltb 0 age && ltb (f.born + age) now

abbrev pub total_bytes : List LogFile → ℕ
total_bytes [] = 0
total_bytes (f ∷ fs) = length f.bytes + total_bytes fs

abbrev pub oversized : ℤ → List LogFile → Bool
oversized (negsuc n) files = false
oversized (pos most) files = ltb 0 most && ltb most (total_bytes files)

-- What the retention leaves: first the age counts, then the size of all.
unfoldable pub retained : LogConfig → ℕ → List LogFile → List LogFile
unfolding shrink
retained cfg now files =
    shrink (oversized cfg.max_log_bytes) (shrink (expired cfg.segment_max_age now) files)

-- The encodings of records, one by one.
unfoldable pub encodings : List Record → Result Error (List Bytes)
encodings [] = ok []
encodings (r ∷ rs) = elim (encode_record r) [
  | err e ↦ err e
  | ok b ↦ elim (encodings rs) [ err e ↦ err e | ok bs ↦ ok (b ∷ bs) ]
]

abbrev pub joined : List Bytes → Bytes
joined [] = []
joined (b ∷ bs) = b ++ joined bs
