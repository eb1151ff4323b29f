-- ===== src/Storage/Log/Truncate.antt =====
-- internal/storage/log.go: Truncate, seekToOffset, with a context that is not cancelled.
pub mod Seek
pub mod Lost
use wave_mq.Prelude.{
  ℕ, zero, suc, ◌+◌, ◌-◌, ◌%◌, ◌^◌, Bool, true, false, not, Option, none, some, List, [], ◌∷◌, ◌++◌,
  length, take, drop, ltb, leb, ◌==◌, if◌then◌else◌, Result, ok, err,
}
use wave_mq.Wire.{Bytes, Error, eof, le_value, ℤ, pos, int_ltb}
use wave_mq.Api.{Record}
use wave_mq.Storage.Record.{decode_record}
use wave_mq.Storage.Index.{IndexEntry}
use wave_mq.Storage.IndexFile.{rebuilt_index}
use wave_mq.Storage.Log.{LogConfig, Segment, SegmentedLog, LogError, create_segment}
use wave_mq.Storage.Log

-- A record on the way: the search ends at one that is not below the target.
abbrev pub at_record :
    ℕ → ℕ → Option (Result Error ℕ) → Result Error Record → Option (Result Error ℕ)
at_record at target rest (err e) = some (err e)
at_record at target rest (ok rec) = if int_ltb rec.offset (pos target) then rest else some (ok at)

-- The loop of `seekToOffset` on fuel, over the unread part of the section; `none` means that the fuel
-- ran out. A length of which only some bytes are there is read with zeros for the others.
unfoldable pub seek_from : ℕ → ℕ → ℕ → Bytes → Option (Result Error ℕ)
seek_from zero at target r = none
seek_from (suc fuel) at target r =
    let size' = le_value (take 4 r) in
    let data' = take size' (drop 4 r) in
    let rest = seek_from fuel (at + (4 + size') % 2 ^ 32) target (drop size' (drop 4 r)) in
    if length r == 0
    then some (ok at)
    else if size' == 0
    then some (ok at)
    else if ltb (length (drop 4 r)) size'
    then some (err eof)
    else at_record at target rest (decode_record data')

-- `seekToOffset`
unfoldable pub seek_to_offset : Segment → ℕ → Option (Result Error ℕ)
unfolding seek_from
seek_to_offset s target =
    let section = take s.size s.file in seek_from (suc (length section)) 0 target section

-- What `loadIndex` returns together with the error that `Truncate` ignores.
abbrev index_or_nothing : Option (List IndexEntry) → List IndexEntry
index_or_nothing none = []
index_or_nothing (some es) = es

abbrev is_opened : Option (List IndexEntry) → Bool
is_opened none = false
is_opened (some es) = true

-- The segment that is cut at a position. The cursor of its file stays where it was.
unfoldable pub cut_segment : LogConfig → ℕ → ℕ → Segment → Segment
cut_segment cfg offset' at s =
    let idx' = rebuilt_index cfg.index_interval s.base_offset (take at s.file) in
    record s {
      file = take at s.file;
      size = at;
      next_offset = offset';
      idx = index_or_nothing idx';
      idx_open = is_opened idx';
    }

-- The loop over the segments: those that are kept. The files of those that are not kept stay in the
-- directory, the empty ones at or above the offset and, behind a cut, the others as they are.
unfoldable pub truncate_segments :
    LogConfig → ℕ → List Segment → Option (Result Error (List Segment))
unfolding seek_to_offset cut_segment
truncate_segments cfg offset' [] = some (ok [])
truncate_segments cfg offset' (s ∷ ss) =
    let rest = truncate_segments cfg offset' ss in
    if leb offset' s.base_offset
    then rest
    else if leb s.next_offset offset'
    then elim rest [
      | none ↦ none
      | some (err e) ↦ some (err e)
      | some (ok kept) ↦ some (ok (s ∷ kept))
    ]
    else elim (seek_to_offset s offset') [
      | none ↦ none
      | some (err e) ↦ some (err e)
      | some (ok at) ↦ some (ok (cut_segment cfg offset' at s ∷ []))
    ]

-- The end of `Truncate`.
unfoldable pub keep_segments : ℕ → ℕ → List Segment → SegmentedLog → SegmentedLog
unfolding create_segment
keep_segments now offset' [] l =
    record (create_segment now offset' (record l { segments = []; next_offset = offset' })) {
      start_offset = offset';
    }
keep_segments now offset' (s ∷ ss) l = record l {
  segments = s ∷ ss;
  next_offset = offset';
  start_offset = s.base_offset;
}

-- `Truncate`. Where it fails it leaves the log as it is, at least where the segments are in order.
unfoldable pub truncate :
    LogConfig → ℕ → ℕ → SegmentedLog → Option (SegmentedLog × Result LogError (Unit {0}))
unfolding truncate_segments keep_segments
truncate cfg now offset' l =
    if l.closed
    then some (l, err Log.log_closed)
    else elim (truncate_segments cfg offset' l.segments) [
      | none ↦ none
      | some (err e) ↦ some (l, err (Log.codec_error e))
      | some (ok kept) ↦ some (keep_segments now offset' kept l, ok tt)
    ]
