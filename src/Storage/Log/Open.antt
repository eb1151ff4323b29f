-- ===== src/Storage/Log/Open.antt =====
-- internal/storage/log.go: OpenLog's choice of a configuration, bootstrap, openSegment.
use wave_mq.Prelude.{
  ℕ, Bool, true, false, ◌&&◌, Option, none, some, List, [], ◌∷◌, ◌++◌, length, take, ltb, leb, ◌==◌,
  if◌then◌else◌,
}
use wave_mq.Wire.{Bytes, ℤ, pos, negsuc, int_eq}
use wave_mq.Storage.IndexFile.{load_or_rebuild_index}
use wave_mq.Storage.Segment.{scan_segment}
use wave_mq.Storage.Log.{LogConfig, Segment, SegmentedLog, create_segment}

-- `NewManager` fills in the defaults.
unfoldable pub with_defaults : LogConfig → LogConfig
with_defaults cfg = record cfg {
  max_segment_bytes = if cfg.max_segment_bytes == 0 then 67108864 else cfg.max_segment_bytes;
  index_interval = if cfg.index_interval == 0 then 1024 else cfg.index_interval;
  max_log_bytes = if int_eq cfg.max_log_bytes (pos 0) then negsuc 0 else cfg.max_log_bytes;
}

-- The configuration of one log in `OpenLog`.
unfoldable pub log_config : ℤ → ℕ → LogConfig → LogConfig
log_config retention_bytes retention_time cfg = record cfg {
  max_log_bytes = if int_eq retention_bytes (pos 0) then cfg.max_log_bytes else retention_bytes;
  segment_max_age = if retention_time == 0 then cfg.segment_max_age else retention_time;
}

-- A segment file whose name is a base offset, its index file where there is one, and its time.
pub record SegmentFile : Type 0 where
  pub base : ℕ
  pub bytes : Bytes
  pub index : Option Bytes
  pub modified_at : ℕ

-- The opened segment, once its file was scanned.
unfoldable pub scanned_segment : LogConfig → SegmentFile → ℕ → ℕ → Option Segment
unfolding load_or_rebuild_index
scanned_segment cfg f next good =
    elim (load_or_rebuild_index cfg.index_interval f.base (take good f.bytes) f.index) [
      | none ↦ none
      | some es ↦ some (record {
        base_offset = f.base;
        next_offset = next;
        file = take good f.bytes;
        cursor = good;
        size = good;
        created_at = f.modified_at;
        idx = es;
        idx_open = true;
      })
    ]

-- `openSegment` with the repair; `none` for an error.
unfoldable pub open_segment : LogConfig → SegmentFile → Option Segment
unfolding scanned_segment
open_segment cfg f = elim (scan_segment f.base f.bytes) [
  | none ↦ none
  | some (next, good) ↦ scanned_segment cfg f next good
]

-- A segment in the loop of `bootstrap`.
unfoldable pub with_opened : Segment → SegmentedLog → SegmentedLog
with_opened s l = record l {
  segments = l.segments ++ (s ∷ []);
  next_offset = s.next_offset;
  start_offset =
      if length l.segments == 0
      then s.base_offset
      else if ltb s.base_offset l.start_offset
      then s.base_offset
      else l.start_offset;
}

unfoldable pub open_segments : LogConfig → List SegmentFile → SegmentedLog → Option SegmentedLog
unfolding open_segment with_opened
open_segments cfg [] l = some l
open_segments cfg (f ∷ fs) l = elim (open_segment cfg f) [
  | none ↦ none
  | some s ↦ open_segments cfg fs (with_opened s l)
]

abbrev pub empty_log : SegmentedLog
empty_log = record { segments = []; next_offset = 0; start_offset = 0; closed = false }

-- active.size >= MaxSegmentBytes && active.nextOffset > active.baseOffset, for the last segment
unfoldable pub active_full : LogConfig → List Segment → Bool
active_full cfg [] = false
active_full cfg (s ∷ []) = leb cfg.max_segment_bytes s.size && ltb s.base_offset s.next_offset
active_full cfg (s ∷ (t ∷ ts)) = active_full cfg (t ∷ ts)

-- An active segment that can be written to.
unfoldable pub ensure_writable : LogConfig → ℕ → SegmentedLog → SegmentedLog
unfolding create_segment active_full
ensure_writable cfg now l =
    if length l.segments == 0
    then create_segment now cfg.base_offset l
    else if active_full cfg l.segments
    then create_segment now l.next_offset l
    else l

-- `bootstrap`, with the files of the directory whose names can be read, in the order of the names.
unfoldable pub bootstrap : LogConfig → ℕ → List SegmentFile → Option SegmentedLog
unfolding open_segments ensure_writable
bootstrap cfg now fs = elim (open_segments cfg fs empty_log) [
  | none ↦ none
  | some l ↦ some (ensure_writable cfg now l)
]
