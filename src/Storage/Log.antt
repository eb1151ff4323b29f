-- ===== src/Storage/Log.antt =====
-- internal/storage/log.go: the segmented log of a partition as a state, with append and retention.
pub mod Retention
pub mod WellFormed
pub mod View
pub mod Append
pub mod Batch
pub mod Read
pub mod Truncate
pub mod Open
mod Examples
use wave_mq.Prelude.{
  ℕ, zero, suc, ◌+◌, ◌-◌, ◌%◌, ◌<◌, Bool, true, false, ◌&&◌, not, Option, none, some, List, [], ◌∷◌,
  ◌++◌, length, take, drop, replicate, ltb, leb, ◌==◌, if◌then◌else◌, Result, ok, err,
}
use wave_mq.Wire.{Bytes, Error, ℤ, pos, negsuc, int_eq}
use wave_mq.Api.{Record}
use wave_mq.Storage.Record.{encode_record}
use wave_mq.Storage.Index.{IndexEntry}

-- Config, its defaults filled in. A `segment_max_age` of 0 and a `max_log_bytes` that is not positive
-- switch the retention off.
pub record LogConfig : Type 0 where
  pub max_segment_bytes : ℕ
  pub index_interval : ℕ
  pub segment_max_age : ℕ
  pub max_log_bytes : ℤ
  pub base_offset : ℕ

-- `cursor` is where the next write to the open file goes, `idx_open` whether the index file is open.
-- Times count nanoseconds.
pub record Segment : Type 0 where
  pub base_offset : ℕ
  pub next_offset : ℕ
  pub file : Bytes
  pub cursor : ℕ
  pub size : ℕ
  pub created_at : ℕ
  pub idx : List IndexEntry
  pub idx_open : Bool

pub record SegmentedLog : Type 0 where
  pub segments : List Segment
  pub next_offset : ℕ
  pub start_offset : ℕ
  pub closed : Bool

-- What time.Now returns: for the record at an offset that has no time, for the segment that begins at
-- an offset, and when the retention begins.
pub record Clock : Type 0 where
  pub stamp_at : ℕ → ℤ
  pub created_at : ℕ → ℕ
  pub retention_at : ℕ

-- Writing at a position; a gap behind the end is filled with zeros.
unfoldable pub write_at : ℕ → Bytes → Bytes → Bytes
write_at at b file =
    take at file ++ (replicate (at - length file) 0 ++ (b ++ drop (at + length b) file))

-- The new segment of `createSegment`, where the path holds no older file.
abbrev pub new_segment : ℕ → ℕ → Segment
new_segment now base = record {
  base_offset = base;
  next_offset = base;
  file = [];
  cursor = 0;
  size = 0;
  created_at = now;
  idx = [];
  idx_open = true;
}

unfoldable pub create_segment : ℕ → ℕ → SegmentedLog → SegmentedLog
create_segment now base l = record l {
  segments = l.segments ++ (new_segment now base ∷ []);
  start_offset =
      if length l.segments == 0
      then base
      else if ltb base l.start_offset
      then base
      else l.start_offset;
  next_offset = base;
}

unfoldable pub ensure_active_segment : LogConfig → ℕ → SegmentedLog → SegmentedLog
unfolding create_segment
ensure_active_segment cfg now l = elim (l.segments) [
  | [] ↦ create_segment now cfg.base_offset l
  | _ ∷ _ ↦ l
]

-- The last segment is the active one.
unfoldable pub update_active : (Segment → Segment) → List Segment → List Segment
update_active f [] = []
update_active f (s ∷ []) = f s ∷ []
update_active f (s ∷ (t ∷ ts)) = s ∷ update_active f (t ∷ ts)

unfoldable pub active_size : List Segment → ℕ
active_size [] = 0
active_size (s ∷ []) = s.size
active_size (s ∷ (t ∷ ts)) = active_size (t ∷ ts)

-- Go's zero time, 1 January of the year 1, in nanoseconds from 1970.
abbrev pub zero_time : ℤ
zero_time = negsuc 62135596799999999999

unfoldable pub stamped : Clock → ℕ → Record → Record
stamped clock offset' r =
    if int_eq r.timestamp zero_time
    then record r { offset = pos offset'; timestamp = clock.stamp_at offset' }
    else record r { offset = pos offset' }

-- The write of an encoded record to the active segment, with its index entry where one is due. Both
-- files take their writes.
unfoldable pub write_record : LogConfig → ℕ → Bytes → Segment → Segment
unfolding write_at
write_record cfg offset' b s = record s {
  file = write_at s.cursor b s.file;
  cursor = s.cursor + length b;
  idx =
      if ((s.next_offset - s.base_offset) % cfg.index_interval == 0) && s.idx_open
      then s.idx ++ (record { relative_offset = offset' - s.base_offset; position = s.size } ∷ [])
      else s.idx;
  size = s.size + length b;
}

-- Whether the active segment is left before a record of this length.
abbrev pub rotates : LogConfig → ℕ → ℕ → Bool
rotates cfg size' len = ltb cfg.max_segment_bytes (size' + len) && ltb 0 size'

unfoldable pub rotate : LogConfig → Clock → ℕ → SegmentedLog → SegmentedLog
unfolding create_segment active_size
rotate cfg clock len l =
    if rotates cfg (active_size l.segments) len
    then create_segment (clock.created_at l.next_offset) l.next_offset l
    else l

unfoldable pub write_active : LogConfig → ℕ → Bytes → SegmentedLog → SegmentedLog
unfolding write_record update_active
write_active cfg offset' b l = record l {
  segments = update_active (write_record cfg offset' b) l.segments;
  next_offset = l.next_offset + 1;
}

-- One record in the loop of `AppendBatch`, once it is encoded.
unfoldable pub append_encoded : LogConfig → Clock → Bytes → SegmentedLog → SegmentedLog
unfolding rotate write_active
append_encoded cfg clock b l = write_active cfg l.next_offset b (rotate cfg clock (length b) l)

-- The loop of `AppendBatch`: the log as far as it came, and the error that ended it.
unfoldable pub append_loop :
    LogConfig → Clock → List Record → SegmentedLog → SegmentedLog × Option Error
unfolding append_encoded stamped
append_loop cfg clock [] l = (l, none)
append_loop cfg clock (r ∷ rs) l = elim (encode_record (stamped clock l.next_offset r)) [
  | err e ↦ (l, some e)
  | ok b ↦ append_loop cfg clock rs (append_encoded cfg clock b l)
]

-- removeOldestSegmentLocked
unfoldable pub remove_oldest_segment : SegmentedLog → SegmentedLog
remove_oldest_segment l = elim (l.segments) [
  | [] ↦ l
  | _ ∷ [] ↦ record l { segments = []; start_offset = l.next_offset }
  | _ ∷ (s ∷ ss) ↦ record l { segments = s ∷ ss; start_offset = s.base_offset }
]

-- totalSizeLocked
unfoldable pub total_size : List Segment → ℕ
total_size [] = 0
total_size (s ∷ ss) = s.size + total_size ss

-- now.Sub(oldest.createdAt) > SegmentMaxAge
unfoldable pub oldest_expired : LogConfig → ℕ → List Segment → Bool
oldest_expired cfg now [] = false
oldest_expired cfg now (s ∷ ss) = ltb (s.created_at + cfg.segment_max_age) now

-- The conditions under which the two loops of `enforceRetentionLocked` go on.
unfoldable pub too_old : LogConfig → ℕ → SegmentedLog → Bool
unfolding oldest_expired
too_old cfg now l =
    ltb 1 (length l.segments) && (ltb 0 cfg.segment_max_age && oldest_expired cfg now l.segments)

unfoldable pub exceeds : ℕ → ℤ → Bool
exceeds total (negsuc n) = false
exceeds total (pos most) = ltb 0 most && ltb most total

unfoldable pub too_large : LogConfig → SegmentedLog → Bool
unfolding exceeds total_size
too_large cfg l = ltb 1 (length l.segments) && exceeds (total_size l.segments) cfg.max_log_bytes

-- A loop that removes the oldest segment while the condition holds, on fuel.
unfoldable pub remove_while : (SegmentedLog → Bool) → ℕ → SegmentedLog → SegmentedLog
unfolding remove_oldest_segment
remove_while test zero l = l
remove_while test (suc fuel) l =
    let rest = remove_while test fuel (remove_oldest_segment l) in if test l then rest else l

-- enforceRetentionLocked; a loop makes fewer rounds than there are segments.
unfoldable pub enforce_retention : LogConfig → ℕ → SegmentedLog → SegmentedLog
unfolding remove_while too_old too_large
enforce_retention cfg now l =
    let l' = remove_while (too_old cfg now) (length l.segments) l in
    remove_while (too_large cfg) (length l'.segments) l'

-- The last segment gets its own next offset only behind the loop.
unfoldable pub set_active_next : SegmentedLog → SegmentedLog
unfolding update_active
set_active_next l = record l {
  segments = update_active (λ s. record s { next_offset = l.next_offset }) l.segments;
}

unfoldable pub finish_append : LogConfig → Clock → SegmentedLog → SegmentedLog
unfolding set_active_next enforce_retention
finish_append cfg clock l = enforce_retention cfg clock.retention_at (set_active_next l)

pub data LogError : Type 0 where
  log_closed : LogError
  codec_error : Error → LogError

-- The end of `AppendBatch`, unless the loop failed.
unfoldable pub finish_batch :
    LogConfig → Clock → ℕ → SegmentedLog × Option Error → SegmentedLog × Result LogError ℕ
unfolding finish_append
finish_batch cfg clock first (l, none) = (finish_append cfg clock l, ok first)
finish_batch cfg clock first (l, some e) = (l, err (codec_error e))

-- `AppendBatch` with a context that is not cancelled: the log, and the offset of the first record.
unfoldable pub append_batch :
    LogConfig → Clock → List Record → SegmentedLog → SegmentedLog × Result LogError ℕ
unfolding finish_batch append_loop ensure_active_segment
append_batch cfg clock rs l =
    if l.closed
    then (l, err log_closed)
    else if length rs == 0
    then (l, ok l.next_offset)
    else (let l' = ensure_active_segment cfg (clock.created_at cfg.base_offset) l in
        finish_batch cfg clock l'.next_offset (append_loop cfg clock rs l'))

-- `Append`
unfoldable pub append : LogConfig → Clock → Record → SegmentedLog → SegmentedLog × Result LogError ℕ
unfolding append_batch
append cfg clock r l = append_batch cfg clock (r ∷ []) l

-- `HighWatermark`
unfoldable pub high_watermark : SegmentedLog → ℤ
high_watermark l = if l.next_offset == 0 then negsuc 0 else pos (l.next_offset - 1)
