-- ===== src/Storage/Log/Truncate/Lost.antt =====
-- What `Truncate` makes of a log whose segment it cuts, and what becomes of a record appended to it.
use wave_mq.Prelude.{
  ℕ, zero, suc, ◌+◌, ◌-◌, ◌^◌, ◌≤◌, ◌<◌, ◌≡◌, refl, sym, ap, subst, ◌∙◌, true, false, All, none,
  some, List, [], ◌∷◌, ◌++◌, append-nil, length, length-append, take, take-length, take_all,
  take-append_length, drop, drop_all, replicate, ok, leb, arith,
}
use wave_mq.Wire.{Bytes, le_value, ▹-eq-ok}
use wave_mq.Api.{Record}
use wave_mq.Frames.{next_frame}
use wave_mq.Frames.Seal.{length-frame, checked_body, length-checked_body, seal_after-eq-frame}
use wave_mq.Frames.Scan.{Stops, no_frame}
use wave_mq.Storage.Record.{encode_record, write_record_body}
use wave_mq.Storage.Segment.{accept_record, scan_segment, write_records}
use wave_mq.Storage.Segment.Recovery.{StorableFrom, scan_segment-tail}
use wave_mq.Storage.Log.{LogConfig, Segment, SegmentedLog, write_at, write_record}
use wave_mq.Storage.Log.Truncate
use wave_mq.Storage.Log.Truncate.Seek.{seek_run}

-- A segment that lies below an offset.
abbrev pub Below : ℕ → Segment → Type 0
Below offset' s = (s.base_offset < offset') × (s.next_offset ≤ offset')

write_gap :
    (at : ℕ) (b file : Bytes)
    → length file ≤ at
    → write_at at b file ≡ file ++ (replicate (at - length file) 0 ++ b)
unfolding write_at
write_gap at b file h =
    let none_behind : drop (at + length b) file ≡ [] =
      drop_all (at + length b) file (omega arith) in
    rw (take_all at file h, none_behind, append-nil b) refl

zeros_end : (k : ℕ) (b : Bytes) → 4 < k → next_frame (replicate k 0 ++ b) ≡ none
unfolding next_frame le_value
zeros_end zero b h = absurd (omega arith)
zeros_end (suc zero) b h = absurd (omega arith)
zeros_end (suc (suc zero)) b h = absurd (omega arith)
zeros_end (suc (suc (suc zero))) b h = absurd (omega arith)
zeros_end (suc (suc (suc (suc k)))) b h = ground arith

long_enough :
    (rs : List Record) (n : ℕ) (b : Bytes)
    → StorableFrom n rs
    → write_records rs ≡ ok b
    → 0 < length rs
    → 4 < length b
unfolding write_records encode_record
long_enough [] n b h w more = absurd (omega arith)
long_enough (r ∷ rs) n b h w more =
    let (xs, ys, ex, _, e) = ▹-eq-ok _ _ w in
    let (body, _, framed, _) = seal_after-eq-frame (write_record_body r) xs ex in
    omega (
      arith,
      ap length e,
      length-append xs ys,
      ap length framed,
      length-frame (checked_body body),
      length-checked_body body,
    )

module _ (cfg : LogConfig) (now : ℕ) (s : Segment) (behind : List Segment)
    (before after : List Record) (b₁ b₂ : Bytes) (offset' : ℕ)
    (h₁ : StorableFrom s.base_offset before) (h₂ : StorableFrom offset' after)
    (w₁ : write_records before ≡ ok b₁) (w₂ : write_records after ≡ ok b₂)
    (file_eq : s.file ≡ b₁ ++ b₂) (size_eq : s.size ≡ length s.file)
    (small : length s.file < 2 ^ 32) (placed : s.base_offset + length before ≡ offset')
    (some_before : 0 < length before) (some_after : 0 < length after)
    (inside : offset' < s.next_offset) where
  found : Truncate.seek_to_offset s offset' ≡ some (ok (length b₁))
  unfolding Truncate.seek_to_offset
  found =
      let whole : take s.size s.file ≡ b₁ ++ b₂ = rw size_eq (take-length s.file ∙ file_eq) in
      let fits : length (b₁ ++ b₂) < 2 ^ 32 = omega (arith, ap length file_eq) in
      let from_start : 0 + length b₁ ≡ length b₁ = omega arith in
      rw whole (
        seek_run after offset' b₂ h₂ w₂ some_after before s.base_offset (suc (length (b₁ ++ b₂))) 0
          b₁ h₁ w₁ placed fits (omega (arith, length-append b₁ b₂))
        ∙ ap (λ k. some (ok k)) from_start)

  kept :
      (olds : List Segment)
      → All (Below offset') olds
      → Truncate.truncate_segments cfg offset' (olds ++ (s ∷ behind))
        ≡ some (ok (olds ++ (Truncate.cut_segment cfg offset' (length b₁) s ∷ [])))
  unfolding Truncate.truncate_segments
  kept [] h =
      let no₁ : leb offset' s.base_offset ≡ false = ground arith in
      let no₂ : leb s.next_offset offset' ≡ false = ground arith in rw (no₁, no₂, found) refl
  kept (o ∷ os) (ho, h) =
      let no : leb offset' o.base_offset ≡ false = ground (arith, ho.0) in
      let yes : leb o.next_offset offset' ≡ true = ground (arith, ho.1) in
      rw (no, yes, kept os h) refl

  abbrev cut : Segment
  cut = Truncate.cut_segment cfg offset' (length b₁) s

  cut-file : cut.file ≡ b₁
  unfolding Truncate.cut_segment
  cut-file = rw file_eq (take-append_length b₁ b₂)

  cut-cursor : cut.cursor ≡ s.cursor
  unfolding Truncate.cut_segment
  cut-cursor = refl

  kept_log :
      (olds : List Segment) (l : SegmentedLog)
      → (Truncate.keep_segments now offset' (olds ++ (cut ∷ [])) l).segments ≡ olds ++ (cut ∷ [])
  unfolding Truncate.keep_segments
  kept_log [] l = refl
  kept_log (o ∷ os) l = refl

  kept_next :
      (olds : List Segment) (l : SegmentedLog)
      → (Truncate.keep_segments now offset' (olds ++ (cut ∷ [])) l).next_offset ≡ offset'
  unfolding Truncate.keep_segments
  kept_next [] l = refl
  kept_next (o ∷ os) l = refl

  -- Truncate to an offset inside a segment. Where an open log has segments below the offset, then one
  -- below 4 GiB that holds the encodings of storable records at consecutive offsets, some below the
  -- offset and some from it on, then any others, Truncate succeeds: the segments below stay as they
  -- are, the one is cut to the records below the offset, and the others are gone; the next offset of
  -- the log and of its last segment is the offset.
  pub truncate_lem :
      (olds : List Segment) (l : SegmentedLog)
      → l.segments ≡ olds ++ (s ∷ behind)
      → l.closed ≡ false
      → All (Below offset') olds
      → (l' : SegmentedLog) × (s' : Segment) × (Truncate.truncate cfg now offset' l
          ≡ some (l', ok tt))
        × (l'.segments ≡ olds ++ (s' ∷ []))
        × (l'.next_offset ≡ offset')
        × (s'.file ≡ b₁)
        × (s'.size ≡ length b₁)
        × (s'.base_offset ≡ s.base_offset)
        × (s'.next_offset ≡ offset')
  truncate_lem olds l e is_open below = (
    Truncate.keep_segments now offset' (olds ++ (cut ∷ [])) l,
    cut,
    truncated,
    kept_log olds l,
    kept_next olds l,
    cut-file,
    (unfold Truncate.cut_segment in refl),
    (unfold Truncate.cut_segment in refl),
    (unfold Truncate.cut_segment in refl),
  )
    where
      truncated :
          Truncate.truncate cfg now offset' l
          ≡ some (Truncate.keep_segments now offset' (olds ++ (cut ∷ [])) l, ok tt)
      truncated =
          let k : Truncate.truncate_segments cfg offset' l.segments
              ≡ some (ok (olds ++ (cut ∷ []))) =
            ap (Truncate.truncate_segments cfg offset') e ∙ kept olds below in
          unfold Truncate.truncate in rw (k, is_open, Truncate.truncate) refl

  written_behind :
      (b : Bytes)
      → s.cursor ≡ length s.file
      → (write_record cfg offset' b cut).file ≡ b₁ ++ (replicate (length b₂) 0 ++ b)
  unfolding write_record
  written_behind b at_end =
      let cursor_eq : cut.cursor ≡ length b₁ + length b₂ =
        cut-cursor ∙ at_end ∙ (ap length file_eq ∙ length-append b₁ b₂) in
      let gap : length b₁ + length b₂ - length b₁ ≡ length b₂ = omega arith in
      rw (cursor_eq, cut-file)
        (write_gap (length b₁ + length b₂) b b₁ (omega arith)
          ∙ ap (λ k. b₁ ++ (replicate k 0 ++ b)) gap)

  some_bytes : 4 < length b₂
  some_bytes = long_enough after offset' b₂ h₂ w₂ some_after

  gap-Stops : (b : Bytes) → Stops accept_record offset' (replicate (length b₂) 0 ++ b)
  gap-Stops b = no_frame (zeros_end (length b₂) b some_bytes)

  -- What is appended to a segment that was cut is lost. Truncate does not move the cursor of the file:
  -- in the situation above, where the cursor was at the end of the segment, the write of a record to
  -- the cut segment leaves zeros in place of what was cut off, and the scan with which the log is
  -- opened the next time stops there, at the offset of the truncation, whatever bytes were written.
  pub truncate-append_lost :
      (b : Bytes)
      → s.cursor ≡ length s.file
      → ((write_record cfg offset' b cut).file ≡ b₁ ++ (replicate (length b₂) 0 ++ b))
        × (scan_segment s.base_offset (write_record cfg offset' b cut).file
            ≡ some (offset', length b₁))
  truncate-append_lost b at_end = (
    written_behind b at_end,
    rw (written_behind b at_end) (
        scan_segment-tail s.base_offset before b₁ (replicate (length b₂) 0 ++ b) h₁
          (omega (arith, ap length file_eq, length-append b₁ b₂)) w₁
          (subst (λ o. Stops accept_record o (replicate (length b₂) 0 ++ b)) (sym placed)
            (gap-Stops b))
        ∙ ap (λ o. some (o, length b₁)) placed),
  )
