-- ===== src/Storage/Log/WellFormed.antt =====
-- When a log is in order, and that the steps of `AppendBatch` keep it.
use wave_mq.Prelude.{
  ℕ, zero, suc, ◌+◌, ◌-◌, ◌≤◌, ◌<◌, ◌≡◌, refl, sym, ap, subst, ◌∙◌, Bool, All, All-append, All-drop,
  List, [], ◌∷◌, ◌++◌, append_assoc, append-nil, length, length-append, take-length, drop, drop_all,
  arith,
}
use wave_mq.Wire.{Bytes}
use wave_mq.Storage.Log.{
  LogConfig, Segment, SegmentedLog, write_at, new_segment, create_segment, update_active,
  write_record,
}
use wave_mq.Storage.Log.Retention.{Starts, Kept}

-- The cursor and the size are those of the file.
pub record Packed (s : Segment) : Type 0 where
  pub at_end : s.cursor ≡ length s.file
  pub whole_size : s.size ≡ length s.file

-- The segments' offsets follow each other, up to the next offset of the log.
abbrev pub Chained : List Segment → ℕ → Type 0
Chained [] next = Unit
Chained (s ∷ []) next = (s.base_offset ≤ s.next_offset) × (s.next_offset ≤ next)
Chained (s ∷ (t ∷ ts)) next =
    (s.base_offset ≤ s.next_offset) × (s.next_offset ≤ t.base_offset) × Chained (t ∷ ts) next

-- The bytes of a log, in the order of its segments.
unfoldable pub contents : List Segment → Bytes
contents [] = []
contents (s ∷ ss) = s.file ++ contents ss

pub record WellFormed (l : SegmentedLog) : Type 0 where
  pub packed : All Packed l.segments
  pub chained : Chained l.segments l.next_offset
  pub starts : Starts l.segments l.start_offset

Chained-later :
    (ss : List Segment) (next next' : ℕ) → next ≤ next' → Chained ss next → Chained ss next'
Chained-later [] next next' h c = tt
Chained-later (s ∷ []) next next' h c = (c.0, omega arith)
Chained-later (s ∷ (t ∷ ts)) next next' h (c₁, c₂, c) =
    (c₁, c₂, Chained-later (t ∷ ts) next next' h c)

Chained-first :
    (s : Segment) (ss : List Segment) (next : ℕ) → Chained (s ∷ ss) next → s.base_offset ≤ next
Chained-first s [] next c = omega arith
Chained-first s (t ∷ ts) next (c₁, c₂, c) = let h = Chained-first t ts next c in omega arith

Chained-new :
    (now next : ℕ) (ss : List Segment)
    → Chained ss next
    → Chained (ss ++ (new_segment now next ∷ [])) next
Chained-new now next [] c = (omega arith, omega arith)
Chained-new now next (s ∷ []) (c₁, c₂) = (c₁, c₂, (omega arith, omega arith))
Chained-new now next (s ∷ (t ∷ ts)) (c₁, c₂, c) = (c₁, c₂, Chained-new now next (t ∷ ts) c)

pub Chained-drop :
    (n : ℕ) (ss : List Segment) (next : ℕ) → Chained ss next → Chained (drop n ss) next
Chained-drop zero ss next c = c
Chained-drop (suc n) [] next c = tt
Chained-drop (suc n) (s ∷ []) next c = Chained-drop n [] next tt
Chained-drop (suc n) (s ∷ (t ∷ ts)) next (c₁, c₂, c) = Chained-drop n (t ∷ ts) next c

pub Kept-WellFormed : (l l' : SegmentedLog) → Kept l l' → WellFormed l → WellFormed l'
Kept-WellFormed l l' k h = record {
  packed = subst (All Packed) (sym k.segments_eq) (All-drop Packed k.removed l.segments h.packed);
  chained =
      rw (k.segments_eq, k.next_eq) (Chained-drop k.removed l.segments l.next_offset h.chained);
  starts = k.start;
}

pub contents-append : (ss ts : List Segment) → contents (ss ++ ts) ≡ contents ss ++ contents ts
unfolding contents
contents-append [] ts = refl
contents-append (s ∷ ss) ts =
    ap (λ t. s.file ++ t) (contents-append ss ts)
    ∙ sym (append_assoc s.file (contents ss) (contents ts))

-- A new segment adds no bytes.
pub create_segment-contents :
    (now base : ℕ) (l : SegmentedLog)
    → contents (create_segment now base l).segments ≡ contents l.segments
unfolding create_segment contents
create_segment-contents now base l =
    contents-append l.segments (new_segment now base ∷ []) ∙ append-nil (contents l.segments)

start_of_new :
    (now next start' : ℕ) (closed' : Bool) (ss : List Segment)
    → Starts ss start'
    → Chained ss next
    → Starts
        (ss ++ (new_segment now next ∷ []))
        (create_segment now next (record {
          segments = ss;
          next_offset = next;
          start_offset = start';
          closed = closed';
        })).start_offset
unfolding create_segment
start_of_new now next start' closed' [] s c = ground arith
start_of_new now next start' closed' (t ∷ ts) s c =
    let h = Chained-first t ts next c in ground arith

pub create_segment-WellFormed :
    (now : ℕ) (l : SegmentedLog) → WellFormed l → WellFormed (create_segment now l.next_offset l)
create_segment-WellFormed now l h = record {
  packed =
      unfold create_segment in
      All-append Packed l.segments _ h.packed (record { at_end = refl; whole_size = refl }, tt);
  chained = unfold create_segment in Chained-new now l.next_offset l.segments h.chained;
  starts =
      unfold create_segment in
      start_of_new now l.next_offset l.start_offset l.closed l.segments h.starts h.chained;
}

module _ (f : Segment → Segment) (b : Bytes)
    (base_eq : (s : Segment) → (f s).base_offset ≡ s.base_offset) where
  pub update_active-Starts :
      (ss : List Segment) (start' : ℕ) → Starts ss start' → Starts (update_active f ss) start'
  unfolding update_active
  update_active-Starts [] start' h = tt
  update_active-Starts (s ∷ []) start' h = base_eq s ∙ h
  update_active-Starts (s ∷ (t ∷ ts)) start' h = h

  -- The next offset of the active segment, from `next` to `next'`.
  pub update_active-Chained :
      (next next' : ℕ)
      → ((s : Segment)
          → s.base_offset ≤ s.next_offset
          → s.next_offset ≤ next
          → ((f s).base_offset ≤ (f s).next_offset) × ((f s).next_offset ≤ next'))
      → (ss : List Segment) → Chained ss next
      → Chained (update_active f ss) next'
  unfolding update_active
  update_active-Chained next next' g [] c = tt
  update_active-Chained next next' g (s ∷ []) c = g s c.0 c.1
  update_active-Chained next next' g (s ∷ (t ∷ [])) (c₁, c₂, c) =
      (c₁, subst (λ n. s.next_offset ≤ n) (sym (base_eq t)) c₂, g t c.0 c.1)
  update_active-Chained next next' g (s ∷ (t ∷ (u ∷ us))) (c₁, c₂, c) =
      (c₁, c₂, update_active-Chained next next' g (t ∷ (u ∷ us)) c)

  pub update_active-Packed :
      ((s : Segment) → Packed s → Packed (f s))
      → (ss : List Segment) → All Packed ss
      → All Packed (update_active f ss)
  unfolding update_active
  update_active-Packed g [] h = tt
  update_active-Packed g (s ∷ []) (hs, h) = (g s hs, tt)
  update_active-Packed g (s ∷ (t ∷ ts)) (hs, h) = (hs, update_active-Packed g (t ∷ ts) h)

  pub update_active-contents :
      ((s : Segment) → Packed s → (f s).file ≡ s.file ++ b)
      → (ss : List Segment) → All Packed ss
      → 0 < length ss
      → contents (update_active f ss) ≡ contents ss ++ b
  unfolding update_active contents
  update_active-contents g [] h n = absurd (omega arith)
  update_active-contents g (s ∷ []) (hs, h) n =
      append-nil (f s).file ∙ (g s hs ∙ ap (λ t. t ++ b) (sym (append-nil s.file)))
  update_active-contents g (s ∷ (t ∷ ts)) (hs, h) n =
      ap (λ x. s.file ++ x) (update_active-contents g (t ∷ ts) h (omega arith))
      ∙ sym (append_assoc s.file (contents (t ∷ ts)) b)

  pub update_active-length : (ss : List Segment) → length (update_active f ss) ≡ length ss
  unfolding update_active
  update_active-length [] = refl
  update_active-length (s ∷ []) = refl
  update_active-length (s ∷ (t ∷ ts)) = ap suc (update_active-length (t ∷ ts))

-- A write at the end appends.
write_at_end : (b file : Bytes) → write_at (length file) b file ≡ file ++ b
unfolding write_at
write_at_end b file =
    let none_between : length file - length file ≡ 0 = omega arith in
    rw (take-length file, none_between, drop_past, append-nil b) refl
  where
    drop_past : drop (length file + length b) file ≡ []
    drop_past = drop_all (length file + length b) file (omega arith)

module _ (cfg : LogConfig) (at : ℕ) (b : Bytes) where
  pub write_record-file : (s : Segment) → Packed s → (write_record cfg at b s).file ≡ s.file ++ b
  unfolding write_record
  write_record-file s h = rw (h.at_end) (write_at_end b s.file)

  pub write_record-Packed : (s : Segment) → Packed s → Packed (write_record cfg at b s)
  write_record-Packed s h = record {
    at_end =
        rw (write_record-file s h, length-append)
          (unfold write_record in ap (λ n. n + length b) h.at_end);
    whole_size =
        rw (write_record-file s h, length-append)
          (unfold write_record in ap (λ n. n + length b) h.whole_size);
  }
