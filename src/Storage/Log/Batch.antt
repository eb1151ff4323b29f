-- ===== src/Storage/Log/Batch.antt =====
-- `AppendBatch` as a whole, on a log that is in order.
use wave_mq.Prelude.{
  ℕ, ◌+◌, ◌<◌, ◌≡◌, refl, ap, ◌∙◌, true, false, Bool-cases, ◌⊎◌, inl, inr, Option, none, some, List,
  [], ◌∷◌, ◌++◌, append-nil, length, drop, ok, err, arith,
}
use wave_mq.Wire.{Bytes, Error}
use wave_mq.Api.{Record}
use wave_mq.Storage.Log
use wave_mq.Storage.Log.Retention.{Starts, enforce_retention_ends}
use wave_mq.Storage.Log.WellFormed.{WellFormed, contents, Kept-WellFormed}
use wave_mq.Storage.Log.Append.{stamp_all, Grown-finish, finish-Kept, append_loop-Grown}
use wave_mq.Storage.Log.View
use wave_mq.Storage.Log.View.Writes.{view-update_active, append_loop-Filled}
use wave_mq.Storage.Log.View.Keeps.{view-enforce_retention}

module _ (cfg : Log.LogConfig) (clock : Log.Clock) where
  ensured :
      (now : ℕ) (l : Log.SegmentedLog)
      → 0 < length l.segments
      → Log.ensure_active_segment cfg now l ≡ l
  unfolding Log.ensure_active_segment
  ensured now l n = split l.segments refl
    where
      split :
          (ss : List Log.Segment)
          → l.segments ≡ ss
          → elim (ss) [ [] ↦ Log.create_segment now cfg.base_offset l | _ ∷ _ ↦ l ] ≡ l
      split [] e = absurd (let few : length l.segments ≡ 0 = ap length e in omega arith)
      split (s ∷ ss) e = refl

  runs :
      (r : Record) (rs : List Record) (l : Log.SegmentedLog)
      → l.closed ≡ false
      → 0 < length l.segments
      → Log.append_batch cfg clock (r ∷ rs) l
        ≡ Log.finish_batch cfg clock l.next_offset (Log.append_loop cfg clock (r ∷ rs) l)
  unfolding Log.append_batch
  runs r rs l is_open n =
      rw (ensured (clock.created_at cfg.base_offset) l n, is_open, Log.append_batch) (ground arith)

  large :
      (l : Log.SegmentedLog)
      → 0 < length (Log.set_active_next l).segments
      → Starts (Log.set_active_next l).segments (Log.set_active_next l).start_offset
      → Log.too_large cfg (Log.finish_append cfg clock l) ≡ false
  unfolding Log.finish_append
  large l n s = enforce_retention_ends cfg clock.retention_at (Log.set_active_next l) n s

  -- A log in order that has a segment.
  abbrev Ready : Log.SegmentedLog → Type 0
  Ready l = WellFormed l × (0 < length l.segments)

  finished-Ready :
      (first : ℕ) (l : Log.SegmentedLog) (e : Option Error)
      → Ready l
      → Ready (Log.finish_batch cfg clock first (l, e)).0
  unfolding Log.finish_batch
  finished-Ready first l none (h, n) =
      let f = Grown-finish cfg clock l h n in
      let k = finish-Kept cfg clock l h n in (Kept-WellFormed _ _ k f.well, k.rest)
  finished-Ready first l (some x) r = r

  refused :
      (rs : List Record) (l : Log.SegmentedLog)
      → l.closed ≡ true
      → Log.append_batch cfg clock rs l ≡ (l, err Log.log_closed)
  unfolding Log.append_batch
  refused rs l e = rw e refl

  appends_nothing :
      (l : Log.SegmentedLog)
      → l.closed ≡ false
      → Log.append_batch cfg clock [] l ≡ (l, ok l.next_offset)
  unfolding Log.append_batch
  appends_nothing l e = rw e refl

  -- The invariant of a log is kept by AppendBatch, on every branch, also where the log is closed, the
  -- batch empty or a record cannot be encoded: a log in order that has a segment is in order after it
  -- and has a segment.
  pub append_batch-WellFormed :
      (rs : List Record) (l : Log.SegmentedLog)
      → WellFormed l
      → 0 < length l.segments
      → WellFormed (Log.append_batch cfg clock rs l).0
        × (0 < length (Log.append_batch cfg clock rs l).0.segments)
  append_batch-WellFormed rs l h n = split rs (Bool-cases l.closed)
    where
      split :
          (rs : List Record)
          → ((l.closed ≡ true) ⊎ (l.closed ≡ false))
          → Ready (Log.append_batch cfg clock rs l).0
      split rs (inl y) = rw (refused rs l y) (h, n)
      split [] (inr e) = rw (appends_nothing l e) (h, n)
      split (r ∷ rs) (inr e) =
          let (_, _, g) = append_loop-Grown cfg clock (r ∷ rs) l h n in
          rw (runs r rs l e n) (finished-Ready l.next_offset _ _ (g.well, g.active))

  finished_view :
      (l : Log.SegmentedLog)
      → WellFormed l
      → 0 < length l.segments
      → (View.view (Log.set_active_next l).segments ≡ View.view l.segments)
        × (View.view (Log.finish_append cfg clock l).segments
            ≡ View.retained cfg clock.retention_at (View.view (Log.set_active_next l).segments))
  finished_view l h n =
      let f = Grown-finish cfg clock l h n in
      (
        (unfold Log.set_active_next in
            view-update_active _ l.segments (λ s. unfold View.view in refl)),
        (unfold Log.finish_append in
            view-enforce_retention cfg clock.retention_at (Log.set_active_next l) f.well.packed
              f.active f.well.starts),
      )

  -- AppendBatch of a batch that is not empty, to an open log in order that has a segment, where the
  -- encoder takes every record: it succeeds and returns the log's next offset, and the next offset grows
  -- by the length of the batch. The log before the retention is the log of before with the encoded
  -- records, which have consecutive offsets and the times filled in: record by record, each is at the
  -- end of the last file, or begins a file, named by its offset, where the last one has bytes and would
  -- exceed the limit; no other file changes. What the retention leaves of that are its last files: first
  -- the oldest go as long as they are older than the limit on the age, where there is one, and then as
  -- long as all together exceed the limit on the size, where there is one, but the last file stays. The
  -- log is open and in order, with a segment.
  pub append_batch_lem :
      (r : Record) (rs : List Record) (l : Log.SegmentedLog) (bs : List Bytes)
      → WellFormed l
      → 0 < length l.segments
      → l.closed ≡ false
      → View.encodings (stamp_all clock l.next_offset (r ∷ rs)) ≡ ok bs
      → (l' : Log.SegmentedLog) × (appended : List Log.Segment) × (removed : ℕ) × (Log.append_batch
            cfg clock
            (r ∷ rs)
            l
          ≡ (l', ok l.next_offset))
        × (l'.next_offset ≡ l.next_offset + length (r ∷ rs))
        × (View.view appended
            ≡ View.add_records cfg.max_segment_bytes clock l.next_offset bs (View.view l.segments))
        × (contents appended ≡ contents l.segments ++ View.joined bs)
        × (l'.segments ≡ drop removed appended)
        × (View.view l'.segments ≡ View.retained cfg clock.retention_at (View.view appended))
        × (0 < length l'.segments)
        × (Log.too_large cfg l' ≡ false)
        × (l'.closed ≡ false)
        × WellFormed l'
  append_batch_lem r rs l bs h n is_open w =
      let (l₁, done) = append_loop-Filled cfg clock (r ∷ rs) l bs h n w in
      let g = done.grown in
      let f = Grown-finish cfg clock l₁ g.well g.active in
      let k = finish-Kept cfg clock l₁ g.well g.active in
      let (same_view, kept_view) = finished_view l₁ g.well g.active in
      (
        Log.finish_append cfg clock l₁,
        (Log.set_active_next l₁).segments,
        k.removed,
        runs r rs l is_open n
            ∙ (ap (Log.finish_batch cfg clock l.next_offset) done.loop_eq
                ∙ (unfold Log.finish_batch in refl)),
        k.next_eq ∙ (f.next_eq ∙ omega (arith, g.next_eq)),
        same_view ∙ done.view_eq,
        f.bytes_eq ∙ (append-nil _ ∙ g.bytes_eq),
        k.segments_eq,
        kept_view,
        k.rest,
        large l₁ f.active f.well.starts,
        k.closed_eq ∙ (f.closed_eq ∙ (g.closed_eq ∙ is_open)),
        Kept-WellFormed _ _ k f.well,
      )
