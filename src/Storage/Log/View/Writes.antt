-- ===== src/Storage/Log/View/Writes.antt =====
-- The loop of `AppendBatch` puts each record into the file that it is to go to.
use wave_mq.Prelude.{
  ℕ, ◌+◌, ◌<◌, ◌≡◌, refl, ap, subst, ◌∙◌, true, false, ◌&&◌, Bool-cases, ◌⊎◌, inl, inr, All, none,
  List, [], ◌∷◌, ◌++◌, length, ltb, Result, ok, err, arith,
}
use wave_mq.Wire.{Bytes, Error}
use wave_mq.Api.{Record}
use wave_mq.Storage.Record.{encode_record}
use wave_mq.Storage.Log
use wave_mq.Storage.Log.Append.{
  Grown, Grown-same, Grown-more, Grown-append, append_loop-cons, stamp_all,
}
use wave_mq.Storage.Log.WellFormed.{WellFormed, Packed, write_record-file}
use wave_mq.Storage.Log.View

-- A change of the last segment that keeps its file is not seen.
pub view-update_active :
    (f : Log.Segment → Log.Segment) (ss : List Log.Segment)
    → ((s : Log.Segment) → View.view (f s ∷ []) ≡ View.view (s ∷ []))
    → View.view (Log.update_active f ss) ≡ View.view ss
unfolding View.view Log.update_active
view-update_active f [] same = refl
view-update_active f (s ∷ []) same = same s
view-update_active f (s ∷ (t ∷ ts)) same =
    ap (λ v. record { base = s.base_offset; born = s.created_at; bytes = s.file } ∷ v)
      (view-update_active f (t ∷ ts) same)

module _ (cfg : Log.LogConfig) (clock : Log.Clock) (next : ℕ) (b : Bytes) where
  written_view :
      (s : Log.Segment)
      → Packed s
      → View.view (Log.write_record cfg next b s ∷ [])
        ≡ record { base = s.base_offset; born = s.created_at; bytes = s.file ++ b } ∷ []
  unfolding View.view
  written_view s h = rw (write_record-file cfg next b s h) (unfold Log.write_record in refl)

  view-rotated :
      (ss : List Log.Segment)
      → All Packed ss
      → 0 < length ss
      → Log.rotates cfg (Log.active_size ss) (length b) ≡ true
      → View.view (
          Log.update_active
            (Log.write_record cfg next b)
            (ss ++ (Log.new_segment (clock.created_at next) next ∷ [])))
        ≡ View.add_record cfg.max_segment_bytes clock next b (View.view ss)
  unfolding Log.update_active Log.active_size View.view View.add_record
  view-rotated [] h n y = absurd (omega arith)
  view-rotated (s ∷ []) (hs, h) n y =
      let full : (ltb cfg.max_segment_bytes (length s.file + length b) && ltb 0 (length s.file))
          ≡ true =
        rw hs.whole_size at y in
      let fresh_view =
        written_view (Log.new_segment (clock.created_at next) next)
          (record { at_end = refl; whole_size = refl }) in
      rw full (
        ap (λ v. record { base = s.base_offset; born = s.created_at; bytes = s.file } ∷ v)
          fresh_view)
  view-rotated (s ∷ (t ∷ ts)) (hs, h) n y =
      ap (λ v. record { base = s.base_offset; born = s.created_at; bytes = s.file } ∷ v)
        (view-rotated (t ∷ ts) h (omega arith) y)

  view-kept :
      (ss : List Log.Segment)
      → All Packed ss
      → 0 < length ss
      → Log.rotates cfg (Log.active_size ss) (length b) ≡ false
      → View.view (Log.update_active (Log.write_record cfg next b) ss)
        ≡ View.add_record cfg.max_segment_bytes clock next b (View.view ss)
  unfolding Log.update_active Log.active_size View.view View.add_record
  view-kept [] h n y = absurd (omega arith)
  view-kept (s ∷ []) (hs, h) n y =
      let room : (ltb cfg.max_segment_bytes (length s.file + length b) && ltb 0 (length s.file))
          ≡ false =
        rw hs.whole_size at y in
      rw room (written_view s hs)
  view-kept (s ∷ (t ∷ ts)) (hs, h) n y =
      ap (λ v. record { base = s.base_offset; born = s.created_at; bytes = s.file } ∷ v)
        (view-kept (t ∷ ts) h (omega arith) y)

module _ (cfg : Log.LogConfig) (clock : Log.Clock) where
  view-append_encoded :
      (b : Bytes) (l : Log.SegmentedLog)
      → WellFormed l
      → 0 < length l.segments
      → View.view (Log.append_encoded cfg clock b l).segments
        ≡ View.add_record cfg.max_segment_bytes clock l.next_offset b (View.view l.segments)
  unfolding Log.append_encoded Log.write_active Log.rotate Log.create_segment
  view-append_encoded b l h n =
      split (Bool-cases (Log.rotates cfg (Log.active_size l.segments) (length b)))
    where
      split :
          ((Log.rotates cfg (Log.active_size l.segments) (length b) ≡ true)
            ⊎ (Log.rotates cfg (Log.active_size l.segments) (length b) ≡ false))
          → View.view (Log.append_encoded cfg clock b l).segments
            ≡ View.add_record cfg.max_segment_bytes clock l.next_offset b (View.view l.segments)
      split (inl y) = rw y (view-rotated cfg clock l.next_offset b l.segments h.packed n y)
      split (inr e) = rw e (view-kept cfg clock l.next_offset b l.segments h.packed n e)

  encodings-cons :
      (r : Record) (rs : List Record) (bs : List Bytes)
      → View.encodings (r ∷ rs) ≡ ok bs
      → (x : Bytes) × (xs : List Bytes) × (encode_record r ≡ ok x)
        × (View.encodings rs ≡ ok xs)
        × (x ∷ xs ≡ bs)
  unfolding View.encodings
  encodings-cons r rs bs e = split (encode_record r) (View.encodings rs) refl refl e
    where
      split :
          (o : Result Error Bytes) (q : Result Error (List Bytes))
          → encode_record r ≡ o
          → View.encodings rs ≡ q
          → ◌≡◌ {A = Result Error (List Bytes)}
              (elim o [ err x ↦ err x | ok b ↦ elim q [ err x ↦ err x | ok bs' ↦ ok (b ∷ bs') ] ])
              (ok bs)
          → (x : Bytes) × (xs : List Bytes) × (encode_record r ≡ ok x)
            × (View.encodings rs ≡ ok xs)
            × (x ∷ xs ≡ bs)
      split (err x) q eo eq p = cc
      split (ok b) (err x) eo eq p = cc
      split (ok b) (ok xs) eo eq p = (b, xs, eo, eq, cc)

  -- The loop came to its end, with the records in their files.
  pub record Filled (rs : List Record) (l : Log.SegmentedLog) (bs : List Bytes)
      (l' : Log.SegmentedLog) : Type 0 where
    pub loop_eq : Log.append_loop cfg clock rs l ≡ (l', none)
    pub grown : Grown l l' (length rs) (View.joined bs)
    pub view_eq :
        View.view l'.segments
        ≡ View.add_records cfg.max_segment_bytes clock l.next_offset bs (View.view l.segments)

  Filled-step :
      (r : Record) (rs : List Record) (l : Log.SegmentedLog) (x : Bytes) (xs : List Bytes)
      (l' : Log.SegmentedLog)
      → WellFormed l
      → 0 < length l.segments
      → encode_record (Log.stamped clock l.next_offset r) ≡ ok x
      → Filled rs (Log.append_encoded cfg clock x l) xs l'
      → Filled (r ∷ rs) l (x ∷ xs) l'
  Filled-step r rs l x xs l' h n e f =
      let g = Grown-append cfg clock x l h n in
      record {
        loop_eq = append_loop-cons cfg clock r rs l x e ∙ f.loop_eq;
        grown =
            subst (λ m. Grown l l' m (x ++ View.joined xs)) (omega arith)
              (Grown-more l _ l' 1 (length rs) x (View.joined xs) g f.grown);
        view_eq =
            f.view_eq
            ∙ (rw (g.next_eq, view-append_encoded x l h n) (unfold View.add_records in refl));
      }

  pub append_loop-Filled :
      (rs : List Record) (l : Log.SegmentedLog) (bs : List Bytes)
      → WellFormed l
      → 0 < length l.segments
      → View.encodings (stamp_all clock l.next_offset rs) ≡ ok bs
      → (l' : Log.SegmentedLog) × Filled rs l bs l'
  append_loop-Filled [] l [] h n w = (
    l,
    record {
      loop_eq = unfold Log.append_loop in refl;
      grown = Grown-same l h n;
      view_eq = unfold View.add_records in refl;
    },
  )
  append_loop-Filled [] l (b ∷ bs) h n w =
      let wrong : ◌≡◌ {A = Result Error (List Bytes)} (ok []) (ok (b ∷ bs)) =
        (unfold View.encodings in w) in
      cc
  append_loop-Filled (r ∷ rs) l bs h n w =
      let (x, xs, e, es, same) = encodings-cons _ (stamp_all clock (l.next_offset + 1) rs) bs w in
      let g = Grown-append cfg clock x l h n in
      let (l', f) =
        append_loop-Filled rs (Log.append_encoded cfg clock x l) xs g.well g.active
          (rw g.next_eq es) in
      (l', subst (λ t. Filled (r ∷ rs) l t l') same (Filled-step r rs l x xs l' h n e f))
