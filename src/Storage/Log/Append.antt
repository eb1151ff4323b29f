-- ===== src/Storage/Log/Append.antt =====
-- What `AppendBatch` does to a log that is in order.
use wave_mq.Prelude.{
  ℕ, ◌+◌, ◌<◌, ◌≡◌, refl, sym, ap, ◌∙◌, true, false, Bool-cases, ◌⊎◌, inl, inr, some, List, [], ◌∷◌,
  ◌++◌, append_assoc, append-nil, length, length-append, Result, ok, err, arith,
}
use wave_mq.Wire.{Bytes, Error}
use wave_mq.Api.{Record}
use wave_mq.Storage.Record.{encode_record}
use wave_mq.Storage.Log
use wave_mq.Storage.Log.Retention.{Kept, enforce_retention-Kept}
use wave_mq.Storage.Log.WellFormed.{
  WellFormed, contents, create_segment-contents, create_segment-WellFormed, update_active-Starts,
  update_active-Chained, update_active-Packed, update_active-contents, update_active-length,
  write_record-file, write_record-Packed,
}

-- A log that some records were appended to, with their bytes.
pub record Grown (l l' : Log.SegmentedLog) (count : ℕ) (b : Bytes) : Type 0 where
  pub well : WellFormed l'
  pub next_eq : l'.next_offset ≡ l.next_offset + count
  pub bytes_eq : contents l'.segments ≡ contents l.segments ++ b
  pub active : 0 < length l'.segments
  pub closed_eq : l'.closed ≡ l.closed

pub Grown-same : (l : Log.SegmentedLog) → WellFormed l → 0 < length l.segments → Grown l l 0 []
Grown-same l h n = record {
  well = h;
  next_eq = omega arith;
  bytes_eq = sym (append-nil _);
  active = n;
  closed_eq = refl;
}

pub Grown-more :
    (l l' l'' : Log.SegmentedLog) (m n : ℕ) (b c : Bytes)
    → Grown l l' m b
    → Grown l' l'' n c
    → Grown l l'' (m + n) (b ++ c)
Grown-more l l' l'' m n b c g k = record {
  well = k.well;
  next_eq = omega (arith, g.next_eq, k.next_eq);
  bytes_eq = k.bytes_eq ∙ (ap (λ t. t ++ c) g.bytes_eq ∙ append_assoc (contents l.segments) b c);
  active = k.active;
  closed_eq = k.closed_eq ∙ g.closed_eq;
}

-- The records with the offsets and times that the loop gives them.
abbrev pub stamp_all : Log.Clock → ℕ → List Record → List Record
stamp_all clock offset' [] = []
stamp_all clock offset' (r ∷ rs) = Log.stamped clock offset' r ∷ stamp_all clock (offset' + 1) rs

module _ (cfg : Log.LogConfig) (clock : Log.Clock) where
  Grown-rotate :
      (len : ℕ) (l : Log.SegmentedLog)
      → WellFormed l
      → 0 < length l.segments
      → Grown l (Log.rotate cfg clock len l) 0 []
  unfolding Log.rotate
  Grown-rotate len l h n = split (Bool-cases (Log.rotates cfg (Log.active_size l.segments) len))
    where
      now : ℕ
      now = clock.created_at l.next_offset

      created : Grown l (Log.create_segment now l.next_offset l) 0 []
      created = record {
        well = create_segment-WellFormed now l h;
        next_eq = unfold Log.create_segment in omega arith;
        bytes_eq = create_segment-contents now l.next_offset l ∙ sym (append-nil _);
        active =
            unfold Log.create_segment in
            omega (arith, length-append l.segments (Log.new_segment now l.next_offset ∷ []));
        closed_eq = unfold Log.create_segment in refl;
      }

      split :
          ((Log.rotates cfg (Log.active_size l.segments) len ≡ true)
            ⊎ (Log.rotates cfg (Log.active_size l.segments) len ≡ false))
          → Grown l (Log.rotate cfg clock len l) 0 []
      split (inl y) = rw y created
      split (inr e) = rw e (Grown-same l h n)

  Grown-write :
      (at : ℕ) (b : Bytes) (l : Log.SegmentedLog)
      → WellFormed l
      → 0 < length l.segments
      → Grown l (Log.write_active cfg at b l) 1 b
  unfolding Log.write_active
  Grown-write at b l h n =
      let f = Log.write_record cfg at b in
      let base : (s : Log.Segment) → (f s).base_offset ≡ s.base_offset =
        λ s. unfold Log.write_record in refl in
      record {
        well = record {
          packed = update_active-Packed f b base (write_record-Packed cfg at b) l.segments h.packed;
          chained =
              update_active-Chained f b base l.next_offset (l.next_offset + 1)
                (λ s c₁ c₂. unfold Log.write_record in (c₁, omega arith)) l.segments h.chained;
          starts = update_active-Starts f b base l.segments l.start_offset h.starts;
        };
        next_eq = refl;
        bytes_eq =
            update_active-contents f b base (write_record-file cfg at b) l.segments h.packed n;
        active = omega (arith, update_active-length f b base l.segments);
        closed_eq = refl;
      }

  pub Grown-append :
      (b : Bytes) (l : Log.SegmentedLog)
      → WellFormed l
      → 0 < length l.segments
      → Grown l (Log.append_encoded cfg clock b l) 1 b
  unfolding Log.append_encoded
  Grown-append b l h n =
      let g = Grown-rotate (length b) l h n in
      Grown-more l _ _ 0 1 [] b g (Grown-write l.next_offset b _ g.well g.active)

  pub append_loop-cons :
      (r : Record) (rs : List Record) (l : Log.SegmentedLog) (b : Bytes)
      → encode_record (Log.stamped clock l.next_offset r) ≡ ok b
      → Log.append_loop cfg clock (r ∷ rs) l
        ≡ Log.append_loop cfg clock rs (Log.append_encoded cfg clock b l)
  unfolding Log.append_loop
  append_loop-cons r rs l b e = rw (e, Log.append_loop) refl

  append_loop-fails :
      (r : Record) (rs : List Record) (l : Log.SegmentedLog) (x : Error)
      → encode_record (Log.stamped clock l.next_offset r) ≡ err x
      → Log.append_loop cfg clock (r ∷ rs) l ≡ (l, some x)
  unfolding Log.append_loop
  append_loop-fails r rs l x e = rw (e, Log.append_loop) refl

  -- However the loop ends, it leaves a log in order.
  pub append_loop-Grown :
      (rs : List Record) (l : Log.SegmentedLog)
      → WellFormed l
      → 0 < length l.segments
      → (count : ℕ) × (b : Bytes) × Grown l (Log.append_loop cfg clock rs l).0 count b
  append_loop-Grown [] l h n = (0, [], unfold Log.append_loop in Grown-same l h n)
  append_loop-Grown (r ∷ rs) l h n =
      split (encode_record (Log.stamped clock l.next_offset r)) refl
        (λ b g. append_loop-Grown rs (Log.append_encoded cfg clock b l) g.well g.active)
    where
      split :
          (w : Result Error Bytes)
          → encode_record (Log.stamped clock l.next_offset r) ≡ w
          → ((b : Bytes)
              → Grown l (Log.append_encoded cfg clock b l) 1 b
              → (count : ℕ) × (c : Bytes) × Grown
                  (Log.append_encoded cfg clock b l)
                  (Log.append_loop cfg clock rs (Log.append_encoded cfg clock b l)).0
                  count
                  c)
          → (count : ℕ) × (b : Bytes) × Grown l (Log.append_loop cfg clock (r ∷ rs) l).0 count b
      split (ok b) e ih =
          let g = Grown-append b l h n in
          let (count, c, k) = ih b g in
          (1 + count, b ++ c, rw (append_loop-cons r rs l b e) (Grown-more l _ _ 1 count b c g k))
      split (err x) e ih = (0, [], rw (append_loop-fails r rs l x e) (Grown-same l h n))

  pub Grown-finish :
      (l : Log.SegmentedLog)
      → WellFormed l
      → 0 < length l.segments
      → Grown l (Log.set_active_next l) 0 []
  unfolding Log.set_active_next
  Grown-finish l h n =
      let f = (λ (s : Log.Segment). record s { next_offset = l.next_offset }) in
      let base : (s : Log.Segment) → (f s).base_offset ≡ s.base_offset = λ s. refl in
      record {
        well = record {
          packed =
              update_active-Packed f [] base
                (λ s p. record { at_end = p.at_end; whole_size = p.whole_size }) l.segments
                h.packed;
          chained =
              update_active-Chained f [] base l.next_offset l.next_offset
                (λ s c₁ c₂. (omega arith, omega arith)) l.segments h.chained;
          starts = update_active-Starts f [] base l.segments l.start_offset h.starts;
        };
        next_eq = omega arith;
        bytes_eq =
            update_active-contents f [] base (λ s p. sym (append-nil s.file)) l.segments h.packed n;
        active = omega (arith, update_active-length f [] base l.segments);
        closed_eq = refl;
      }

  pub finish-Kept :
      (l : Log.SegmentedLog)
      → WellFormed l
      → 0 < length l.segments
      → Kept (Log.set_active_next l) (Log.finish_append cfg clock l)
  unfolding Log.finish_append
  finish-Kept l h n =
      let g = Grown-finish l h n in
      enforce_retention-Kept cfg clock.retention_at (Log.set_active_next l) g.active g.well.starts
