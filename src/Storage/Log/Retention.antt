-- ===== src/Storage/Log/Retention.antt =====
-- What the retention of a log keeps.
use wave_mq.Prelude.{
  ℕ, zero, suc, ◌+◌, ◌≤◌, ◌<◌, ◌≡◌, refl, sym, ap, ◌∙◌, Bool, true, false, Bool-cases, ◌⊎◌, inl,
  inr, List, [], ◌∷◌, length, drop, drop-add, arith,
}
use wave_mq.Storage.Log.{
  LogConfig, Segment, SegmentedLog, remove_oldest_segment, too_old, too_large, remove_while,
  enforce_retention,
}

-- The start offset is the base of the first segment.
abbrev pub Starts : List Segment → ℕ → Type 0
Starts [] start = Unit
Starts (s ∷ ss) start = s.base_offset ≡ start

-- A log of which some of the oldest segments were removed, but not the last one.
pub record Kept (l l' : SegmentedLog) : Type 0 where
  pub removed : ℕ
  pub segments_eq : l'.segments ≡ drop removed l.segments
  pub next_eq : l'.next_offset ≡ l.next_offset
  pub closed_eq : l'.closed ≡ l.closed
  pub rest : 0 < length l'.segments
  pub start : Starts l'.segments l'.start_offset

Kept-all : (l : SegmentedLog) → 0 < length l.segments → Starts l.segments l.start_offset → Kept l l
Kept-all l h s = record {
  removed = 0;
  segments_eq = refl;
  next_eq = refl;
  closed_eq = refl;
  rest = h;
  start = s;
}

pub Kept-more : (l l' l'' : SegmentedLog) → Kept l l' → Kept l' l'' → Kept l l''
Kept-more l l' l'' k k' = record {
  removed = k.removed + k'.removed;
  segments_eq =
      k'.segments_eq
      ∙ (ap (drop k'.removed) k.segments_eq ∙ sym (drop-add k.removed k'.removed l.segments));
  next_eq = k'.next_eq ∙ k.next_eq;
  closed_eq = k'.closed_eq ∙ k.closed_eq;
  rest = k'.rest;
  start = k'.start;
}

record Removed (l l' : SegmentedLog) : Type 0 where
  shorter : suc (length l'.segments) ≡ length l.segments
  kept : Kept l l'

-- A log of these fields.
abbrev pub log_of : List Segment → ℕ → ℕ → Bool → SegmentedLog
log_of ss next start' closed' = record {
  segments = ss;
  next_offset = next;
  start_offset = start';
  closed = closed';
}

Removed-first :
    (ss : List Segment) (next start' : ℕ) (closed' : Bool)
    → 1 < length ss
    → Removed
        (log_of ss next start' closed')
        (remove_oldest_segment (log_of ss next start' closed'))
unfolding remove_oldest_segment
Removed-first [] next start' closed' h = absurd (omega arith)
Removed-first (s ∷ []) next start' closed' h = absurd (omega arith)
Removed-first (s ∷ (t ∷ ts)) next start' closed' h = record {
  shorter = refl;
  kept = record {
    removed = 1;
    segments_eq = refl;
    next_eq = refl;
    closed_eq = refl;
    rest = omega arith;
    start = refl;
  };
}

Removed-oldest : (l : SegmentedLog) → 1 < length l.segments → Removed l (remove_oldest_segment l)
Removed-oldest l h = Removed-first l.segments l.next_offset l.start_offset l.closed h

module _ (test : SegmentedLog → Bool)
    (several : (l : SegmentedLog) → test l ≡ true → 1 < length l.segments) where
  pub remove_while-Kept :
      (fuel : ℕ) (l : SegmentedLog)
      → 0 < length l.segments
      → Starts l.segments l.start_offset
      → Kept l (remove_while test fuel l)
  unfolding remove_while
  remove_while-Kept zero l h s = Kept-all l h s
  remove_while-Kept (suc fuel) l h s =
      split (λ k. remove_while-Kept fuel (remove_oldest_segment l) k.rest k.start)
        (Bool-cases (test l))
    where
      split :
          (Kept l (remove_oldest_segment l)
            → Kept (remove_oldest_segment l) (remove_while test fuel (remove_oldest_segment l)))
          → ((test l ≡ true) ⊎ (test l ≡ false))
          → Kept l (remove_while test (suc fuel) l)
      split ih (inl y) =
          let k = (Removed-oldest l (several l y)).kept in rw y (Kept-more _ _ _ k (ih k))
      split ih (inr n) = rw n (Kept-all l h s)

  -- The fuel is enough: the loop ends because its condition fails.
  remove_while_ends :
      (fuel : ℕ) (l : SegmentedLog)
      → length l.segments ≤ suc fuel
      → test (remove_while test fuel l) ≡ false
  unfolding remove_while
  remove_while_ends zero l h = split (Bool-cases (test l))
    where
      split : ((test l ≡ true) ⊎ (test l ≡ false)) → test l ≡ false
      split (inl y) = let many = several l y in absurd (omega arith)
      split (inr n) = n
  remove_while_ends (suc fuel) l h =
      split (λ h'. remove_while_ends fuel (remove_oldest_segment l) h') (Bool-cases (test l))
    where
      split :
          (length (remove_oldest_segment l).segments ≤ suc fuel
            → test (remove_while test fuel (remove_oldest_segment l)) ≡ false)
          → ((test l ≡ true) ⊎ (test l ≡ false))
          → test (remove_while test (suc fuel) l) ≡ false
      split ih (inl y) =
          let less = (Removed-oldest l (several l y)).shorter in rw y (ih (omega arith))
      split ih (inr n) = rw n n

module _ (cfg : LogConfig) (now : ℕ) where
  pub too_old_several : (l : SegmentedLog) → too_old cfg now l ≡ true → 1 < length l.segments
  unfolding too_old
  too_old_several l h = ground arith

  pub too_large_several : (l : SegmentedLog) → too_large cfg l ≡ true → 1 < length l.segments
  unfolding too_large
  too_large_several l h = ground arith

  module _ (l : SegmentedLog) (some_segment : 0 < length l.segments)
      (starts : Starts l.segments l.start_offset) where
    pub enforce_retention-Kept : Kept l (enforce_retention cfg now l)
    unfolding enforce_retention
    enforce_retention-Kept =
        let k =
          remove_while-Kept (too_old cfg now) too_old_several (length l.segments) l some_segment
            starts in
        Kept-more _ _ _ k (
          remove_while-Kept (too_large cfg) too_large_several
            (length (remove_while (too_old cfg now) (length l.segments) l).segments) _ k.rest
            k.start)

    pub enforce_retention_ends : too_large cfg (enforce_retention cfg now l) ≡ false
    unfolding enforce_retention
    enforce_retention_ends =
        remove_while_ends (too_large cfg) too_large_several _
          (remove_while (too_old cfg now) (length l.segments) l) (omega arith)
