-- ===== src/Storage/Log/View/Keeps.antt =====
-- The retention of a log leaves the files that it is to leave.
use wave_mq.Prelude.{
  ℕ, zero, suc, ◌≤◌, ◌<◌, ◌≡◌, refl, sym, ap, subst, ◌∙◌, Bool, true, false, ◌&&◌, Bool-cases, ◌⊎◌,
  inl, inr, All, All-drop, List, [], ◌∷◌, length, ltb, arith,
}
use wave_mq.Wire.{ℤ, pos, negsuc}
use wave_mq.Storage.Log
use wave_mq.Storage.Log.Retention.{
  Starts, log_of, remove_while-Kept, too_old_several, too_large_several,
}
use wave_mq.Storage.Log.WellFormed.{Packed}
use wave_mq.Storage.Log.View

shrink_one :
    (test : List View.LogFile → Bool) (ss : List Log.Segment)
    → length ss ≤ 1
    → View.shrink test (View.view ss) ≡ View.view ss
unfolding View.shrink View.view
shrink_one test [] h = refl
shrink_one test (s ∷ []) h = refl
shrink_one test (s ∷ (t ∷ ts)) h = absurd (omega arith)

shrink_off :
    (test : List View.LogFile → Bool) (ss : List Log.Segment)
    → test (View.view ss) ≡ false
    → View.shrink test (View.view ss) ≡ View.view ss
unfolding View.shrink View.view
shrink_off test [] h = refl
shrink_off test (s ∷ []) h = refl
shrink_off test (s ∷ (t ∷ ts)) h = rw h refl

shrink_on :
    (test : List View.LogFile → Bool) (s t : Log.Segment) (ts : List Log.Segment)
    → test (View.view (s ∷ (t ∷ ts))) ≡ true
    → View.shrink test (View.view (s ∷ (t ∷ ts))) ≡ View.shrink test (View.view (t ∷ ts))
unfolding View.shrink View.view
shrink_on test s t ts h = rw h refl

module _ (test : Log.SegmentedLog → Bool) (spec : List View.LogFile → Bool)
    (several : (l : Log.SegmentedLog) → test l ≡ true → 1 < length l.segments)
    (agrees : (l : Log.SegmentedLog)
      → All Packed l.segments
      → 1 < length l.segments
      → test l ≡ spec (View.view l.segments)) where
  shrink_nothing :
      (l : Log.SegmentedLog)
      → All Packed l.segments
      → test l ≡ false
      → View.shrink spec (View.view l.segments) ≡ View.view l.segments
  shrink_nothing l h e = elim (Bool-cases (ltb 1 (length l.segments))) [
    | inl y ↦ shrink_off spec l.segments (sym (agrees l h (ground arith)) ∙ e)
    | inr n ↦ shrink_one spec l.segments (ground arith)
  ]

  shrink_first :
      (ss : List Log.Segment) (next start' : ℕ) (closed' : Bool)
      → All Packed ss
      → test (log_of ss next start' closed') ≡ true
      → (All Packed (Log.remove_oldest_segment (log_of ss next start' closed')).segments)
        × (suc (length (Log.remove_oldest_segment (log_of ss next start' closed')).segments)
            ≡ length ss)
        × (View.shrink spec (View.view ss)
            ≡ View.shrink spec
                (View.view (Log.remove_oldest_segment (log_of ss next start' closed')).segments))
  unfolding Log.remove_oldest_segment
  shrink_first [] next start' closed' h y = absurd (let k = several _ y in omega arith)
  shrink_first (s ∷ []) next start' closed' h y = absurd (let k = several _ y in omega arith)
  shrink_first (s ∷ (t ∷ ts)) next start' closed' h y =
      let holds : spec (View.view (s ∷ (t ∷ ts))) ≡ true =
        sym (agrees (log_of (s ∷ (t ∷ ts)) next start' closed') h (omega arith)) ∙ y in
      (h.1, refl, shrink_on spec s t ts holds)

  view-remove_while :
      (fuel : ℕ) (l : Log.SegmentedLog)
      → All Packed l.segments
      → length l.segments ≤ suc fuel
      → View.view (Log.remove_while test fuel l).segments ≡ View.shrink spec (View.view l.segments)
  unfolding Log.remove_while
  view-remove_while zero l h small = sym (shrink_one spec l.segments small)
  view-remove_while (suc fuel) l h small =
      split (λ h' small'. view-remove_while fuel (Log.remove_oldest_segment l) h' small')
        (Bool-cases (test l))
    where
      split :
          (All Packed (Log.remove_oldest_segment l).segments
            → length (Log.remove_oldest_segment l).segments ≤ suc fuel
            → View.view (Log.remove_while test fuel (Log.remove_oldest_segment l)).segments
              ≡ View.shrink spec (View.view (Log.remove_oldest_segment l).segments))
          → ((test l ≡ true) ⊎ (test l ≡ false))
          → View.view (Log.remove_while test (suc fuel) l).segments
            ≡ View.shrink spec (View.view l.segments)
      split ih (inl y) =
          let (h', shorter, e) =
            shrink_first l.segments l.next_offset l.start_offset l.closed h y in
          rw y (ih h' (omega arith) ∙ sym e)
      split ih (inr n) = rw n (sym (shrink_nothing l h n))

total_size-view :
    (ss : List Log.Segment) → All Packed ss → Log.total_size ss ≡ View.total_bytes (View.view ss)
unfolding Log.total_size View.view
total_size-view [] h = refl
total_size-view (s ∷ ss) (hs, h) = omega (arith, hs.whole_size, total_size-view ss h)

module _ (cfg : Log.LogConfig) (now : ℕ) where
  too_old-expired :
      (l : Log.SegmentedLog)
      → 1 < length l.segments
      → Log.too_old cfg now l ≡ View.expired cfg.segment_max_age now (View.view l.segments)
  unfolding Log.too_old Log.oldest_expired View.view
  too_old-expired l h = split l.segments h
    where
      split :
          (ss : List Log.Segment)
          → 1 < length ss
          → (ltb 1 (length ss) && (ltb 0 cfg.segment_max_age && Log.oldest_expired cfg now ss))
            ≡ View.expired cfg.segment_max_age now (View.view ss)
      split [] k = absurd (omega arith)
      split (s ∷ ss) k = ground arith

  exceeds-oversized :
      (most : ℤ) (ss : List Log.Segment)
      → All Packed ss
      → Log.exceeds (Log.total_size ss) most ≡ View.oversized most (View.view ss)
  unfolding Log.exceeds
  exceeds-oversized (negsuc n) ss h = refl
  exceeds-oversized (pos most) ss h = rw (total_size-view ss h) refl

  too_large-oversized :
      (l : Log.SegmentedLog)
      → All Packed l.segments
      → 1 < length l.segments
      → Log.too_large cfg l ≡ View.oversized cfg.max_log_bytes (View.view l.segments)
  unfolding Log.too_large
  too_large-oversized l h k =
      let many : ltb 1 (length l.segments) ≡ true = ground arith in
      rw many (exceeds-oversized cfg.max_log_bytes l.segments h)

  pub view-enforce_retention :
      (l : Log.SegmentedLog)
      → All Packed l.segments
      → 0 < length l.segments
      → Starts l.segments l.start_offset
      → View.view (Log.enforce_retention cfg now l).segments
        ≡ View.retained cfg now (View.view l.segments)
  unfolding Log.enforce_retention View.retained
  view-enforce_retention l h n starts =
      let l' = Log.remove_while (Log.too_old cfg now) (length l.segments) l in
      let k =
        remove_while-Kept (Log.too_old cfg now) (too_old_several cfg now) (length l.segments) l n
          starts in
      let h' : All Packed l'.segments =
        subst (All Packed) (sym k.segments_eq) (All-drop Packed k.removed l.segments h) in
      view-remove_while (Log.too_large cfg) (View.oversized cfg.max_log_bytes)
        (too_large_several cfg now) too_large-oversized (length l'.segments) l' h' (omega arith)
      ∙ ap (View.shrink (View.oversized cfg.max_log_bytes)) (
          view-remove_while (Log.too_old cfg now) (View.expired cfg.segment_max_age now)
            (too_old_several cfg now) (λ m p. too_old-expired m) (length l.segments) l h
            (omega arith))
