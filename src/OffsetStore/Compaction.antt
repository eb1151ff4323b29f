-- ===== src/OffsetStore/Compaction.antt =====
-- `Compact` writes one record for each key, in whatever order the maps are walked.
use wave_mq.Prelude.{
  ◌^◌, ◌<◌, ◌≡◌, refl, sym, ap, ◌∙◌, Bool, true, false, ◌||◌, Bool-cases, ◌⊎◌, inl, inr, none, some,
  List, [], ◌∷◌, append-nil, All, length, Result, ok, err, arith, if◌then◌else◌,
}
use wave_mq.Wire.{Bytes, Error, Writer, ℤ, string_eq, string_eq→eq, int_eq, int_eq→eq}
use wave_mq.Frames.{next_frame}
use wave_mq.Frames.Scan.{no_frame}
use wave_mq.OffsetStore.{
  Commit, Offsets, no_offsets, is_key, set_offset, OffsetStore, recover, append_bytes,
  encode_commits, compact, replay_from,
}
use wave_mq.OffsetStore.Recovery.{IsInt64, recover-Stops}

unfoldable pub has_key : List Commit → Bytes → Bytes → ℤ → Bool
has_key [] g t p = false
has_key (c ∷ cs) g t p = is_key c g t p || has_key cs g t p

-- A walk of the maps: each commit stands in the map, and every key of the map is met.
pub record Enumerates (m : Offsets) (cs : List Commit) : Type 0 where
  pub sound : All (λ c. m c.group c.topic c.partition ≡ some c.offset) cs
  pub complete : (g t : Bytes) (p : ℤ) → has_key cs g t p ≡ false → m g t p ≡ none

is_key→eq :
    (m : Offsets) (c : Commit) (g t : Bytes) (p : ℤ)
    → is_key c g t p ≡ true
    → m c.group c.topic c.partition ≡ m g t p
is_key→eq m c g t p h =
    let e₁ : string_eq c.group g ≡ true = ground arith in
    let e₂ : string_eq c.topic t ≡ true = ground arith in
    let e₃ : int_eq c.partition p ≡ true = ground arith in
    let f₁ = string_eq→eq c.group g e₁ in
    let f₂ = string_eq→eq c.topic t e₂ in let f₃ = int_eq→eq c.partition p e₃ in cc (f₁, f₂, f₃)

module _ (m : Offsets) (g t : Bytes) (p : ℤ) where
  replay_from_sound :
      (cs : List Commit) (acc : Offsets)
      → All (λ c. m c.group c.topic c.partition ≡ some c.offset) cs
      → replay_from acc cs g t p ≡ (if has_key cs g t p then m g t p else acc g t p)
  unfolding replay_from set_offset has_key
  replay_from_sound [] acc h = refl
  replay_from_sound (c ∷ cs) acc (hc, h) =
      replay_from_sound cs (set_offset acc c) h ∙ ground (arith, is_key→eq m c g t p, hc)

file_of :
    (bs : Bytes) (s : OffsetStore)
    → ◌≡◌ {A = Result Error OffsetStore} (ok (record { file = bs })) (ok s)
    → ◌≡◌ {A = Writer} (ok bs) (ok s.file)
file_of bs s e = cc (ap stored e)
  where
    stored : Result Error OffsetStore → Bytes
    stored (ok r) = r.file
    stored (err x) = []

-- Compaction loses nothing. Where the commits are a walk of the offsets in some order, the offsets
-- are int64s, `Compact` succeeds and the new log stays below 2 GiB, `Recover` reads from it, for every
-- group, topic and partition, just the offset of that map, or none where the map has none.
pub recover-compact :
    (m : Offsets) (cs : List Commit) (s s' : OffsetStore) (g t : Bytes) (p : ℤ)
    → Enumerates m cs
    → All IsInt64 cs
    → compact s cs ≡ ok s'
    → length s'.file < 2 ^ 31
    → (m' : Offsets) × (recover s' ≡ some (m', s')) × (m' g t p ≡ m g t p)
recover-compact m cs s s' g t p walk h e small =
    let written = whole_file (encode_commits cs) refl (unfold compact in e) in
    let found = recover-Stops cs s'.file [] h written small (unfold next_frame in no_frame refl) in
    (
      replay_from no_offsets cs,
      rw append-nil at found,
      replay_from_sound m g t p cs no_offsets walk.sound ∙ all_met (Bool-cases (has_key cs g t p)),
    )
  where
    whole_file :
        (w : Writer)
        → encode_commits cs ≡ w
        → append_bytes (record { file = [] }) w ≡ ok s'
        → encode_commits cs ≡ ok s'.file
    whole_file (ok bs) q r = unfold append_bytes in q ∙ file_of bs s' r
    whole_file (err x) q r = unfold append_bytes in cc

    all_met :
        ((has_key cs g t p ≡ true) ⊎ (has_key cs g t p ≡ false))
        → (if has_key cs g t p then m g t p else none) ≡ m g t p
    all_met (inl y) = rw y refl
    all_met (inr n) = rw n (sym (walk.complete g t p n))
