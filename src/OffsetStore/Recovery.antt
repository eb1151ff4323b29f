-- ===== src/OffsetStore/Recovery.antt =====
-- `Recover` after commits and a crash, and the offset that it finds for a key.
use mathlib.Core.List.{foldl-append}
use wave_mq.Prelude.{
  ℕ, ◌^◌, ◌<◌, ◌≡◌, refl, ap, ◌∙◌, some, List, [], ◌∷◌, ◌++◌, append_assoc, append-nil, All, length,
  take-append_length, length-append, Result, ok, err, arith, if◌then◌else◌,
}
use wave_mq.Wire.{Bytes, Error, Writer, ◌▹◌, ▹-eq-ok, ok-injective, FitsSigned, i64_half, ℤ}
use wave_mq.Frames.{next_frame}
use wave_mq.Frames.Seal.{checked_body, length-frame, seal_after-eq-frame}
use wave_mq.Frames.Scan.{Stops, no_frame}
use wave_mq.Frames.Log.{Logged, Logged-nil, Logged-cons, scan-Logged, Stops-torn}
use wave_mq.OffsetStore.{
  Commit, Offsets, no_offsets, is_key, set_offset, recover_record, OffsetStore, recover,
  append_bytes, append_commit, encode_commits, encode_offset_record, write_commit_body, replay_from,
}
use wave_mq.OffsetStore.RoundTrip.{recover_record-checked_body}

-- The offset of a commit is an int64.
abbrev pub IsInt64 : Commit → Type 0
IsInt64 c = FitsSigned i64_half c.offset

encode_commits-Logged :
    (cs : List Commit) (m : Offsets) (file : Bytes)
    → All IsInt64 cs
    → encode_commits cs ≡ ok file
    → length file < 2 ^ 31
    → Logged recover_record m file (replay_from m cs)
unfolding encode_commits replay_from
encode_commits-Logged [] m file h e small = rw (← ok-injective e) (Logged-nil recover_record m)
encode_commits-Logged (c ∷ cs) m file (hc, h) e small =
    let (xs, ys, ex, ey, split) = ▹-eq-ok _ _ e in
    let (body, written, framed, _) = seal_after-eq-frame (write_commit_body c) xs ex in
    let bounds : (length (checked_body body) < 2 ^ 31) × (length ys < 2 ^ 31) = omega (
      arith,
      ap length framed,
      ap length split,
      length-append xs ys,
      length-frame (checked_body body),
    ) in
    rw (split, framed)
      (Logged-cons recover_record m (set_offset m c) _ body ys (omega (arith, bounds.0))
        (recover_record-checked_body c hc body written m bounds.0)
        (encode_commits-Logged cs (set_offset m c) ys h ey bounds.1))

-- What is found before a tail that holds no acceptable record.
pub recover-Stops :
    (cs : List Commit) (file tail : Bytes)
    → All IsInt64 cs
    → encode_commits cs ≡ ok file
    → length file < 2 ^ 31
    → Stops recover_record (replay_from no_offsets cs) tail
    → recover (record { file = file ++ tail })
      ≡ some (replay_from no_offsets cs, record { file = file })
unfolding recover
recover-Stops cs file tail h e small stop =
    let scanned =
      scan-Logged recover_record no_offsets (replay_from no_offsets cs) file tail
        (encode_commits-Logged cs no_offsets file h e small) stop in
    rw (scanned, recover)
      (ap (λ t. some (replay_from no_offsets cs, record { file = t }))
        (take-append_length file tail))

-- Recovery of the offset log after a crash in the middle of a write. Where a file below 2 GiB holds
-- the records of commits, with offsets that are int64s, and then a proper prefix, possibly empty, of
-- the record of one more, `Recover` returns the offsets that these commits set in turn, nothing of
-- the torn one, and leaves a file of just the whole records.
pub recover-torn :
    (cs : List Commit) (torn : Commit) (file front : Bytes) (x : ℕ) (back : Bytes)
    → All IsInt64 cs
    → encode_commits cs ≡ ok file
    → encode_offset_record torn ≡ ok (front ++ (x ∷ back))
    → length file < 2 ^ 31
    → length (front ++ (x ∷ back)) < 2 ^ 32
    → recover (record { file = file ++ front })
      ≡ some (replay_from no_offsets cs, record { file = file })
unfolding encode_offset_record
recover-torn cs torn file front x back h e cut small small' =
    recover-Stops cs file front h e small
      (Stops-torn recover_record _ (write_commit_body torn) front x back cut small')

-- Commits in turn through `AppendCommit`; the first error ends them.
unfoldable pub commit_all : OffsetStore → List Commit → Result Error OffsetStore
commit_all s [] = ok s
commit_all s (c ∷ cs) = elim (append_commit s c) [ ok s' ↦ commit_all s' cs | err e ↦ err e ]

append_commit-bytes :
    (s : OffsetStore) (c : Commit) (w : Writer)
    → encode_offset_record c ≡ w
    → append_commit s c ≡ append_bytes s w
unfolding append_commit
append_commit-bytes s c w e = ap (append_bytes s) e

commit_all_step :
    (s : OffsetStore) (c : Commit) (cs : List Commit) (w : Writer) {s' : OffsetStore}
    → append_commit s c ≡ append_bytes s w
    → commit_all s (c ∷ cs) ≡ ok s'
    → (rec : Bytes) × (w ≡ ok rec) × (commit_all (record { file = s.file ++ rec }) cs ≡ ok s')
unfolding commit_all append_bytes
commit_all_step s c cs (ok rec) e h = (rec, refl, rw (e, commit_all) at h)
commit_all_step s c cs (err x) e h = absurd (failed (rw (e, commit_all) at h))
  where
    failed : {s' : OffsetStore} → ◌≡◌ {A = Result Error OffsetStore} (err x) (ok s') → ⊥
    failed p = cc

-- The file after commits: what was there, then their records.
commit_all-file :
    (cs : List Commit) (s s' : OffsetStore)
    → commit_all s cs ≡ ok s'
    → (bs : Bytes) × (encode_commits cs ≡ ok bs) × (s'.file ≡ s.file ++ bs)
unfolding encode_commits
commit_all-file [] s s' h = ([], refl, start (unfold commit_all in h))
  where
    start : ◌≡◌ {A = Result Error OffsetStore} (ok s) (ok s') → s'.file ≡ s.file ++ []
    start p = let same : s ≡ s' = cc in rw (append-nil, same) refl
commit_all-file (c ∷ cs) s s' h =
    let (rec, written, more) =
      commit_all_step s c cs (encode_offset_record c) (append_commit-bytes s c _ refl) h in
    let (bs, e, file) = commit_all-file cs (record { file = s.file ++ rec }) s' more in
    (rec ++ bs, joined rec bs written e, file ∙ append_assoc s.file rec bs)
  where
    joined :
        (rec bs : Bytes)
        → encode_offset_record c ≡ ok rec
        → encode_commits cs ≡ ok bs
        → encode_offset_record c ▹ encode_commits cs ≡ ok (rec ++ bs)
    joined rec bs p q = rw (p, q) (unfold ◌▹◌ in refl)

replay_from-append :
    (m : Offsets) (cs : List Commit) (c : Commit)
    → replay_from m (cs ++ (c ∷ [])) ≡ set_offset (replay_from m cs) c
unfolding replay_from
replay_from-append m cs c = rw foldl-append

-- The offset that a group finds after a restart is the last one that it committed. Where commits
-- through `AppendCommit`, the last of them `c`, have all succeeded on an empty log that stays below
-- 2 GiB, `Recover` succeeds and changes nothing in the file; and what it returns for a group, topic
-- and partition is the offset of `c`, if they are those of `c`, and otherwise what the commits before
-- `c` had set.
pub recover-latest :
    (cs : List Commit) (c : Commit) (s : OffsetStore) (g t : Bytes) (p : ℤ)
    → All IsInt64 (cs ++ (c ∷ []))
    → commit_all (record { file = [] }) (cs ++ (c ∷ [])) ≡ ok s
    → length s.file < 2 ^ 31
    → (m : Offsets) × (recover s ≡ some (m, s))
      × (m g t p ≡ (if is_key c g t p then some c.offset else replay_from no_offsets cs g t p))
unfolding set_offset
recover-latest cs c s g t p h e small =
    let (bs, written, file) = commit_all-file (cs ++ (c ∷ [])) (record { file = [] }) s e in
    let found =
      recover-Stops (cs ++ (c ∷ [])) bs [] h written (rw file at small)
        (unfold next_frame in no_frame refl) in
    (
      replay_from no_offsets (cs ++ (c ∷ [])),
      whole bs file (rw append-nil at found),
      ap (λ m. m g t p) (replay_from-append no_offsets cs c),
    )
  where
    whole :
        (bs : Bytes) {m : Offsets}
        → s.file ≡ bs
        → recover (record { file = bs }) ≡ some (m, record { file = bs })
        → recover s ≡ some (m, s)
    whole bs {m} same r = rw (← same) at r
