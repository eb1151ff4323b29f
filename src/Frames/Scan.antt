-- ===== src/Frames/Scan.antt =====
-- The scan of a log file: it ends, it reads back every whole record, it stops at a torn one, and
-- to scan what it kept is to find the same again.
use wave_mq.Prelude.{
  ℕ, zero, suc, ◌+◌, ◌%◌, ◌^◌, ◌≤◌, ◌<◌, ◌≡◌, refl, sym, ap, ◌∙◌, inl, inr, All, Option, none, some,
  Option-cases, List, [], ◌∷◌, ◌++◌, append_assoc, append-nil, length, take, arith, length-append,
  take-append_length,
}
use wave_mq.Wire.{Bytes, IsByte}
use wave_mq.Frames.{next_frame, scan_from, scan}
use wave_mq.Frames.Seal.{frame, length-frame}
use wave_mq.Frames.Next.{
  next_frame-eq-some, length-frame-append, next_frame-frame, frame_of_next, bytes-rest,
}

abbrev pub Fits : Bytes → Type 0
Fits data' = (0 < length data') × (length data' + 4 < 2 ^ 32)

-- A file of whole records.
unfoldable pub frames : List Bytes → Bytes
frames [] = []
frames (data' ∷ ds) = frame data' ++ frames ds

-- Nothing more can be read from the rest `r` in the state `s`.
pub data Stops {ℓ} {S : Type ℓ} (step : S → Bytes → Option S) (s : S) (r : Bytes) : Type ℓ where
  no_frame : next_frame r ≡ none → Stops step s r
  rejected :
      (data' rest : Bytes)
      → next_frame r ≡ some (data', rest)
      → step s data' ≡ none
      → Stops step s r

module _ {ℓ} {S : Type ℓ} (step : S → Bytes → Option S) where
  -- The state after the records, if each is accepted.
  unfoldable pub fold_steps : S → List Bytes → Option S
  fold_steps s [] = some s
  fold_steps s (data' ∷ ds) = elim (step s data') [ none ↦ none | some s' ↦ fold_steps s' ds ]

  scan_from-Stops :
      (fuel : ℕ) (s : S) (pos : ℕ) (r : Bytes)
      → Stops step s r
      → scan_from step (suc fuel) s pos r ≡ some (s, pos)
  unfolding scan_from
  scan_from-Stops fuel s pos r (no_frame e) = rw (e, scan_from)
  scan_from-Stops fuel s pos r (rejected data' rest e f) = rw (e, f, scan_from)

  scan_from-accept :
      (fuel : ℕ) (s : S) (pos : ℕ) (r data' rest : Bytes) {s' : S}
      → next_frame r ≡ some (data', rest)
      → step s data' ≡ some s'
      → scan_from step (suc fuel) s pos r
        ≡ scan_from step fuel s' (pos + (4 + length data') % 2 ^ 32) rest
  unfolding scan_from
  scan_from-accept fuel s pos r data' rest e f = rw (e, f, scan_from)

  -- A list of records that is accepted in turn: the first is, and so is the rest.
  pub fold_steps-cons :
      (s : S) (data' : Bytes) (ds : List Bytes) {s'' : S}
      → fold_steps s (data' ∷ ds) ≡ some s''
      → (s' : S) × (step s data' ≡ some s') × (fold_steps s' ds ≡ some s'')
  unfolding fold_steps
  fold_steps-cons s data' ds e = ground arith

  pub scan_from-frames :
      (ds : List Bytes) (fuel : ℕ) (s : S) (pos : ℕ) (tail : Bytes) {s' : S}
      → All Fits ds
      → fold_steps s ds ≡ some s'
      → Stops step s' tail
      → length (frames ds ++ tail) < fuel
      → scan_from step fuel s pos (frames ds ++ tail) ≡ some (s', pos + length (frames ds))
  unfolding frames fold_steps
  scan_from-frames ds zero s pos tail fits e stop f = elim f [ ]
  scan_from-frames [] (suc fuel) s pos tail {s'} fits e stop f =
      let same : s ≡ s' = cc in
      rw same (scan_from-Stops fuel s' pos tail stop ∙ ap (λ n. some (s', n)) (zero_end pos))
    where
      zero_end : (n : ℕ) → n ≡ n + 0
      zero_end n = omega arith
  scan_from-frames (d ∷ ds) (suc fuel) s pos tail {s'} ((positive, small), fits) e stop f =
      let (s₁, accepted, more) = fold_steps-cons s d ds e in
      rw append_assoc (
        scan_from-accept fuel s pos (frame d ++ (frames ds ++ tail)) d (frames ds ++ tail)
          (next_frame-frame d (frames ds ++ tail) small positive) accepted
        ∙ scan_from-frames ds fuel s₁ (pos + (4 + length d) % 2 ^ 32) tail fits more stop (
            omega (
              arith,
              f,
              length-frame-append d (frames ds ++ tail) small,
              ap length (append_assoc (frame d) (frames ds) tail),
            ))
        ∙ ap (λ n. some (s', n)) (end d small))
    where
      end :
          (d : Bytes)
          → length d + 4 < 2 ^ 32
          → pos + (4 + length d) % 2 ^ 32 + length (frames ds) ≡ pos + length (frame d ++ frames ds)
      end d small = omega (arith, length-append (frame d) (frames ds), length-frame d)

  -- What a scan finds: good records in turn, up to a rest that holds no further one.
  pub record Found (s : S) (r : Bytes) (s' : S) (n : ℕ) : Type ℓ where
    pub records : List Bytes
    pub lost : Bytes
    pub split : r ≡ frames records ++ lost
    pub size : n ≡ length (frames records)
    pub fit : All Fits records
    pub state : fold_steps s records ≡ some s'
    pub stop : Stops step s' lost

  Found-Stops : (s : S) (r : Bytes) → Stops step s r → Found s r s 0
  unfolding frames fold_steps
  Found-Stops s r h = record {
    records = [];
    lost = r;
    split = refl;
    size = refl;
    fit = tt;
    state = refl;
    stop = h;
  }

  Found-cons :
      (s : S) (data' rest : Bytes) {s₁ s' : S} {n : ℕ}
      → Fits data'
      → step s data' ≡ some s₁
      → Found s₁ rest s' n
      → Found s (frame data' ++ rest) s' (4 + length data' + n)
  unfolding frames fold_steps
  Found-cons s data' rest fits e h = record {
    records = data' ∷ h.records;
    lost = h.lost;
    split = rw append_assoc (ap (λ t. frame data' ++ t) h.split);
    size =
        omega (arith, h.size, length-append (frame data') (frames h.records), length-frame data');
    fit = (fits, h.fit);
    state = rw (e, fold_steps) h.state;
    stop = h.stop;
  }

  -- The scan ends with such a find, if the fuel passes the bytes.
  pub scan_from-Found :
      (fuel : ℕ) (s : S) (pos : ℕ) (r : Bytes)
      → length r < fuel
      → length r < 2 ^ 32
      → All IsByte r
      → (s' : S) × (n : ℕ) × (scan_from step fuel s pos r ≡ some (s', pos + n)) × Found s r s' n
  scan_from-Found zero s pos r f small bytes = elim f [ ]
  scan_from-Found (suc fuel) s pos r f small bytes = elim (Option-cases (next_frame r)) [
    | inl e ↦ found_here (no_frame e)
    | inr ((d, rest), e) ↦ elim (Option-cases (step s d)) [
      | inl g ↦ found_here (rejected d rest e g)
      | inr (s₁, g) ↦
          let (positive, _, total, _, _, _) = next_frame-eq-some r d rest small e in
          further d rest s₁ e g total positive (
            scan_from-Found fuel s₁ (pos + (4 + length d) % 2 ^ 32) rest (omega arith) (omega arith)
              (bytes-rest r d rest small e bytes))
    ]
  ]
    where
      found_here :
          Stops step s r
          → (s' : S) × (n : ℕ) × (scan_from step (suc fuel) s pos r ≡ some (s', pos + n))
            × Found s r s' n
      found_here h =
          let zero_end : pos ≡ pos + 0 = omega arith in
          (s, 0, scan_from-Stops fuel s pos r h ∙ ap (λ n. some (s, n)) zero_end, Found-Stops s r h)

      further :
          (d rest : Bytes) (s₁ : S)
          → next_frame r ≡ some (d, rest)
          → step s d ≡ some s₁
          → length r ≡ 4 + length d + length rest
          → 0 < length d
          → (s' : S) × (n : ℕ) × (scan_from step fuel s₁ (pos + (4 + length d) % 2 ^ 32) rest
              ≡ some (s', pos + (4 + length d) % 2 ^ 32 + n))
            × Found s₁ rest s' n
          → (s' : S) × (n : ℕ) × (scan_from step (suc fuel) s pos r ≡ some (s', pos + n))
            × Found s r s' n
      further d rest s₁ e g total positive (s', n, scanned, found) =
          let fits : Fits d = (positive, omega arith) in
          let end : pos + (4 + length d) % 2 ^ 32 + n ≡ pos + (4 + length d + n) = omega arith in
          (
            s',
            4 + length d + n,
            scan_from-accept fuel s pos r d rest e g ∙ scanned ∙ ap (λ k. some (s', k)) end,
            rw (frame_of_next r d rest small e bytes) (Found-cons s d rest fits g found),
          )

  -- Enough fuel is given: the scan of a file below 4 GiB ends, with all good records found.
  pub scan-Found :
      (s : S) (file : Bytes)
      → length file < 2 ^ 32
      → All IsByte file
      → (s' : S) × (n : ℕ) × (scan step s file ≡ some (s', n)) × Found s file s' n
  unfolding scan
  scan-Found s file small bytes =
      let (s', n, e, found) =
        scan_from-Found (suc (length file)) s 0 file (omega arith) small bytes in
      let at_start : 0 + n ≡ n = omega arith in (s', n, e ∙ ap (λ k. some (s', k)) at_start, found)

  -- The scan of whole records before a rest that holds no further one finds just those.
  pub scan-frames :
      (ds : List Bytes) (s : S) (tail : Bytes) {s' : S}
      → All Fits ds
      → fold_steps s ds ≡ some s'
      → Stops step s' tail
      → scan step s (frames ds ++ tail) ≡ some (s', length (frames ds))
  unfolding scan
  scan-frames ds s tail {s'} fits e stop =
      let at_start : 0 + length (frames ds) ≡ length (frames ds) = omega arith in
      scan_from-frames ds (suc (length (frames ds ++ tail))) s 0 tail fits e stop (omega arith)
      ∙ ap (λ k. some (s', k)) at_start

  Found-take :
      (s : S) (file : Bytes) (s' : S) (n : ℕ)
      → Found s file s' n
      → (n ≤ length file) × (scan step s (take n file) ≡ some (s', n))
  unfolding next_frame
  Found-take s file s' n h =
      rw (h.split, h.size)
        (
          omega (arith, length-append (frames h.records) h.lost),
          rw (take-append_length, ← append-nil (frames h.records))
              (kept ∙ ap (λ t. some (s', length t)) (sym (append-nil (frames h.records)))),
        )
    where
      kept : scan step s (frames h.records ++ []) ≡ some (s', length (frames h.records))
      kept = scan-frames h.records s [] h.fit h.state (no_frame refl)

  -- Truncating the file to what the scan kept, and scanning again, changes nothing.
  pub scan-take :
      (s : S) (file : Bytes) (s' : S) (n : ℕ)
      → length file < 2 ^ 32
      → All IsByte file
      → scan step s file ≡ some (s', n)
      → (n ≤ length file) × (scan step s (take n file) ≡ some (s', n))
  scan-take s file s' n small bytes e =
      let (s₁, n₁, e₁, found) = scan-Found s file small bytes in
      let same_n : n₁ ≡ n = cc in
      let same_s : s₁ ≡ s' = cc in Found-take s file s' n (rw (same_n, same_s) at found)
