-- ===== src/Frames/Next.antt =====
-- One step of a scan: a whole record is read back, and a torn one is not read.
use wave_mq.Prelude.{
  ℕ, suc, ◌+◌, ◌^◌, ◌<◌, ◌≡◌, refl, sym, ap, ◌∙◌, true, inl, inr, Bool-cases, leb→le, All, All-drop,
  All-take, take-append_le, none, some, [], ◌∷◌, ◌++◌, append_assoc, append-nil, length, take, drop,
  leb, arith, length-append, length-take, length-drop, drop-add, subst, take-append-drop,
  take-append_length, drop-append_length,
}
use wave_mq.Wire.{Bytes, IsByte, le_bytes-le_value, le_bytes, le_value, length-le_bytes}
use wave_mq.Frames.{next_frame}
use wave_mq.Frames.Seal.{frame}

-- What is read is a record behind its length.
pub next_frame-eq-some :
    (r data' rest : Bytes)
    → length r < 2 ^ 32
    → next_frame r ≡ some (data', rest)
    → (0 < length data')
      × (length data' < 2 ^ 32)
      × (length r ≡ 4 + length data' + length rest)
      × (rest ≡ drop (4 + length data') r)
      × (le_value (take 4 r) ≡ length data')
      × (data' ≡ take (length data') (drop 4 r))
unfolding next_frame
next_frame-eq-some r data' rest small h = ground (
  arith,
  length-drop 4 r,
  length-take (le_value (take 4 r)) (drop 4 r),
  length-drop (4 + le_value (take 4 r)) r,
)

module _ (data' rest : Bytes) (small : length data' + 4 < 2 ^ 32) where
  take-frame : le_value (take 4 (frame data' ++ rest)) ≡ length data'
  unfolding frame le_bytes le_value
  take-frame = omega arith

  drop-frame : drop 4 (frame data' ++ rest) ≡ data' ++ rest
  unfolding frame le_bytes
  drop-frame = refl

  drop_all-frame : drop (4 + length data') (frame data' ++ rest) ≡ rest
  unfolding frame le_bytes
  drop_all-frame = ap (λ n. drop n (frame data' ++ rest)) four ∙ drop-append_length data' rest
    where
      four : 4 + length data' ≡ suc (suc (suc (suc (length data'))))
      four = omega arith

  pub length-frame-append : length (frame data' ++ rest) ≡ 4 + length data' + length rest
  unfolding frame
  length-frame-append = omega (
    arith,
    length-append (le_bytes 4 (length data') ++ data') rest,
    length-append (le_bytes 4 (length data')) data',
    length-le_bytes 4 (length data'),
  )

  pub next_frame-frame : 0 < length data' → next_frame (frame data' ++ rest) ≡ some (data', rest)
  unfolding next_frame
  next_frame-frame positive = ground (
    arith,
    take-frame,
    drop-frame,
    drop_all-frame,
    length-frame-append,
    take-append_length data' rest,
    length-append data' rest,
  )

module _ (r data' rest : Bytes) (small : length r < 2 ^ 32) (e : next_frame r ≡ some (data', rest))
    (bytes : All IsByte r) where
  pub frame_of_next : r ≡ frame data' ++ rest
  unfolding frame
  frame_of_next =
      let (_, _, total, rest_eq, size, data_eq) = next_frame-eq-some r data' rest small e in
      let four : length (take 4 r) ≡ 4 = omega (arith, length-take 4 r) in
      let head : le_bytes 4 (length data') ≡ take 4 r = rw (← size) (
        subst (λ k. le_bytes k (le_value (take 4 r)) ≡ take 4 r) four
          (le_bytes-le_value (take 4 r) (All-take IsByte 4 r bytes))) in
      let body : data' ++ rest ≡ drop 4 r =
        rest_of_body (length data') data_eq (rest_eq ∙ drop-add 4 (length data') r) in
      sym (rw (append_assoc, head, body) (take-append-drop 4 r))
    where
      rest_of_body :
          (n : ℕ) → data' ≡ take n (drop 4 r) → rest ≡ drop n (drop 4 r) → data' ++ rest ≡ drop 4 r
      rest_of_body n p q = rw (p, q) (take-append-drop n (drop 4 r))

  pub bytes-rest : All IsByte rest
  bytes-rest =
      let (_, _, _, rest_eq, _, _) = next_frame-eq-some r data' rest small e in
      rw rest_eq (All-drop IsByte (4 + length data') r bytes)

-- A record that a crash cut short is not read.
pub next_frame-torn :
    (data' front : Bytes) (x : ℕ) (back : Bytes)
    → length data' + 4 < 2 ^ 32
    → frame data' ≡ front ++ (x ∷ back)
    → next_frame front ≡ none
unfolding next_frame
next_frame-torn data' front x back small e = elim (Bool-cases (leb 4 (length front))) [
  | inr short ↦ rw short
  | inl long ↦ ground (arith, same long, fewer, length-drop 4 front)
]
  where
    fewer : length front < 4 + length data'
    fewer = omega (
      arith,
      ap length e,
      length-append front (x ∷ back),
      length-frame-append data' [] small,
      length-append (frame data') [],
    )

    same : leb 4 (length front) ≡ true → le_value (take 4 front) ≡ length data'
    same long =
        rw (← take-append_le 4 front (x ∷ back) (leb→le _ _ long), ← e, ← append-nil (frame data'))
          (take-frame data' [] small)
