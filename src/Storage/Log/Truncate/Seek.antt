-- ===== src/Storage/Log/Truncate/Seek.antt =====
-- Where `seekToOffset` finds an offset in a segment of whole records.
use wave_mq.Prelude.{
  ℕ, zero, suc, ◌+◌, ◌%◌, ◌^◌, ◌<◌, ◌≡◌, refl, sym, ap, ◌∙◌, some, List, [], ◌∷◌, ◌++◌,
  append_assoc, length, length-append, take, take-append_length, drop, drop-append_length, ltb,
  lt→ltb, ok, if◌then◌else◌, arith,
}
use wave_mq.Wire.{Bytes, le_bytes, le_value, pos, int_ltb, ▹-eq-ok, ok-injective}
use wave_mq.Api.{Record}
use wave_mq.Frames.Seal.{
  frame, length-frame, checked_body, length-checked_body, seal_after-eq-frame,
}
use wave_mq.Storage.Record.{encode_record, write_record_body}
use wave_mq.Storage.Record.RoundTrip.{Storable, decode_record-checked_body}
use wave_mq.Storage.Segment.{write_records}
use wave_mq.Storage.Segment.Recovery.{StorableFrom}
use wave_mq.Storage.Log.Truncate.{seek_from}

module _ (data' rest : Bytes) (small : length data' + 4 < 2 ^ 32) where
  size_read : le_value (take 4 (frame data' ++ rest)) ≡ length data'
  size_read = unfold frame le_bytes le_value in omega arith

  behind_size : drop 4 (frame data' ++ rest) ≡ data' ++ rest
  behind_size = unfold frame le_bytes in refl

module _ (n : ℕ) (r : Record) (h : Storable n r) (body rest : Bytes)
    (written : write_record_body r ≡ ok body) (small : length (checked_body body) + 4 < 2 ^ 32)
    (fuel at target : ℕ) where
  below_eq : int_ltb r.offset (pos target) ≡ ltb n target
  unfolding int_ltb
  below_eq = ap (λ o. int_ltb o (pos target)) h.offset_eq

  pub seek_one : seek_from (suc fuel) at target (frame (checked_body body) ++ rest) ≡ (
      if ltb n target
      then seek_from fuel (at + (4 + length (checked_body body)) % 2 ^ 32) target rest
      else some (ok at))
  unfolding seek_from
  seek_one =
      rw
        (
          size_read (checked_body body) rest small,
          behind_size (checked_body body) rest small,
          take-append_length,
          drop-append_length,
          decode_record-checked_body n r h body written,
          seek_from,
        )
        (ground (
          arith,
          below_eq,
          length-append (frame (checked_body body)) rest,
          length-frame (checked_body body),
          length-append (checked_body body) rest,
          length-checked_body body,
        ))

-- The search of the offset that follows some records: it ends behind them, where the record at that
-- offset begins.
abbrev Seeks : ℕ → ℕ → ℕ → Bytes → ℕ → Type 0
Seeks fuel at target file end = seek_from fuel at target file ≡ some (ok end)

module _ (after : List Record) (target : ℕ) (b₂ : Bytes) (h₂ : StorableFrom target after)
    (w₂ : write_records after ≡ ok b₂) (some_after : 0 < length after) where
  seek_end : (fuel at : ℕ) → length b₂ < 2 ^ 32 → 0 < fuel → Seeks fuel at target b₂ at
  unfolding write_records
  seek_end zero at small more = absurd (omega arith)
  seek_end (suc fuel) at small more = split after h₂ w₂ some_after
    where
      join :
          (r : Record) (h : Storable target r) (xs ys : Bytes)
          → b₂ ≡ xs ++ ys
          → (body : Bytes) × (write_record_body r ≡ ok body)
            × (xs ≡ frame (checked_body body))
            × (length (checked_body body) < 2 ^ 32)
          → Seeks (suc fuel) at target b₂ at
      join r h xs ys e (body, written, framed, _) =
          let k : length b₂ ≡ length xs + length ys = ap length e ∙ length-append xs ys in
          let fits : length (checked_body body) + 4 < 2 ^ 32 =
            omega (arith, ap length framed, length-frame (checked_body body)) in
          rw (e, framed) (seek_one target r h body ys written fits fuel at target ∙ ground arith)

      split :
          (rs : List Record)
          → StorableFrom target rs
          → write_records rs ≡ ok b₂
          → 0 < length rs
          → Seeks (suc fuel) at target b₂ at
      split [] h w n = absurd (omega arith)
      split (r ∷ rs) (h, hs) w n =
          let (xs, ys, ex, ey, e) = ▹-eq-ok _ _ w in
          join r h xs ys e
            (seal_after-eq-frame (write_record_body r) xs (unfold encode_record in ex))

  pub seek_run :
      (before : List Record) (n fuel at : ℕ) (b₁ : Bytes)
      → StorableFrom n before
      → write_records before ≡ ok b₁
      → n + length before ≡ target
      → length (b₁ ++ b₂) < 2 ^ 32
      → length b₁ < fuel
      → Seeks fuel at target (b₁ ++ b₂) (at + length b₁)
  unfolding write_records
  seek_run [] n fuel at b₁ h w t small enough = nothing_before (sym (ok-injective w))
    where
      nothing_before : b₁ ≡ [] → Seeks fuel at target (b₁ ++ b₂) (at + length b₁)
      nothing_before e =
          let same : at ≡ at + 0 = omega arith in
          rw e (
            seek_end fuel at (omega (arith, length-append b₁ b₂)) (omega arith)
            ∙ ap (λ k. some (ok k)) same)
  seek_run (r ∷ rs) n zero at b₁ h w t small enough = absurd (omega arith)
  seek_run (r ∷ rs) n (suc fuel) at b₁ (h, hs) w t small enough =
      let (xs, ys, ex, ey, e) = ▹-eq-ok _ _ w in
      join xs ys e (seal_after-eq-frame (write_record_body r) xs (unfold encode_record in ex))
        (λ at' k l. seek_run rs (suc n) fuel at' ys hs ey (omega arith) k l)
    where
      join :
          (xs ys : Bytes)
          → b₁ ≡ xs ++ ys
          → (body : Bytes) × (write_record_body r ≡ ok body)
            × (xs ≡ frame (checked_body body))
            × (length (checked_body body) < 2 ^ 32)
          → ((at' : ℕ)
              → length (ys ++ b₂) < 2 ^ 32
              → length ys < fuel
              → Seeks fuel at' target (ys ++ b₂) (at' + length ys))
          → Seeks (suc fuel) at target (b₁ ++ b₂) (at + length b₁)
      join xs ys e (body, written, framed, _) ih =
          let long : length xs ≡ 4 + length (checked_body body) =
            ap length framed ∙ length-frame (checked_body body) in
          let total : length b₁ ≡ length xs + length ys = ap length e ∙ length-append xs ys in
          let whole : length (b₁ ++ b₂) ≡ length xs + length ys + length b₂ =
            omega (arith, length-append b₁ b₂) in
          let rest : length (ys ++ b₂) ≡ length ys + length b₂ = length-append ys b₂ in
          let fits : length (checked_body body) + 4 < 2 ^ 32 = omega arith in
          let file_eq : b₁ ++ b₂ ≡ frame (checked_body body) ++ (ys ++ b₂) =
            ap (λ t. t ++ b₂) (e ∙ ap (λ t. t ++ ys) framed)
            ∙ append_assoc (frame (checked_body body)) ys b₂ in
          rw file_eq (
            seek_one n r h body (ys ++ b₂) written fits fuel at target
            ∙ (ap
                  (λ c.
                    if c
                    then seek_from fuel (at + (4 + length (checked_body body)) % 2 ^ 32) target
                        (ys ++ b₂)
                    else some (ok at))
                  (lt→ltb n target (omega (arith, t)))
                ∙ (ih (at + (4 + length (checked_body body)) % 2 ^ 32) (omega arith) (omega arith)
                    ∙ ap (λ k. some (ok k)) (omega arith))))
