-- ===== src/Storage/Log/Read/Run.antt =====
-- What `readFromSegment` returns where the index leads it to the start of a record.
use wave_mq.Prelude.{
  ℕ, zero, suc, ◌+◌, ◌-◌, ◌%◌, ◌^◌, ◌<◌, ◌≡◌, sym, ap, subst, ◌∙◌, Option, some, List, [], ◌∷◌,
  ◌++◌, map, length, length-append, take-length, drop, drop_all, drop-append_length, ok, arith,
}
use wave_mq.Wire.{Bytes, ℤ, pos, ▹-eq-ok, ok-injective}
use wave_mq.Api.{Record}
use wave_mq.Frames.Seal.{frame, length-frame, checked_body, seal_after-eq-frame}
use wave_mq.Storage.Record.{encode_record, write_record_body}
use wave_mq.Storage.Index.{lookup_index}
use wave_mq.Storage.Segment.{write_records}
use wave_mq.Storage.Segment.Recovery.{StorableFrom}
use wave_mq.Storage.Log.{Segment}
use wave_mq.Storage.Log.Read
use wave_mq.Storage.Log.Read.Records.{stored, within}
use wave_mq.Storage.Log.Read.Steps.{Reads, nothing_left, within-none, cons-Reads}

nothing-Reads : (fuel at size' offset' n : ℕ) → 0 < fuel → Reads fuel at size' offset' n [] []
nothing-Reads zero at size' offset' n h max' = absurd (omega arith)
nothing-Reads (suc fuel) at size' offset' n h max' =
    nothing_left fuel at size' (pos offset') max'
    ∙ ap (λ t. some (ok t)) (sym (within-none max'))
    ∙ ap (λ t. some (ok (within max' (map stored t))))
        (sym (drop_all (offset' - n) [] (omega arith)))

run-Reads :
    (rs : List Record) (file : Bytes) (n fuel at size' offset' : ℕ)
    → StorableFrom n rs
    → write_records rs ≡ ok file
    → length file < 2 ^ 32
    → length file < fuel
    → at + length file ≡ size'
    → Reads fuel at size' offset' n rs file
unfolding write_records
run-Reads [] file n fuel at size' offset' h e small enough total =
    rw (← ok-injective e) (nothing-Reads fuel at size' offset' n (omega arith))
run-Reads (r ∷ rs) file n zero at size' offset' h e small enough total = absurd (omega arith)
run-Reads (r ∷ rs) file n (suc fuel) at size' offset' (h, hs) e small enough total =
    let (xs, ys, ex, ey, split) = ▹-eq-ok _ _ e in
    join xs ys ex split (seal_after-eq-frame (write_record_body r) xs (unfold encode_record in ex))
      (λ at' k l t. run-Reads rs ys (suc n) fuel at' size' offset' hs ey k l t)
  where
    join :
        (xs ys : Bytes)
        → encode_record r ≡ ok xs
        → file ≡ xs ++ ys
        → (body : Bytes) × (write_record_body r ≡ ok body)
          × (xs ≡ frame (checked_body body))
          × (length (checked_body body) < 2 ^ 32)
        → ((at' : ℕ)
            → length ys < 2 ^ 32
            → length ys < fuel
            → at' + length ys ≡ size'
            → Reads fuel at' size' offset' (suc n) rs ys)
        → Reads (suc fuel) at size' offset' n (r ∷ rs) file
    join xs ys ex split (body, written, framed, _) ih =
        let long : length xs ≡ 4 + length (checked_body body) =
          ap length framed ∙ length-frame (checked_body body) in
        let parts : length file ≡ length xs + length ys = ap length split ∙ length-append xs ys in
        let fits : length (checked_body body) + 4 < 2 ^ 32 = omega arith in
        let wrap : (4 + length (checked_body body)) % 2 ^ 32 ≡ 4 + length (checked_body body) =
          omega arith in
        let encoded : encode_record r ≡ ok (frame (checked_body body)) = ex ∙ ap ok framed in
        subst (λ f. Reads (suc fuel) at size' offset' n (r ∷ rs) f)
          (sym (split ∙ ap (λ t. t ++ ys) framed))
          (cons-Reads n r rs h body ys written encoded fuel at size' offset' fits (omega arith)
            (omega arith) (ih _ (omega arith) (omega arith) (omega arith)))

-- Reading back from a segment what was written to it. Where a segment below 4 GiB holds the encodings
-- some records and then those of storable records at the consecutive offsets that follow, and its index
-- leads the search for an offset to the start of the latter (or finds nothing, and there are no former),
-- readFromSegment succeeds: it returns, with the checksums that were stored, the latter records from the
-- offset on: where the budget is positive, up to the first one with which the bytes of the values that
-- are returned reach the budget, and else up to the end of the segment.
pub read_from_segment_lem :
    (s : Segment) (before after : List Record) (b₁ b₂ : Bytes) (found : Option ℕ) (offset' : ℕ)
    (max' : ℤ)
    → StorableFrom (s.base_offset + length before) after
    → write_records before ≡ ok b₁
    → write_records after ≡ ok b₂
    → s.file ≡ b₁ ++ b₂
    → s.size ≡ length s.file
    → length s.file < 2 ^ 32
    → lookup_index s.idx (offset' - s.base_offset) ≡ some found
    → Read.start_or_zero found ≡ length b₁
    → Read.read_from_segment s offset' max'
      ≡ some
          (ok (within max' (map stored (drop (offset' - (s.base_offset + length before)) after))))
unfolding Read.read_from_segment
read_from_segment_lem s before after b₁ b₂ found offset' max' h w₁ w₂ e size_eq small lookup
      at_start =
    rw (lookup, Read.read_from_segment) (run found at_start)
  where
    unread : Read.section s (length b₁) ≡ b₂
    unread =
        let rest : drop (length b₁) s.file ≡ b₂ = rw e (drop_front b₁ b₂) in
        let len : s.size - length b₁ ≡ length b₂ =
          omega (arith, size_eq, ap length e, length-append b₁ b₂) in
        rw (rest, len) (take-length b₂)
      where
        drop_front : (xs ys : Bytes) → drop (length xs) (xs ++ ys) ≡ ys
        drop_front xs ys = drop-append_length xs ys

    run :
        (found : Option ℕ)
        → Read.start_or_zero found ≡ length b₁
        → Read.read_section
            (suc (length (Read.section s (Read.start_or_zero found))))
            (Read.start_or_zero found)
            s.size
            (pos offset')
            max'
            (Read.section s (Read.start_or_zero found))
          ≡ some (
              ok
                (within max' (map stored (drop (offset' - (s.base_offset + length before)) after))))
    run found at_start =
        rw (at_start, unread)
          (run-Reads after b₂ (s.base_offset + length before) (suc (length b₂)) (length b₁) s.size
            offset' h w₂ (omega (arith, ap length e, length-append b₁ b₂)) (omega arith)
            (omega (arith, size_eq, ap length e, length-append b₁ b₂)) max')
