-- ===== src/Storage/Log/Read/Steps.antt =====
-- What the loop of `readFromSegment` returns for a run of records, one record after the other.
use wave_mq.Prelude.{
  ℕ, zero, suc, ◌+◌, ◌-◌, ◌%◌, ◌^◌, ◌≤◌, ◌<◌, ◌≡◌, refl, sym, ap, ◌∙◌, true, false, Bool-cases, ◌⊎◌,
  inl, inr, Option, none, some, Option-cases, List, [], ◌∷◌, ◌++◌, map, length, drop, ltb, leb,
  leb→le, Result, ok, arith,
}
use wave_mq.Wire.{Bytes, Error, ℤ, pos, negsuc}
use wave_mq.Api.{Record}
use wave_mq.Frames.{next_frame}
use wave_mq.Frames.Seal.{frame, checked_body}
use wave_mq.Storage.Record.{encode_record, string_of, write_record_body}
use wave_mq.Storage.Record.RoundTrip.{Storable}
use wave_mq.Storage.Log.Read
use wave_mq.Storage.Log.Read.Records.{stored, up_to, within, skipped, used_up, at_end, goes_on}

abbrev read_ok : List Record → Option (Result Error (List Record))
read_ok rs = some (ok rs)

pub nothing_left :
    (fuel at size' : ℕ) (offset' max' : ℤ)
    → Read.read_section (suc fuel) at size' offset' max' [] ≡ some (ok [])
unfolding Read.read_section next_frame
nothing_left fuel at size' offset' max' = refl

-- What was spent before counts like a lower limit.
up_to-spent :
    (rs : List Record) (limit before spent : ℕ)
    → up_to limit (before + spent) rs ≡ up_to (limit - before) spent rs
unfolding up_to
up_to-spent [] limit before spent = refl
up_to-spent (r ∷ rs) limit before spent =
    let len = length (string_of r.value) in
    let sum : before + spent + len ≡ before + (spent + len) = omega arith in
    let same : ltb (before + (spent + len)) limit ≡ ltb (spent + len) (limit - before) =
      ground arith in
    rw (sum, same, up_to-spent rs limit before (spent + len)) refl

within-positive : (n : ℕ) (rs : List Record) → 0 < n → within (pos n) rs ≡ up_to n 0 rs
unfolding within
within-positive zero rs h = absurd (omega arith)
within-positive (suc n) rs h = refl

pub within-none : (max' : ℤ) → within max' [] ≡ []
unfolding within up_to
within-none (pos zero) = refl
within-none (pos (suc n)) = refl
within-none (negsuc n) = refl

within-last :
    (max' : ℤ) (r : Record) (rs : List Record)
    → Read.remaining max' (Read.value_length r) ≡ none
    → within max' (r ∷ rs) ≡ r ∷ []
unfolding within Read.remaining up_to
within-last (pos zero) r rs e = cc
within-last (pos (suc m)) r rs e =
    let over : ltb (0 + length (string_of r.value)) (suc m) ≡ false = ground (arith, e) in
    rw over refl
within-last (negsuc n) r rs e = cc

within-more :
    (max' left : ℤ) (r : Record) (rs : List Record)
    → Read.remaining max' (Read.value_length r) ≡ some left
    → within max' (r ∷ rs) ≡ r ∷ within left rs
unfolding within Read.remaining
within-more (pos zero) left r rs e =
    let same : pos zero ≡ left = cc in ap (λ z. r ∷ within z rs) same
within-more (pos (suc m)) left r rs e =
    split (Bool-cases (leb (suc m) (length (string_of r.value))))
  where
    len : ℕ
    len = length (string_of r.value)

    split :
        ((leb (suc m) len ≡ true) ⊎ (leb (suc m) len ≡ false))
        → up_to (suc m) 0 (r ∷ rs) ≡ r ∷ within left rs
    split (inl y) = let wrong : none ≡ some left = rw y at e in cc
    split (inr o) =
        let under : ltb (0 + len) (suc m) ≡ true = ground arith in
        let found : some (pos (suc m - len)) ≡ some left = rw o at e in
        let same : pos (suc m - len) ≡ left = cc in
        let rest : up_to (suc m) (0 + len) rs ≡ within left rs =
          ap (λ k. up_to (suc m) k rs) (omega arith)
          ∙ (up_to-spent rs (suc m) len 0
              ∙ (sym (within-positive (suc m - len) rs (ground arith))
                  ∙ ap (λ z. within z rs) same)) in
        unfold up_to in rw (under, rest) refl
within-more (negsuc n) left r rs e =
    let same : negsuc n ≡ left = cc in ap (λ z. r ∷ within z rs) same

-- What is read of the rest of a run of records, whatever the budget that is left.
abbrev pub Reads : ℕ → ℕ → ℕ → ℕ → ℕ → List Record → Bytes → Type 0
Reads fuel at size' offset' n rs file =
    (max' : ℤ)
    → Read.read_section fuel at size' (pos offset') max' file
      ≡ some (ok (within max' (map stored (drop (offset' - n) rs))))

module _ (n : ℕ) (r : Record) (rs : List Record) (h : Storable n r) (body ys : Bytes)
    (written : write_record_body r ≡ ok body)
    (encoded : encode_record r ≡ ok (frame (checked_body body))) (fuel at size' offset' : ℕ)
    (small : length (checked_body body) + 4 < 2 ^ 32) (enough : length ys < fuel)
    (total : at + (4 + length (checked_body body)) + length ys ≡ size')
    (ih : Reads fuel
      (at + (4 + length (checked_body body)) % 2 ^ 32)
      size'
      offset'
      (suc n)
      rs
      ys) where
  at' : ℕ
  at' = at + (4 + length (checked_body body)) % 2 ^ 32

  dropped : offset' ≤ n → drop (offset' - suc n) rs ≡ rs
  dropped reached = let e : offset' - suc n ≡ 0 = omega arith in ap (λ k. drop k rs) e

  empty_rest : leb size' at' ≡ true → ys ≡ []
  unfolding at'
  empty_rest y = let k = leb→le _ _ y in no_elements ys (omega arith)
    where
      no_elements : (zs : Bytes) → length zs ≡ 0 → zs ≡ []
      no_elements [] e = refl
      no_elements (z ∷ zs) e = absurd (omega arith)

  read_nothing :
      (f : ℕ) (max' : ℤ)
      → length ys < f
      → ys ≡ []
      → Read.read_section f at' size' (pos offset') max' ys ≡ some (ok [])
  read_nothing zero max' less e = absurd (omega arith)
  read_nothing (suc f) max' less e = rw e (nothing_left f at' size' (pos offset') max')

  rest_read :
      (left : ℤ)
      → offset' ≤ n
      → Read.read_section fuel at' size' (pos offset') left ys
        ≡ some (ok (within left (map stored rs)))
  unfolding at'
  rest_read left reached =
      ih left ∙ ap (λ t. some (ok (within left (map stored t)))) (dropped reached)

  nothing_behind :
      (left : ℤ) → offset' ≤ n → leb size' at' ≡ true → within left (map stored rs) ≡ []
  nothing_behind left reached y =
      inner (sym (rest_read left reached) ∙ read_nothing fuel left enough (empty_rest y))
    where
      inner : {a b : List Record} → read_ok a ≡ read_ok b → a ≡ b
      inner e = cc

  taken_last :
      (max' : ℤ)
      → offset' ≤ n
      → Read.remaining max' (Read.value_length r) ≡ none
      → Read.read_section (suc fuel) at size' (pos offset') max' (frame (checked_body body) ++ ys)
        ≡ some (ok (within max' (stored r ∷ map stored rs)))
  taken_last max' reached e =
      used_up n r h body ys written encoded small fuel at size' offset' max' reached e
      ∙ ap (λ t. some (ok t)) (sym (within-last max' (stored r) (map stored rs) e))

  taken_more :
      (max' left : ℤ)
      → offset' ≤ n
      → Read.remaining max' (Read.value_length r) ≡ some left
      → Read.read_section (suc fuel) at size' (pos offset') max' (frame (checked_body body) ++ ys)
        ≡ some (ok (within max' (stored r ∷ map stored rs)))
  unfolding at'
  taken_more max' left reached e =
      cases (Bool-cases (leb size' at'))
      ∙ ap (λ t. some (ok t)) (sym (within-more max' left (stored r) (map stored rs) e))
    where
      cases :
          ((leb size' at' ≡ true) ⊎ (leb size' at' ≡ false))
          → Read.read_section
              (suc fuel)
              at
              size'
              (pos offset')
              max'
              (frame (checked_body body) ++ ys)
            ≡ some (ok (stored r ∷ within left (map stored rs)))
      cases (inl y) =
          at_end n r h body ys written encoded small fuel at size' offset' max' reached left e y
          ∙ ap (λ t. some (ok (stored r ∷ t))) (sym (nothing_behind left reached y))
      cases (inr o) =
          goes_on n r h body ys written encoded small fuel at size' offset' max' reached left e o
          ∙ (ap (Read.with_first (stored r)) (rest_read left reached)
              ∙ (unfold Read.with_first in refl))

  taken :
      (max' : ℤ)
      → offset' ≤ n
      → Read.read_section (suc fuel) at size' (pos offset') max' (frame (checked_body body) ++ ys)
        ≡ some (ok (within max' (stored r ∷ map stored rs)))
  taken max' reached = elim (Option-cases (Read.remaining max' (Read.value_length r))) [
    | inl e ↦ taken_last max' reached e
    | inr (left, e) ↦ taken_more max' left reached e
  ]

  pub cons-Reads : Reads (suc fuel) at size' offset' n (r ∷ rs) (frame (checked_body body) ++ ys)
  cons-Reads max' = elim (Bool-cases (leb offset' n)) [
    | inl y ↦
        let e : offset' - n ≡ 0 = let k = leb→le _ _ y in omega arith in
        taken max' (leb→le _ _ y)
        ∙ ap (λ k. some (ok (within max' (map stored (drop k (r ∷ rs)))))) (sym e)
    | inr e ↦
        let above : n < offset' = ground arith in
        let k : offset' - n ≡ suc (offset' - suc n) = omega arith in
        skipped n r h body ys written encoded small fuel at size' offset' max' above
        ∙ (ih max' ∙ ap (λ t. some (ok (within max' (map stored (drop t (r ∷ rs)))))) (sym k))
  ]
