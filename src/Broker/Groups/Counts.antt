-- ===== src/Broker/Groups/Counts.antt =====
-- Sums over a list, how often a value stands in it, and that sorting changes neither.
use native.Mathlib.Nat.{mod-lt}
use wave_mq.Prelude.{
  ℕ, zero, suc, ◌+◌, ◌%◌, ◌≤◌, ◌<◌, ◌≡◌, refl, sym, ap, ◌∙◌, Bool, true, false, Bool-cases, ◌⊎◌,
  inl, inr, some, List, [], ◌∷◌, length, get_elem?, ◌==◌, if◌then◌else◌, arith,
}
use wave_mq.Wire.{Bytes, string_eq, string_eq_refl, string_eq→eq}
use wave_mq.Broker.Groups.{insert_by, sort_by}
use wave_mq.Broker.Groups.Shares.{share}

abbrev pub sum_over {ℓ} : {A : Type ℓ} → (A → ℕ) → List A → ℕ
sum_over f [] = 0
sum_over f (x ∷ xs) = f x + sum_over f xs

-- How many elements pass the test.
abbrev pub tally {ℓ} : {A : Type ℓ} → (A → Bool) → List A → ℕ
tally hit xs = sum_over (λ x. if hit x then 1 else 0) xs

module _ {ℓ} {A : Type ℓ} (before : A → A → Bool) (f : A → ℕ) where
  sum_over-insert_by :
      (x : A) (xs : List A) → sum_over f (insert_by before x xs) ≡ f x + sum_over f xs
  unfolding insert_by
  sum_over-insert_by x [] = refl
  sum_over-insert_by x (y ∷ ys) = split (before y x) (sum_over-insert_by x ys)
    where
      split :
          (c : Bool)
          → sum_over f (insert_by before x ys) ≡ f x + sum_over f ys
          → sum_over f (if c then y ∷ insert_by before x ys else x ∷ (y ∷ ys))
            ≡ f x + (f y + sum_over f ys)
      split true e = omega (arith, e)
      split false e = refl

  pub sum_over-sort_by : (xs : List A) → sum_over f (sort_by before xs) ≡ sum_over f xs
  unfolding sort_by
  sum_over-sort_by [] = refl
  sum_over-sort_by (x ∷ xs) =
      omega (arith, sum_over-insert_by x (sort_by before xs), sum_over-sort_by xs)

-- The values of `h` at `count` places from `at` on.
abbrev pub sum_range : (ℕ → ℕ) → ℕ → ℕ → ℕ
sum_range h at zero = 0
sum_range h at (suc count) = h at + sum_range h (at + 1) count

-- A sum over a list is one over its places.
pub sum_over-places {ℓ} :
    {A : Type ℓ} (f : A → ℕ) (h : ℕ → ℕ) (at : ℕ) (xs : List A)
    → ((j : ℕ) (x : A) → get_elem? xs j ≡ some x → f x ≡ h (at + j))
    → sum_over f xs ≡ sum_range h at (length xs)
sum_over-places f h at [] same = refl
sum_over-places f h at (x ∷ xs) same =
    let here : f x ≡ h at = same 0 x refl ∙ ap h (omega arith) in
    let rest = sum_over-places f h (at + 1) xs (λ j y e. same (suc j) y e ∙ ap h (omega arith)) in
    omega (arith, here, rest)

module _ (h h' : ℕ → ℕ) (r b : ℕ) (more : (j : ℕ) → h' j ≡ h j + (if r == j then b else 0)) where
  sum_range-miss : (at count : ℕ) → r < at → sum_range h' at count ≡ sum_range h at count
  sum_range-miss at zero low = refl
  sum_range-miss at (suc count) low =
      let here : h' at ≡ h at = (let e = more at in ground arith) in
      omega (arith, here, sum_range-miss (at + 1) count (omega arith))

  pub sum_range-hit :
      (at count : ℕ) → at ≤ r → r < at + count → sum_range h' at count ≡ sum_range h at count + b
  sum_range-hit at zero low high = absurd (omega arith)
  sum_range-hit at (suc count) low high = elim (Bool-cases (r == at)) [
    | inl y ↦
        let here : h' at ≡ h at + b = (let e = more at in ground arith) in
        let past : r < at + 1 = ground arith in
        omega (arith, here, sum_range-miss (at + 1) count past)
    | inr n ↦
        let here : h' at ≡ h at = (let e = more at in ground arith) in
        let later : at + 1 ≤ r = ground arith in
        omega (arith, here, sum_range-hit (at + 1) count later (omega arith))
  ]

-- The shares of a list hold its elements, each in one of them.
module _ {ℓ} {A : Type ℓ} (f : A → ℕ) (n : ℕ) (positive : 0 < n) where
  no_shares : (i at count : ℕ) → sum_range (λ j. sum_over f (share {A = A} n j i [])) at count ≡ 0
  unfolding share
  no_shares i at zero = refl
  no_shares i at (suc count) = omega (arith, no_shares i (at + 1) count)

  pub sum_range-share :
      (i : ℕ) (xs : List A) → sum_range (λ j. sum_over f (share n j i xs)) 0 n ≡ sum_over f xs
  sum_range-share i [] = no_shares i 0 n
  sum_range-share i (x ∷ xs) =
      sum_range-hit (λ j. sum_over f (share n j (i + 1) xs))
        (λ j. sum_over f (share n j i (x ∷ xs))) (i % n) (f x) one_more 0 n (omega arith)
        (let low = mod-lt i positive in omega arith)
      ∙ omega (arith, sum_range-share (i + 1) xs)
    where
      split :
          (c : Bool) (rest : List A)
          → sum_over f (if c then x ∷ rest else rest) ≡ sum_over f rest + (if c then f x else 0)
      split true rest = omega arith
      split false rest = omega arith

      one_more :
          (j : ℕ)
          → sum_over f (share n j i (x ∷ xs))
            ≡ sum_over f (share n j (i + 1) xs) + (if i % n == j then f x else 0)
      one_more j = unfold share in split (i % n == j) (share n j (i + 1) xs)

-- No string stands at two places.
abbrev pub Once : List Bytes → Type 0
Once ms = (m : Bytes) → tally (string_eq m) ms ≤ 1

pub tally_here :
    (ms : List Bytes) (i : ℕ) (m : Bytes) → get_elem? ms i ≡ some m → 0 < tally (string_eq m) ms
tally_here [] i m e = cc
tally_here (b ∷ bs) zero m e =
    let same : b ≡ m = cc in
    let hit : string_eq m b ≡ true = rw same (string_eq_refl m) in ground arith
tally_here (b ∷ bs) (suc i) m e = let k = tally_here bs i m e in omega arith

-- A string that is counted stands at some place.
pub place_of :
    (ms : List Bytes) (m : Bytes) → 0 < tally (string_eq m) ms → (i : ℕ) × (get_elem? ms i ≡ some m)
place_of [] m h = absurd (omega arith)
place_of (b ∷ bs) m h = split (Bool-cases (string_eq m b)) (place_of bs m)
  where
    split :
        ((string_eq m b ≡ true) ⊎ (string_eq m b ≡ false))
        → (0 < tally (string_eq m) bs → (i : ℕ) × (get_elem? bs i ≡ some m))
        → (i : ℕ) × (get_elem? (b ∷ bs) i ≡ some m)
    split (inl y) rest = (0, ap some (sym (string_eq→eq m b y)))
    split (inr n) rest = let (i, e) = rest (ground arith) in (suc i, e)

twice :
    (b : Bytes) (bs : List Bytes) (j : ℕ) (m : Bytes)
    → b ≡ m
    → get_elem? bs j ≡ some m
    → 1 < tally (string_eq m) (b ∷ bs)
twice b bs j m same there =
    let hit : string_eq m b ≡ true = rw same (string_eq_refl m) in
    let k = tally_here bs j m there in ground arith

pub Once-apart :
    (ms : List Bytes)
    → Once ms
    → (i j : ℕ) (m : Bytes) → get_elem? ms i ≡ some m
    → get_elem? ms j ≡ some m
    → i ≡ j
Once-apart [] once i j m e e' = cc
Once-apart (b ∷ bs) once zero zero m e e' = refl
Once-apart (b ∷ bs) once zero (suc j) m e e' =
    let same : b ≡ m = cc in
    let o = once m in let k = twice b bs j m same e' in absurd (omega arith)
Once-apart (b ∷ bs) once (suc i) zero m e e' =
    let same : b ≡ m = cc in let o = once m in let k = twice b bs i m same e in absurd (omega arith)
Once-apart (b ∷ bs) once (suc i) (suc j) m e e' =
    ap suc (Once-apart bs (λ x. let k = once x in omega arith) i j m e e')
