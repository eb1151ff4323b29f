-- ===== src/Broker/Groups/Shares.antt =====
-- The shares that a round of dealing gives, and that they are fair.
use native.Mathlib.Nat.{mod-lt, mod-eq_of_lt, suc-mod, mod_self}
use wave_mq.Prelude.{
  ℕ, suc, ◌+◌, ◌%◌, ◌≤◌, ◌<◌, ◌≡◌, refl, sym, ap, subst, ◌∙◌, false, Bool-cases, ◌⊎◌, inl, inr,
  List, [], ◌∷◌, length, ltb, ltb→lt, ◌==◌, if◌then◌else◌, arith,
}

module _ {ℓ} {A : Type ℓ} (n : ℕ) where
  -- The elements whose places, counted from `i`, leave the remainder `j`.
  unfoldable pub share : ℕ → ℕ → List A → List A
  share j i [] = []
  share j i (x ∷ xs) = let rest = share j (i + 1) xs in if i % n == j then x ∷ rest else rest

-- The remainder of the next place.
next_mod :
    (n i : ℕ) → ((i % n + 1 ≡ n) → (i + 1) % n ≡ 0) × ((i % n + 1 < n) → (i + 1) % n ≡ i % n + 1)
next_mod n i =
    let at_next : i + 1 ≡ suc i = omega arith in
    let up : i % n + 1 ≡ suc (i % n) = omega arith in
    let step : (i + 1) % n ≡ suc (i % n) % n = ap (λ k. k % n) at_next ∙ suc-mod i n in
    (
      (λ e. step ∙ (ap (λ k. k % n) (sym up ∙ e) ∙ mod_self n)),
      λ less. step ∙ (mod-eq_of_lt (subst (λ k. k < n) up less) ∙ sym up),
    )

module _ {ℓ} {A : Type ℓ} (n j : ℕ) where
  length-share_own :
      (i : ℕ) (x : A) (xs : List A)
      → i % n ≡ j
      → length (share n j i (x ∷ xs)) ≡ suc (length (share n j (i + 1) xs))
  unfolding share
  length-share_own i x xs e = ground arith

  length-share_other :
      (i : ℕ) (x : A) (xs : List A)
      → ((i % n == j) ≡ false)
      → length (share n j i (x ∷ xs)) ≡ length (share n j (i + 1) xs)
  unfolding share
  length-share_other i x xs e = rw e refl

-- The order of two shares: whose turn comes first decides which may be longer.
module _ {ℓ} {A : Type ℓ} (n j k : ℕ) (order : j < k) (most : k < n) where
  record First (i : ℕ) (xs : List A) : Type 0 where
    at_least : length (share n k i xs) ≤ length (share n j i xs)
    at_most : length (share n j i xs) ≤ suc (length (share n k i xs))

  record Second (i : ℕ) (xs : List A) : Type 0 where
    at_least : length (share n j i xs) ≤ length (share n k i xs)
    at_most : length (share n k i xs) ≤ suc (length (share n j i xs))

  abbrev Turns : ℕ → List A → Type 0
  Turns i xs =
      (((i % n ≤ j) ⊎ (k < i % n)) → First i xs) × (((j < i % n) × (i % n ≤ k)) → Second i xs)

  module _ (i : ℕ) (x : A) (xs : List A) (more : Turns (i + 1) xs) where
    low : i % n < n
    low = mod-lt i (omega arith)

    own_turn : i % n ≡ j → First i (x ∷ xs)
    own_turn e =
        let next = (next_mod n i).1 (omega arith) in
        let t = more.1 (omega arith, omega arith) in
        let mine = length-share_own n j i x xs e in
        let other = length-share_other n k i x xs (ground arith) in
        record { at_least = omega (arith, t.at_most); at_most = omega (arith, t.at_least) }

    other_turn : ((i % n < j) ⊎ (k < i % n)) → First i (x ∷ xs)
    other_turn h =
        let t = more.0 (later h) in
        let one = length-share_other n j i x xs (ground arith) in
        let two = length-share_other n k i x xs (ground arith) in
        record { at_least = omega (arith, t.at_least); at_most = omega (arith, t.at_most) }
      where
        wraps : i % n + 1 ≡ n → ((i + 1) % n ≤ j) ⊎ (k < (i + 1) % n)
        wraps e = let next = (next_mod n i).0 e in inl (omega arith)

        steps : i % n + 1 < n → ((i % n < j) ⊎ (k < i % n)) → ((i + 1) % n ≤ j) ⊎ (k < (i + 1) % n)
        steps less (inl below) = let next = (next_mod n i).1 less in inl (omega arith)
        steps less (inr above) = let next = (next_mod n i).1 less in inr (omega arith)

        later : ((i % n < j) ⊎ (k < i % n)) → ((i + 1) % n ≤ j) ⊎ (k < (i + 1) % n)
        later h = elim (Bool-cases (i % n + 1 == n)) [
          | inl y ↦ wraps (ground arith)
          | inr e ↦ steps (ground (arith, low)) h
        ]

    last_turn : i % n ≡ k → Second i (x ∷ xs)
    last_turn e =
        let t = more.0 later in
        let mine = length-share_own n k i x xs e in
        let other = length-share_other n j i x xs (ground arith) in
        record { at_least = omega (arith, t.at_most); at_most = omega (arith, t.at_least) }
      where
        later : ((i + 1) % n ≤ j) ⊎ (k < (i + 1) % n)
        later = elim (Bool-cases (i % n + 1 == n)) [
          | inl y ↦ let next = (next_mod n i).0 (ground arith) in inl (omega arith)
          | inr o ↦ let next = (next_mod n i).1 (ground (arith, low)) in inr (omega arith)
        ]

    between : (j < i % n) × (i % n < k) → Second i (x ∷ xs)
    between (above, below) =
        let next = (next_mod n i).1 (omega arith) in
        let t = more.1 (omega arith, omega arith) in
        let one = length-share_other n j i x xs (ground arith) in
        let two = length-share_other n k i x xs (ground arith) in
        record { at_least = omega (arith, t.at_least); at_most = omega (arith, t.at_most) }

    Turns-step : Turns i (x ∷ xs)
    Turns-step = (first, second)
      where
        first : ((i % n ≤ j) ⊎ (k < i % n)) → First i (x ∷ xs)
        first (inr above) = other_turn (inr above)
        first (inl most) = elim (Bool-cases (i % n == j)) [
          | inl y ↦ own_turn (ground arith)
          | inr e ↦ other_turn (inl (ground arith))
        ]

        second : ((j < i % n) × (i % n ≤ k)) → Second i (x ∷ xs)
        second (above, most) = elim (Bool-cases (i % n == k)) [
          | inl y ↦ last_turn (ground arith)
          | inr e ↦ between (above, ground arith)
        ]

  turns : (i : ℕ) (xs : List A) → Turns i xs
  turns i [] =
      unfold share in
      (
        (λ h. record { at_least = omega arith; at_most = omega arith }),
        λ h. record { at_least = omega arith; at_most = omega arith },
      )
  turns i (x ∷ xs) = Turns-step i x xs (turns (i + 1) xs)

  from_start : (xs : List A) → First 0 xs
  from_start xs =
      let zero_mod : 0 % n ≡ 0 = mod-eq_of_lt (omega arith) in (turns 0 xs).0 (inl (omega arith))

-- No share is longer than another by more than one.
pub share_fair {ℓ} :
    {A : Type ℓ} (n j k : ℕ) (xs : List A)
    → j < n
    → k < n
    → length (share n j 0 xs) ≤ suc (length (share n k 0 xs))
share_fair n j k xs hj hk = elim (Bool-cases (ltb j k)) [
  | inl y ↦ (from_start n j k (ltb→lt _ _ y) hk xs).at_most
  | inr e ↦ elim (Bool-cases (ltb k j)) [
    | inl y ↦ let f = from_start n k j (ltb→lt _ _ y) hj xs in omega (arith, f.at_least)
    | inr e' ↦
        let same : j ≡ k = ground arith in
        subst (λ t. length (share n j 0 xs) ≤ suc (length (share n t 0 xs))) same (omega arith)
  ]
]
