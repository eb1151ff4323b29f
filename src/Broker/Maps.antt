-- ===== src/Broker/Maps.antt =====
-- Go's maps as lists of entries: lookup, assignment and delete.
use wave_mq.Prelude.{
  ◌≡◌, refl, sym, ap, ◌∙◌, Bool, true, false, Bool-cases, ◌⊎◌, inl, inr, Option, none, some, List,
  [], ◌∷◌, if◌then◌else◌,
}
use wave_mq.Wire.{Bytes, ℤ, string_eq, string_eq_refl, string_eq→eq, int_eq, int_eq_refl, int_eq→eq}

-- A type whose values Go's `==` compares.
pub record Key (K : Type 0) : Type 0 where
  pub same : K → K → Bool
  pub same_refl : (k : K) → same k k ≡ true
  pub same_sound : (k k' : K) → same k k' ≡ true → k ≡ k'

abbrev pub string_key : Key Bytes
string_key = record { same = string_eq; same_refl = string_eq_refl; same_sound = string_eq→eq }

abbrev pub int_key : Key ℤ
int_key = record { same = int_eq; same_refl = int_eq_refl; same_sound = int_eq→eq }

module _ {ℓ} {K : Type 0} {V : Type ℓ} (key : Key K) where
  unfoldable pub find : K → List (K × V) → Option V
  find k [] = none
  find k ((a, v) ∷ m) = if key.same a k then some v else find k m

  -- m[k] = v
  unfoldable pub put : K → V → List (K × V) → List (K × V)
  put k v [] = (k, v) ∷ []
  put k v ((a, w) ∷ m) = if key.same a k then (a, v) ∷ m else (a, w) ∷ put k v m

  unfoldable pub delete : K → List (K × V) → List (K × V)
  delete k [] = []
  delete k ((a, v) ∷ m) = if key.same a k then m else (a, v) ∷ delete k m

  find-put_here :
      (k k' a : K) (v w : V) (m : List (K × V))
      → key.same a k ≡ true
      → find k' (put k v ((a, w) ∷ m)) ≡ (if key.same k k' then some v else find k' ((a, w) ∷ m))
  unfolding find put
  find-put_here k k' a v w m y =
      let e : a ≡ k = key.same_sound a k y in rw (y, e) (split (Bool-cases (key.same k k')))
    where
      split :
          ((key.same k k' ≡ true) ⊎ (key.same k k' ≡ false))
          → (if key.same k k' then some v else find k' m)
            ≡ (if key.same k k' then some v else (if key.same k k' then some w else find k' m))
      split (inl s) = rw s refl
      split (inr s) = rw s refl

  -- An assignment changes what is found at its key, and nothing else.
  pub find-put :
      (k k' : K) (v : V) (m : List (K × V))
      → find k' (put k v m) ≡ (if key.same k k' then some v else find k' m)
  unfolding find put
  find-put k k' v [] = refl
  find-put k k' v ((a, w) ∷ m) = split (Bool-cases (key.same a k)) (find-put k k' v m)
    where
      apart : key.same a k ≡ false → key.same a k' ≡ true → key.same k k' ≡ false
      apart n y = elim (Bool-cases (key.same k k')) [
        | inr e ↦ e
        | inl e ↦
            let same : a ≡ k = key.same_sound a k' y ∙ sym (key.same_sound k k' e) in
            let wrong : true ≡ false = sym (ap (λ t. key.same t k) same ∙ key.same_refl k) ∙ n in cc
      ]

      split :
          ((key.same a k ≡ true) ⊎ (key.same a k ≡ false))
          → find k' (put k v m) ≡ (if key.same k k' then some v else find k' m)
          → find k' (put k v ((a, w) ∷ m))
            ≡ (if key.same k k' then some v else find k' ((a, w) ∷ m))
      split (inl y) ih = find-put_here k k' a v w m y
      split (inr n) ih = rw n (other (Bool-cases (key.same a k')))
        where
          other :
              ((key.same a k' ≡ true) ⊎ (key.same a k' ≡ false))
              → (if key.same a k' then some w else find k' (put k v m))
                ≡ (if key.same k k' then some v else (if key.same a k' then some w else find k' m))
          other (inl y) = rw (y, apart n y) refl
          other (inr o) = rw o ih
