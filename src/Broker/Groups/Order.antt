-- ===== src/Broker/Groups/Order.antt =====
-- That sort.Strings and sort.Ints, as the rebalance of a topic calls them, put a list in order.
use wave_mq.Prelude.{
  ◌≡◌, refl, Bool, true, false, Bool-cases, ◌⊎◌, inl, inr, List, [], ◌∷◌, map, arith,
}
use wave_mq.Wire.{Bytes, ℤ, pos, negsuc, int_ltb}
use wave_mq.Broker.{ConsumerGroup, Topic}
use wave_mq.Broker.Groups.{
  key_of, insert_by, sort_by, string_ltb, sorted_members, sorted_partitions,
}

-- No element is above the next one.
abbrev pub Ordered {ℓ} : {A : Type ℓ} → (A → A → Bool) → List A → Type 0
Ordered before [] = Unit {0}
Ordered before (x ∷ []) = Unit {0}
Ordered before (x ∷ y ∷ ys) = (before y x ≡ false) × Ordered before (y ∷ ys)

module _ {ℓ} {A : Type ℓ} (before : A → A → Bool)
    (asymmetric : (x y : A) → before x y ≡ true → before y x ≡ false) where
  -- Whether an element may stand in front of a list.
  abbrev Front : A → List A → Type 0
  Front x [] = Unit {0}
  Front x (y ∷ ys) = before y x ≡ false

  Ordered-cons : (x : A) (xs : List A) → Front x xs → Ordered before xs → Ordered before (x ∷ xs)
  Ordered-cons x [] k d = tt
  Ordered-cons x (y ∷ ys) k d = (k, d)

  Front-head : (x : A) (xs : List A) → Ordered before (x ∷ xs) → Front x xs
  Front-head x [] d = tt
  Front-head x (y ∷ ys) d = d.0

  Ordered-tail : (x : A) (xs : List A) → Ordered before (x ∷ xs) → Ordered before xs
  Ordered-tail x [] d = tt
  Ordered-tail x (y ∷ ys) d = d.1

  Front-insert_by :
      (x y : A) (ys : List A) → before y x ≡ false → Front x ys → Front x (insert_by before y ys)
  unfolding insert_by
  Front-insert_by x y [] k h = k
  Front-insert_by x y (z ∷ zs) k h = split (Bool-cases (before z y))
    where
      split : ((before z y ≡ true) ⊎ (before z y ≡ false)) → Front x (insert_by before y (z ∷ zs))
      split (inl q) = rw q h
      split (inr q) = rw q k

  Ordered-insert_by :
      (x : A) (xs : List A) → Ordered before xs → Ordered before (insert_by before x xs)
  Ordered-insert_by x [] d = unfold insert_by in tt
  Ordered-insert_by x (y ∷ ys) d =
      split (Bool-cases (before y x)) (Ordered-insert_by x ys (Ordered-tail y ys d))
    where
      split :
          ((before y x ≡ true) ⊎ (before y x ≡ false))
          → Ordered before (insert_by before x ys)
          → Ordered before (insert_by before x (y ∷ ys))
      split (inl q) rest =
          let front : Front y (insert_by before x ys) =
            Front-insert_by y x ys (asymmetric y x q) (Front-head y ys d) in
          unfold insert_by in rw q (Ordered-cons y _ front rest)
      split (inr q) rest = unfold insert_by in rw q (q, d)

  Ordered-sort_by : (xs : List A) → Ordered before (sort_by before xs)
  unfolding sort_by
  Ordered-sort_by [] = tt
  Ordered-sort_by (x ∷ xs) = Ordered-insert_by x (sort_by before xs) (Ordered-sort_by xs)

string_ltb_asymmetric : (x y : Bytes) → string_ltb x y ≡ true → string_ltb y x ≡ false
unfolding string_ltb
string_ltb_asymmetric [] [] e = refl
string_ltb_asymmetric [] (b ∷ t) e = refl
string_ltb_asymmetric (a ∷ s) [] e = cc
string_ltb_asymmetric (a ∷ s) (b ∷ t) e = ground (arith, e, string_ltb_asymmetric s t)

int_ltb_asymmetric : (y z : ℤ) → int_ltb y z ≡ true → int_ltb z y ≡ false
unfolding int_ltb
int_ltb_asymmetric (pos m) (pos n) e = ground (arith, e)
int_ltb_asymmetric (pos m) (negsuc n) e = cc
int_ltb_asymmetric (negsuc m) (pos n) e = refl
int_ltb_asymmetric (negsuc m) (negsuc n) e = ground (arith, e)

pub Ordered-sorted_members : (g : ConsumerGroup) → Ordered string_ltb (sorted_members g)
unfolding sorted_members
Ordered-sorted_members g = Ordered-sort_by string_ltb string_ltb_asymmetric (map key_of g.members)

pub Ordered-sorted_partitions : (t : Topic) → Ordered int_ltb (sorted_partitions t)
unfolding sorted_partitions
Ordered-sorted_partitions t = Ordered-sort_by int_ltb int_ltb_asymmetric (map key_of t.partitions)
