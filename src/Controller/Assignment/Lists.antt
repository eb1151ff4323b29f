-- ===== src/Controller/Assignment/Lists.antt =====
-- Lists of broker ids: membership, and that no id stands twice.
use wave_mq.Prelude.{
  ◌≡◌, refl, ◌∙◌, true, false, ◌&&◌, ◌||◌, not, Bool-cases, ◌⊎◌, inl, inr, List, [], ◌∷◌, ◌++◌,
  if◌then◌else◌, length, suc, arith,
}
use wave_mq.Wire.{ℤ, pos, negsuc, int_eq, int_eq_refl, int_eq→eq, int_ltb}
use wave_mq.Api.{BrokerInfo}
use wave_mq.Controller.Assignment

abbrev pub Distinct : List ℤ → Type 0
Distinct [] = Unit {0}
Distinct (x ∷ xs) = (Assignment.contains xs x ≡ false) × Distinct xs

abbrev pub ids : List BrokerInfo → List ℤ
ids [] = []
ids (b ∷ bs) = b.broker_id ∷ ids bs

pub int_eq_comm : (y z : ℤ) → int_eq y z ≡ int_eq z y
int_eq_comm y z = ground (arith, int_eq→eq y z, int_eq→eq z y, int_eq_refl y, int_eq_refl z)

pub contains-append :
    (xs ys : List ℤ) (id : ℤ)
    → Assignment.contains (xs ++ ys) id ≡ (Assignment.contains xs id || Assignment.contains ys id)
unfolding Assignment.contains
contains-append [] ys id = refl
contains-append (x ∷ xs) ys id = ground (arith, contains-append xs ys id)

pub contains-one :
    (xs : List ℤ) (y id : ℤ)
    → Assignment.contains (xs ++ (y ∷ [])) id ≡ (Assignment.contains xs id || int_eq y id)
contains-one xs y id = contains-append xs (y ∷ []) id ∙ (unfold Assignment.contains in ground arith)

pub contains-remove :
    (xs : List ℤ) (id x : ℤ)
    → Assignment.contains (Assignment.remove xs id) x
      ≡ (Assignment.contains xs x && not (int_eq id x))
unfolding Assignment.contains Assignment.remove
contains-remove [] id x = refl
contains-remove (v ∷ vs) id x = ground (
  arith,
  contains-remove vs id x,
  int_eq→eq v id,
  int_eq→eq v x,
  int_eq→eq id x,
  int_eq_refl x,
  int_eq_refl id,
  int_eq_comm id x,
)

pub Distinct-one :
    (xs : List ℤ) (id : ℤ)
    → Distinct xs
    → Assignment.contains xs id ≡ false
    → Distinct (xs ++ (id ∷ []))
unfolding Assignment.contains
Distinct-one [] id d n = (refl, tt)
Distinct-one (x ∷ xs) id (new, d) n =
    (ground (arith, contains-one xs id x, int_eq_comm id x), Distinct-one xs id d (ground arith))

pub Distinct-remove : (xs : List ℤ) (id : ℤ) → Distinct xs → Distinct (Assignment.remove xs id)
unfolding Assignment.remove
Distinct-remove [] id d = tt
Distinct-remove (v ∷ vs) id (new, d) = keep (Bool-cases (int_eq v id)) (Distinct-remove vs id d)
  where
    keep :
        ((int_eq v id ≡ true) ⊎ (int_eq v id ≡ false))
        → Distinct (Assignment.remove vs id)
        → Distinct (if int_eq v id then Assignment.remove vs id else v ∷ Assignment.remove vs id)
    keep (inl y) rest = rw y rest
    keep (inr n) rest = rw n (ground (arith, contains-remove vs id v, new), rest)

pub contains-ensure_leader_in_isr :
    (leader : ℤ) (isr : List ℤ) (id : ℤ)
    → Assignment.contains (Assignment.ensure_leader_in_isr leader isr) id
      ≡ (Assignment.contains isr id || int_eq leader id)
unfolding Assignment.ensure_leader_in_isr
contains-ensure_leader_in_isr leader isr id =
    ground (arith, contains-one isr leader id, int_eq→eq leader id)

pub Distinct-ensure_leader_in_isr :
    (leader : ℤ) (isr : List ℤ)
    → Distinct isr
    → Distinct (Assignment.ensure_leader_in_isr leader isr)
Distinct-ensure_leader_in_isr leader isr d = split (Bool-cases (Assignment.contains isr leader))
  where
    split :
        ((Assignment.contains isr leader ≡ true) ⊎ (Assignment.contains isr leader ≡ false))
        → Distinct (Assignment.ensure_leader_in_isr leader isr)
    split (inl y) = unfold Assignment.ensure_leader_in_isr in rw y d
    split (inr n) = unfold Assignment.ensure_leader_in_isr in rw n (Distinct-one isr leader d n)

-- Sorting the brokers keeps their ids.
contains-insert_broker :
    (b : BrokerInfo) (bs : List BrokerInfo) (id : ℤ)
    → Assignment.contains (ids (Assignment.insert_broker b bs)) id
      ≡ (int_eq b.broker_id id || Assignment.contains (ids bs) id)
unfolding Assignment.contains Assignment.insert_broker
contains-insert_broker b [] id = ground arith
contains-insert_broker b (c ∷ cs) id = ground (arith, contains-insert_broker b cs id)

pub contains-sort_brokers :
    (bs : List BrokerInfo) (id : ℤ)
    → Assignment.contains (ids (Assignment.sort_brokers bs)) id ≡ Assignment.contains (ids bs) id
unfolding Assignment.contains Assignment.sort_brokers
contains-sort_brokers [] id = refl
contains-sort_brokers (b ∷ bs) id =
    ground
      (arith, contains-insert_broker b (Assignment.sort_brokers bs) id, contains-sort_brokers bs id)

Distinct-insert_broker :
    (b : BrokerInfo) (bs : List BrokerInfo)
    → Distinct (ids bs)
    → Assignment.contains (ids bs) b.broker_id ≡ false
    → Distinct (ids (Assignment.insert_broker b bs))
Distinct-insert_broker b [] d n = unfold Assignment.insert_broker Assignment.contains in (refl, tt)
Distinct-insert_broker b (c ∷ cs) (new, d) n =
    split (Bool-cases (int_ltb c.broker_id b.broker_id))
      (Distinct-insert_broker b cs d (unfold Assignment.contains in ground arith))
  where
    here :
        Distinct (ids (Assignment.insert_broker b cs))
        → Distinct (c.broker_id ∷ ids (Assignment.insert_broker b cs))
    here rest = (
      unfold Assignment.contains in
          ground
            (arith, contains-insert_broker b cs c.broker_id, int_eq_comm b.broker_id c.broker_id),
      rest,
    )

    split :
        ((int_ltb c.broker_id b.broker_id ≡ true) ⊎ (int_ltb c.broker_id b.broker_id ≡ false))
        → Distinct (ids (Assignment.insert_broker b cs))
        → Distinct (ids (Assignment.insert_broker b (c ∷ cs)))
    split (inl y) rest = unfold Assignment.insert_broker in rw y (here rest)
    split (inr m) rest = unfold Assignment.insert_broker in rw m (n, (new, d))

pub Distinct-sort_brokers :
    (bs : List BrokerInfo) → Distinct (ids bs) → Distinct (ids (Assignment.sort_brokers bs))
unfolding Assignment.sort_brokers
Distinct-sort_brokers [] d = tt
Distinct-sort_brokers (b ∷ bs) (new, d) =
    Distinct-insert_broker b (Assignment.sort_brokers bs) (Distinct-sort_brokers bs d)
      (contains-sort_brokers bs b.broker_id ∙ new)

-- No id is above the next one.
abbrev pub Ascending : List BrokerInfo → Type 0
Ascending [] = Unit {0}
Ascending (b ∷ []) = Unit {0}
Ascending (b ∷ c ∷ cs) = (int_ltb c.broker_id b.broker_id ≡ false) × Ascending (c ∷ cs)

not_above : (y z : ℤ) → int_ltb y z ≡ true → int_ltb z y ≡ false
unfolding int_ltb
not_above (pos m) (pos n) e = ground (arith, e)
not_above (pos m) (negsuc n) e = cc
not_above (negsuc m) (pos n) e = refl
not_above (negsuc m) (negsuc n) e = ground (arith, e)

-- Whether a broker may stand in front of a list.
abbrev Front : BrokerInfo → List BrokerInfo → Type 0
Front b [] = Unit {0}
Front b (c ∷ cs) = int_ltb c.broker_id b.broker_id ≡ false

Ascending-cons :
    (b : BrokerInfo) (bs : List BrokerInfo) → Front b bs → Ascending bs → Ascending (b ∷ bs)
Ascending-cons b [] k d = tt
Ascending-cons b (c ∷ cs) k d = (k, d)

Front-head : (c : BrokerInfo) (cs : List BrokerInfo) → Ascending (c ∷ cs) → Front c cs
Front-head c [] d = tt
Front-head c (e ∷ es) d = d.0

Ascending-tail : (c : BrokerInfo) (cs : List BrokerInfo) → Ascending (c ∷ cs) → Ascending cs
Ascending-tail c [] d = tt
Ascending-tail c (e ∷ es) d = d.1

Front-insert_broker :
    (c b : BrokerInfo) (cs : List BrokerInfo)
    → int_ltb b.broker_id c.broker_id ≡ false
    → Front c cs
    → Front c (Assignment.insert_broker b cs)
unfolding Assignment.insert_broker
Front-insert_broker c b [] y k = y
Front-insert_broker c b (e ∷ es) y k = split (Bool-cases (int_ltb e.broker_id b.broker_id))
  where
    split :
        ((int_ltb e.broker_id b.broker_id ≡ true) ⊎ (int_ltb e.broker_id b.broker_id ≡ false))
        → Front c (Assignment.insert_broker b (e ∷ es))
    split (inl q) = rw q k
    split (inr q) = rw q y

Ascending-insert_broker :
    (b : BrokerInfo) (bs : List BrokerInfo)
    → Ascending bs
    → Ascending (Assignment.insert_broker b bs)
Ascending-insert_broker b [] d = unfold Assignment.insert_broker in tt
Ascending-insert_broker b (c ∷ cs) d =
    split (Bool-cases (int_ltb c.broker_id b.broker_id))
      (Ascending-insert_broker b cs (Ascending-tail c cs d))
  where
    split :
        ((int_ltb c.broker_id b.broker_id ≡ true) ⊎ (int_ltb c.broker_id b.broker_id ≡ false))
        → Ascending (Assignment.insert_broker b cs)
        → Ascending (Assignment.insert_broker b (c ∷ cs))
    split (inl y) rest =
        let front : Front c (Assignment.insert_broker b cs) =
          Front-insert_broker c b cs (not_above c.broker_id b.broker_id y) (Front-head c cs d) in
        unfold Assignment.insert_broker in rw y (Ascending-cons c _ front rest)
    split (inr m) rest = unfold Assignment.insert_broker in rw m (m, d)

pub Ascending-sort_brokers : (bs : List BrokerInfo) → Ascending (Assignment.sort_brokers bs)
unfolding Assignment.sort_brokers
Ascending-sort_brokers [] = tt
Ascending-sort_brokers (b ∷ bs) =
    Ascending-insert_broker b (Assignment.sort_brokers bs) (Ascending-sort_brokers bs)

length-insert_broker :
    (b : BrokerInfo) (bs : List BrokerInfo)
    → length (Assignment.insert_broker b bs) ≡ suc (length bs)
unfolding Assignment.insert_broker
length-insert_broker b [] = refl
length-insert_broker b (c ∷ cs) = ground (arith, length-insert_broker b cs)

pub length-sort_brokers : (bs : List BrokerInfo) → length (Assignment.sort_brokers bs) ≡ length bs
unfolding Assignment.sort_brokers
length-sort_brokers [] = refl
length-sort_brokers (b ∷ bs) =
    omega (arith, length-insert_broker b (Assignment.sort_brokers bs), length-sort_brokers bs)
