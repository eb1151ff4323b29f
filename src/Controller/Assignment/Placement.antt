-- ===== src/Controller/Assignment/Placement.antt =====
-- Where `assignTopicPartitions` puts the replicas of a partition: in turn on the brokers.
use native.Mathlib.Nat.{mod-lt, mod-eq_of_lt, mod-eq-sub-mod}
use wave_mq.Prelude.{
  ℕ, zero, suc, ◌+◌, ◌-◌, ◌%◌, ◌≤◌, ◌<◌, ◌≡◌, ◌≢◌, refl, sym, ap, ◌∙◌, true, false, Bool-cases, ◌⊎◌,
  inl, inr, List, [], ◌∷◌, length, ltb, ltb→lt, arith,
}
use wave_mq.Wire.{ℤ, int_eq, int_eq_refl, int_eq→eq}
use wave_mq.Api.{BrokerInfo, PartitionAssignment}
use wave_mq.Controller.Assignment
use wave_mq.Controller.Assignment.Lists.{Distinct, ids, int_eq_comm}

-- An assignment that makes sense: no replica twice, and the leader in sync among in-sync replicas.
pub record Placed (p : PartitionAssignment) : Type 0 where
  pub distinct_replicas : Distinct p.replicas
  pub leader_replica : Assignment.contains p.replicas p.leader ≡ true
  pub distinct_isr : Distinct p.isr
  pub leader_in_sync : Assignment.contains p.isr p.leader ≡ true
  pub isr_replicas :
      (id : ℤ) → Assignment.contains p.isr id ≡ true → Assignment.contains p.replicas id ≡ true

contains-id_at :
    (bs : List BrokerInfo) (i : ℕ)
    → i < length bs
    → Assignment.contains (ids bs) (Assignment.id_at bs i) ≡ true
unfolding Assignment.contains Assignment.id_at
contains-id_at [] i h = absurd (omega arith)
contains-id_at (b ∷ bs) zero h = ground (arith, int_eq_refl b.broker_id)
contains-id_at (b ∷ bs) (suc i) h = ground (arith, contains-id_at bs i)

id_at-ne_first :
    (y : ℤ) (bs : List BrokerInfo) (j : ℕ)
    → Assignment.contains (ids bs) y ≡ false
    → j < length bs
    → int_eq y (Assignment.id_at bs j) ≡ false
id_at-ne_first y bs j n h =
    let m = contains-id_at bs j h in ground (arith, int_eq→eq y (Assignment.id_at bs j), m, n)

-- Different places hold different brokers.
id_at-ne :
    (bs : List BrokerInfo) (i j : ℕ)
    → Distinct (ids bs)
    → i < length bs
    → j < length bs
    → i ≢ j
    → int_eq (Assignment.id_at bs i) (Assignment.id_at bs j) ≡ false
unfolding Assignment.id_at
id_at-ne [] i j d hi hj ne = absurd (omega arith)
id_at-ne (b ∷ bs) zero zero d hi hj ne = absurd (ne refl)
id_at-ne (b ∷ bs) zero (suc j) (new, d) hi hj ne = id_at-ne_first b.broker_id bs j new (omega arith)
id_at-ne (b ∷ bs) (suc i) zero (new, d) hi hj ne =
    int_eq_comm _ _ ∙ id_at-ne_first b.broker_id bs i new (omega arith)
id_at-ne (b ∷ bs) (suc i) (suc j) (new, d) hi hj ne =
    id_at-ne bs i j d (omega arith) (omega arith) (λ e. ne (ap suc e))

-- A sum of two places, brought back into the round.
wrapped : (n k : ℕ) → k < n + n → ((k % n ≡ k) × (k < n)) ⊎ ((k % n ≡ k - n) × (n ≤ k))
wrapped n k h = elim (Bool-cases (ltb k n)) [
  | inl y ↦ let lt = ltb→lt k n y in inl (mod-eq_of_lt lt, lt)
  | inr m ↦
      let ge : n ≤ k = ground arith in
      let small : k - n < n = omega arith in inr (mod-eq-sub-mod ge ∙ mod-eq_of_lt small, ge)
]

-- Two places in one round of the brokers.
round_ne : (n leader i j : ℕ) → leader < n → i < j → j < n → (leader + i) % n ≢ (leader + j) % n
round_ne n leader i j hl hi hj e =
    differ (wrapped n (leader + i) (omega arith)) (wrapped n (leader + j) (omega arith))
  where
    differ :
        (((leader + i) % n ≡ leader + i) × (leader + i < n))
          ⊎ (((leader + i) % n ≡ leader + i - n) × (n ≤ leader + i))
        → (((leader + j) % n ≡ leader + j) × (leader + j < n))
          ⊎ (((leader + j) % n ≡ leader + j - n) × (n ≤ leader + j))
        → ⊥
    differ (inl (a, u)) (inl (b, v)) =
        let f : leader + i ≡ leader + j = sym a ∙ e ∙ b in omega arith
    differ (inl (a, u)) (inr (b, v)) =
        let f : leader + i ≡ leader + j - n = sym a ∙ e ∙ b in omega arith
    differ (inr (a, u)) (inl (b, v)) =
        let f : leader + i - n ≡ leader + j = sym a ∙ e ∙ b in omega arith
    differ (inr (a, u)) (inr (b, v)) =
        let f : leader + i - n ≡ leader + j - n = sym a ∙ e ∙ b in omega arith

module _ (bs : List BrokerInfo) (leader : ℕ) (d : Distinct (ids bs))
    (low : leader < length bs) where
  -- A broker before the loop's index is not met again in the round.
  not_met :
      (i j count : ℕ)
      → i < j
      → j + count ≤ length bs
      → Assignment.contains
          (Assignment.replica_ids bs leader j count)
          (Assignment.id_at bs ((leader + i) % length bs))
        ≡ false
  unfolding Assignment.contains Assignment.replica_ids
  not_met i j zero hi hj = refl
  not_met i j (suc count) hi hj =
      let here =
        id_at-ne bs ((leader + j) % length bs) ((leader + i) % length bs) d
          (mod-lt (leader + j) (omega arith)) (mod-lt (leader + i) (omega arith))
          (λ e. round_ne (length bs) leader i j low hi (omega arith) (sym e)) in
      rw here (not_met i (j + 1) count (omega arith) (omega arith))

  pub Distinct-replica_ids :
      (i count : ℕ) → i + count ≤ length bs → Distinct (Assignment.replica_ids bs leader i count)
  unfolding Assignment.replica_ids
  Distinct-replica_ids i zero h = tt
  Distinct-replica_ids i (suc count) h = (
    not_met i (i + 1) count (omega arith) (omega arith),
    Distinct-replica_ids (i + 1) count (omega arith),
  )

  -- Only registered brokers become replicas.
  pub replica_ids_known :
      (i count : ℕ) (id : ℤ)
      → Assignment.contains (Assignment.replica_ids bs leader i count) id ≡ true
      → Assignment.contains (ids bs) id ≡ true
  unfolding Assignment.contains Assignment.replica_ids
  replica_ids_known i zero id h = cc
  replica_ids_known i (suc count) id h =
      let here = contains-id_at bs ((leader + i) % length bs) (mod-lt (leader + i) (omega arith)) in
      ground (
        arith,
        here,
        replica_ids_known (i + 1) count id,
        int_eq→eq (Assignment.id_at bs ((leader + i) % length bs)) id,
      )

pub length-replica_ids :
    (bs : List BrokerInfo) (leader i count : ℕ)
    → length (Assignment.replica_ids bs leader i count) ≡ count
unfolding Assignment.replica_ids
length-replica_ids bs leader i zero = refl
length-replica_ids bs leader i (suc count) =
    omega (arith, length-replica_ids bs leader (i + 1) count)
