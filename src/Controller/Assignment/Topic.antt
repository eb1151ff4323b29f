-- ===== src/Controller/Assignment/Topic.antt =====
-- What `assignTopicPartitions` makes of a new topic.
use native.Mathlib.Nat.{mod-lt, mod-eq_of_lt}
use wave_mq.Prelude.{
  ℕ, zero, suc, ◌+◌, ◌%◌, ◌≤◌, ◌<◌, ◌≡◌, refl, sym, ap, ◌∙◌, true, All, List, [], ◌∷◌, length, min,
  arith,
}
use wave_mq.Wire.{Bytes, ℤ, pos, negsuc, pos_part, int_eq_refl}
use wave_mq.Api.{BrokerInfo, PartitionAssignment}
use wave_mq.Controller.Assignment
use wave_mq.Controller.Assignment.{sort_brokers}
use wave_mq.Controller.Assignment.Lists.{
  Distinct, ids, contains-sort_brokers, Distinct-sort_brokers, length-sort_brokers,
}
use wave_mq.Controller.Assignment.Placement.{Placed, Distinct-replica_ids, replica_ids_known}

-- All replicas of a partition are among these brokers.
abbrev pub Known : List ℤ → PartitionAssignment → Type 0
Known known p =
    (id : ℤ) → Assignment.contains p.replicas id ≡ true → Assignment.contains known id ≡ true

pub normalized_positive :
    (default rf : ℤ) → 0 < pos_part (Assignment.normalize_replication_factor default rf)
unfolding Assignment.normalize_replication_factor
normalized_positive default (pos (suc n)) = omega arith
normalized_positive (pos (suc n)) (pos zero) = omega arith
normalized_positive (pos zero) (pos zero) = omega arith
normalized_positive (negsuc n) (pos zero) = omega arith
normalized_positive (pos (suc n)) (negsuc m) = omega arith
normalized_positive (pos zero) (negsuc m) = omega arith
normalized_positive (negsuc n) (negsuc m) = omega arith

module _ (bs : List BrokerInfo) (name : Bytes) (d : Distinct (ids bs)) where
  first_of_replicas :
      (leader count : ℕ)
      → 0 < count
      → (Assignment.first_id (Assignment.replica_ids bs leader 0 count)
          ≡ Assignment.id_at bs ((leader + 0) % length bs))
        × (Assignment.contains
              (Assignment.replica_ids bs leader 0 count)
              (Assignment.first_id (Assignment.replica_ids bs leader 0 count))
            ≡ true)
  unfolding Assignment.first_id Assignment.replica_ids Assignment.contains
  first_of_replicas leader zero h = absurd (omega arith)
  first_of_replicas leader (suc count) h =
      (refl, ground (arith, int_eq_refl (Assignment.id_at bs ((leader + 0) % length bs))))

  module _ (count counter pid : ℕ) (some_replica : 0 < count) (enough : count ≤ length bs) where
    leader_place : counter % length bs < length bs
    leader_place = mod-lt counter (omega arith)

    pub place_partition-Placed : Placed (Assignment.place_partition bs name count counter pid)
    unfolding Assignment.place_partition
    place_partition-Placed = record {
      distinct_replicas = Distinct-replica_ids bs _ d leader_place 0 count (omega arith);
      leader_replica = (first_of_replicas _ count some_replica).1;
      distinct_isr = Distinct-replica_ids bs _ d leader_place 0 count (omega arith);
      leader_in_sync = (first_of_replicas _ count some_replica).1;
      isr_replicas = λ id e. e;
    }

    pub place_partition-Known :
        Known (ids bs) (Assignment.place_partition bs name count counter pid)
    unfolding Assignment.place_partition
    place_partition-Known id e = replica_ids_known bs _ d leader_place 0 count id e

    pub place_partition-leader :
        (Assignment.place_partition bs name count counter pid).leader
        ≡ Assignment.id_at bs (counter % length bs)
    unfolding Assignment.place_partition
    place_partition-leader =
        let plain : counter % length bs + 0 ≡ counter % length bs = omega arith in
        (first_of_replicas _ count some_replica).0
        ∙ ap (Assignment.id_at bs) (ap (λ t. t % length bs) plain ∙ mod-eq_of_lt leader_place)

  module _ (count : ℕ) (some_replica : 0 < count) (enough : count ≤ length bs) where
    All-Placed :
        (counter pid left : ℕ)
        → All
            (λ p. Placed p × Known (ids bs) p)
            (Assignment.place_partitions bs name count counter pid left)
    unfolding Assignment.place_partitions
    All-Placed counter pid zero = tt
    All-Placed counter pid (suc left) = (
      (
        place_partition-Placed count counter pid some_replica enough,
        place_partition-Known count counter pid some_replica enough,
      ),
      All-Placed (counter + 1) (pid + 1) left,
    )

-- How many replicas a partition gets.
abbrev pub replica_count : ℤ → ℤ → List BrokerInfo → ℕ
replica_count default rf bs =
    min (pos_part (Assignment.normalize_replication_factor default rf)) (length bs)

-- The bounds of that number, on the sorted brokers.
replica_count_bounds :
    (default rf : ℤ) (bs : List BrokerInfo)
    → 0 < length bs
    → (0 < replica_count default rf (sort_brokers bs))
      × (replica_count default rf (sort_brokers bs) ≤ length (sort_brokers bs))
replica_count_bounds default rf bs some_broker =
    let h = normalized_positive default rf in
    let k = length-sort_brokers bs in (omega arith, omega arith)

All-sort_brokers :
    (bs : List BrokerInfo) (ps : List PartitionAssignment)
    → All (λ p. Placed p × Known (ids (sort_brokers bs)) p) ps
    → All (λ p. Placed p × Known (ids bs) p) ps
All-sort_brokers bs [] h = tt
All-sort_brokers bs (p ∷ ps) ((hp, k), h) =
    ((hp, λ id e. sym (contains-sort_brokers bs id) ∙ k id e), All-sort_brokers bs ps h)

-- Every partition that is assigned is in order, on registered brokers.
pub assign_topic_partitions-Placed :
    (default : ℤ) (bs : List BrokerInfo) (name : Bytes) (partitions rf : ℤ)
    (existing : List PartitionAssignment)
    → Distinct (ids bs)
    → All
        (λ p. Placed p × Known (ids bs) p)
        (Assignment.assign_topic_partitions default bs name partitions rf existing)
unfolding Assignment.assign_topic_partitions
assign_topic_partitions-Placed default [] name partitions rf existing d = tt
assign_topic_partitions-Placed default (b ∷ bs) name partitions rf existing d =
    let (one, most) = replica_count_bounds default rf (b ∷ bs) (omega arith) in
    All-sort_brokers (b ∷ bs) _ (
      All-Placed (sort_brokers (b ∷ bs)) name (Distinct-sort_brokers (b ∷ bs) d) _ one most
        (length existing) 0 (pos_part partitions))
