-- ===== src/Controller/Assignment.antt =====
-- internal/controller/controller.go: the placement of partitions on brokers, and its helpers.
pub mod Lists
pub mod Placement
pub mod Topic
use mathlib.Core.List.{map}
use wave_mq.Prelude.{
  ℕ, zero, suc, ◌+◌, ◌%◌, Bool, true, false, ◌&&◌, Option, none, some, List, [], ◌∷◌, ◌++◌, length,
  get_elem?, min, leb, if◌then◌else◌,
}
use wave_mq.Wire.{Bytes, ℤ, pos, negsuc, pos_part, int_eq, int_ltb, string_eq}
use wave_mq.Api.{BrokerInfo, PartitionAssignment, TopicConfig}

unfoldable pub contains : List ℤ → ℤ → Bool
contains [] id = false
contains (v ∷ vs) id = if int_eq v id then true else contains vs id

unfoldable pub remove : List ℤ → ℤ → List ℤ
remove [] id = []
remove (v ∷ vs) id = let rest = remove vs id in if int_eq v id then rest else v ∷ rest

unfoldable pub ensure_leader_in_isr : ℤ → List ℤ → List ℤ
unfolding contains
ensure_leader_in_isr leader isr = if contains isr leader then isr else isr ++ (leader ∷ [])

unfoldable pub broker_present : ℤ → List BrokerInfo → Bool
broker_present id [] = false
broker_present id (b ∷ bs) = if int_eq b.broker_id id then true else broker_present id bs

-- brokersFromInts: the other fields are Go's zero values.
unfoldable pub brokers_from_ints : List ℤ → List BrokerInfo
brokers_from_ints [] = []
brokers_from_ints (id ∷ ids) =
    record {
      broker_id = id;
      host = [];
      port = pos 0;
      rack = [];
      http_addr = [];
      controller_addr = [];
    }
    ∷ brokers_from_ints ids

unfoldable pub broker_info_equal : BrokerInfo → BrokerInfo → Bool
broker_info_equal a b =
    int_eq a.broker_id b.broker_id
    && (string_eq a.host b.host
        && (int_eq a.port b.port
            && (string_eq a.rack b.rack
                && (string_eq a.http_addr b.http_addr
                    && string_eq a.controller_addr b.controller_addr))))

unfoldable pub topic_assigned : List PartitionAssignment → Bytes → Bool
topic_assigned [] name = false
topic_assigned (p ∷ ps) name = if string_eq p.topic name then true else topic_assigned ps name

-- z <= 0
abbrev pub not_positive : ℤ → Bool
not_positive (pos zero) = true
not_positive (pos (suc n)) = false
not_positive (negsuc n) = true

unfoldable pub normalize_replication_factor : ℤ → ℤ → ℤ
normalize_replication_factor default rf =
    let rf' = if not_positive rf then default else rf in if not_positive rf' then pos 1 else rf'

unfoldable pub normalize_topic_config : ℤ → TopicConfig → TopicConfig
unfolding normalize_replication_factor
normalize_topic_config default cfg = record cfg {
  partitions = if not_positive cfg.partitions then pos 1 else cfg.partitions;
  replication_factor = normalize_replication_factor default cfg.replication_factor;
}

-- sort.Slice by BrokerID. The order of brokers with one id, which Go leaves open, is kept.
unfoldable pub insert_broker : BrokerInfo → List BrokerInfo → List BrokerInfo
insert_broker b [] = b ∷ []
insert_broker b (c ∷ cs) =
    let rest = insert_broker b cs in
    if int_ltb c.broker_id b.broker_id then c ∷ rest else b ∷ (c ∷ cs)

unfoldable pub sort_brokers : List BrokerInfo → List BrokerInfo
unfolding insert_broker
sort_brokers [] = []
sort_brokers (b ∷ bs) = insert_broker b (sort_brokers bs)

-- brokers[i].BrokerID, where `i` is a remainder by the length of a list that is not empty
unfoldable pub id_at : List BrokerInfo → ℕ → ℤ
id_at [] i = pos 0
id_at (b ∷ bs) zero = b.broker_id
id_at (b ∷ bs) (suc i) = id_at bs i

-- The loop over the `count` replicas of a partition, from the index `i`.
unfoldable pub replica_ids : List BrokerInfo → ℕ → ℕ → ℕ → List ℤ
unfolding id_at
replica_ids brokers leader i zero = []
replica_ids brokers leader i (suc count) =
    id_at brokers ((leader + i) % length brokers) ∷ replica_ids brokers leader (i + 1) count

-- replicas[0]; a partition has at least one replica.
unfoldable pub first_id : List ℤ → ℤ
first_id [] = pos 0
first_id (id ∷ ids) = id

-- One partition, whose leader stands at `counter` in the round of the brokers.
unfoldable pub place_partition : List BrokerInfo → Bytes → ℕ → ℕ → ℕ → PartitionAssignment
unfolding replica_ids first_id
place_partition brokers name replica_count counter pid =
    let replicas' = replica_ids brokers (counter % length brokers) 0 replica_count in
    record {
      topic = name;
      partition = pos pid;
      replicas = replicas';
      isr = replicas';
      leader = first_id replicas';
      leader_epoch = pos 0;
    }

-- The loop over the partitions, from `pid`.
unfoldable pub place_partitions : List BrokerInfo → Bytes → ℕ → ℕ → ℕ → ℕ → List PartitionAssignment
unfolding place_partition
place_partitions brokers name replica_count counter pid zero = []
place_partitions brokers name replica_count counter pid (suc left) =
    place_partition brokers name replica_count counter pid
    ∷ place_partitions brokers name replica_count (counter + 1) (pid + 1) left

-- `assignTopicPartitions`; `default` is the configured factor. The sort is in place, so that the list of
-- the caller is sorted behind the call. A negative number of partitions counts as none.
unfoldable pub assign_topic_partitions :
    ℤ → List BrokerInfo → Bytes → ℤ → ℤ → List PartitionAssignment → List PartitionAssignment
unfolding place_partitions normalize_replication_factor sort_brokers
assign_topic_partitions default [] name partitions rf existing = []
assign_topic_partitions default (b ∷ bs) name partitions rf existing =
    let sorted = sort_brokers (b ∷ bs) in
    let replica_count = min (pos_part (normalize_replication_factor default rf)) (length sorted) in
    place_partitions sorted name replica_count (length existing) 0 (pos_part partitions)
