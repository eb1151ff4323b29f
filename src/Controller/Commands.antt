-- ===== src/Controller/Commands.antt =====
-- internal/controller/controller.go: the methods of SingleNodeController.
pub mod Replicas
pub mod Update
pub mod Invariant
pub mod Reachable
pub mod Progress
pub mod Raft
use wave_mq.Prelude.{
  ℕ, zero, suc, ◌+◌, Bool, true, false, ◌&&◌, not, Option, none, some, List, [], ◌∷◌, ◌++◌,
  if◌then◌else◌, Result, ok, err,
}
use wave_mq.Wire.{Bytes, ℤ, pos, negsuc, int_eq, int_ltb, string_eq}
use wave_mq.Api.{BrokerInfo, PartitionAssignment, ClusterMetadata, TopicConfig}
use wave_mq.Controller.Assignment.{
  contains, remove, ensure_leader_in_isr, broker_present, brokers_from_ints, broker_info_equal,
  topic_assigned, not_positive, normalize_topic_config, sort_brokers, assign_topic_partitions,
}

-- The errors of the commands.
pub data Refusal : Type 0 where
  invalid_broker_id wrong_broker not_in_cluster : Refusal
  topic_required topic_exists negative_partitions : Refusal
  partition_not_found not_a_replica : Refusal
  missing_broker_info unknown_command bad_command : Refusal

-- The part of api.BrokerConfig that the controllers read.
pub record ControllerConfig : Type 0 where
  pub broker_id : ℤ
  pub replication_factor : ℤ
  pub static_brokers : Option (List BrokerInfo)

-- The loop that replaces the info of a known broker: none if it is not known, and otherwise whether
-- anything changed, with the list.
unfoldable pub replace_broker : BrokerInfo → List BrokerInfo → Option (Bool × List BrokerInfo)
replace_broker info [] = none
replace_broker info (b ∷ bs) = elim (int_eq b.broker_id info.broker_id) [
  | true ↦ if broker_info_equal b info then some (false, b ∷ bs) else some (true, info ∷ bs)
  | false ↦ elim (replace_broker info bs) [
    | none ↦ none
    | some (changed, bs') ↦ some (changed, b ∷ bs')
  ]
]

-- What RegisterBroker does with a broker that it accepts.
unfoldable pub with_broker :
    ClusterMetadata → BrokerInfo → Option (Bool × List BrokerInfo) → ClusterMetadata
with_broker meta info none = record meta {
  brokers = sort_brokers (meta.brokers ++ (info ∷ []));
  version = meta.version + 1;
}
with_broker meta info (some (false, bs)) = meta
with_broker meta info (some (true, bs)) = record meta {
  brokers = sort_brokers bs;
  version = meta.version + 1;
}

-- The guards of SingleNodeController.RegisterBroker that read the configuration.
unfoldable pub refused_broker : ControllerConfig → BrokerInfo → Option Refusal
refused_broker cfg info =
    if not_positive info.broker_id then some invalid_broker_id else elim cfg.static_brokers [
      | none ↦ if int_eq info.broker_id cfg.broker_id then none else some wrong_broker
      | some bs ↦ if broker_present info.broker_id bs then none else some not_in_cluster
    ]

-- SingleNodeController.RegisterBroker
unfoldable pub register_broker :
    ControllerConfig → ClusterMetadata → BrokerInfo → Result Refusal ClusterMetadata
unfolding with_broker replace_broker refused_broker
register_broker cfg meta info = elim (refused_broker cfg info) [
  | some e ↦ err e
  | none ↦ ok (with_broker meta info (replace_broker info meta.brokers))
]

abbrev pub is_negative : ℤ → Bool
is_negative (pos n) = false
is_negative (negsuc n) = true

-- The new partitions behind those that are there; the placement sorts the list of brokers in place.
unfoldable pub with_topic :
    ControllerConfig → ClusterMetadata → Bytes → TopicConfig → ClusterMetadata
unfolding sort_brokers assign_topic_partitions
with_topic cfg meta name topic = record meta {
  brokers = sort_brokers meta.brokers;
  partitions =
      meta.partitions
      ++ assign_topic_partitions cfg.replication_factor meta.brokers name topic.partitions
          topic.replication_factor meta.partitions;
  version = meta.version + 1;
}

-- AssignTopic: the tests in the order of the source
unfoldable pub assign_topic :
    ControllerConfig → ClusterMetadata → Bytes → TopicConfig → Result Refusal ClusterMetadata
unfolding with_topic normalize_topic_config topic_assigned
assign_topic cfg meta [] topic = err topic_required
assign_topic cfg meta (c ∷ cs) topic =
    if topic_assigned meta.partitions (c ∷ cs)
    then err topic_exists
    else if is_negative topic.partitions
    then err negative_partitions
    else ok (with_topic cfg meta (c ∷ cs) (normalize_topic_config cfg.replication_factor topic))

-- Whether a follower is in sync decides whether it belongs to the ISR; a leader always does.
unfoldable pub update_isr : PartitionAssignment → ℤ → Bool → PartitionAssignment
unfolding contains remove ensure_leader_in_isr
update_isr assign id should_be_isr =
    let isr' = ensure_leader_in_isr assign.leader assign.isr in
    let in_isr = contains isr' id in
    if should_be_isr && not in_isr
    then record assign { isr = isr' ++ (id ∷ []) }
    else if not should_be_isr && (in_isr && not (int_eq id assign.leader))
    then record assign { isr = remove isr' id }
    else record assign { isr = isr' }

abbrev pub is_partition : Bytes → ℤ → PartitionAssignment → Bool
is_partition topic part p = string_eq p.topic topic && int_eq p.partition part

-- The first assignment of the partition is replaced by what `f` makes of it, unless that fails.
unfoldable pub update_partition :
    Bytes
    → ℤ
    → (PartitionAssignment → Result Refusal PartitionAssignment)
    → List PartitionAssignment
    → Result Refusal (List PartitionAssignment)
update_partition topic part f [] = err partition_not_found
update_partition topic part f (p ∷ ps) = elim (is_partition topic part p) [
  | true ↦ elim (f p) [ ok p' ↦ ok (p' ∷ ps) | err e ↦ err e ]
  | false ↦ elim (update_partition topic part f ps) [ ok ps' ↦ ok (p ∷ ps') | err e ↦ err e ]
]

-- lastOffset >= leaderHighWatermark
abbrev pub caught_up : ℤ → ℤ → Bool
caught_up last high = not (int_ltb last high)

unfoldable pub single_progress :
    ℤ → ℤ → ℤ → PartitionAssignment → Result Refusal PartitionAssignment
unfolding update_isr broker_present brokers_from_ints
single_progress id last high assign =
    if broker_present id (brokers_from_ints assign.replicas)
    then ok (update_isr assign id (caught_up last high))
    else err not_a_replica

unfoldable pub with_partitions :
    ClusterMetadata → Result Refusal (List PartitionAssignment) → Result Refusal ClusterMetadata
with_partitions meta (ok ps) = ok (record meta { partitions = ps; version = meta.version + 1 })
with_partitions meta (err e) = err e

-- SingleNodeController.ReportReplicaProgress
unfoldable pub report_replica_progress :
    ClusterMetadata → Bytes → ℤ → ℤ → ℤ → ℤ → Result Refusal ClusterMetadata
unfolding with_partitions update_partition single_progress
report_replica_progress meta topic part id last high =
    with_partitions meta
      (update_partition topic part (single_progress id last high) meta.partitions)
