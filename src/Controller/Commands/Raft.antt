-- ===== src/Controller/Commands/Raft.antt =====
-- internal/controller/raft_controller.go: raftMetadataFSM.Apply, and the methods it calls.
pub mod Brokers
pub mod Reports
pub mod Agreement
use wave_mq.Prelude.{
  ℕ, zero, suc, ◌+◌, Bool, true, false, ◌&&◌, Option, none, some, List, [], ◌∷◌, ◌++◌, get_elem?,
  if◌then◌else◌, Result, ok, err,
}
use wave_mq.Wire.{Bytes, ℤ, int_eq, string_eq}
use wave_mq.Api.{BrokerInfo, PartitionAssignment, ClusterMetadata, TopicConfig}
use wave_mq.Controller.Assignment.{
  contains, remove, ensure_leader_in_isr, topic_assigned, not_positive, normalize_topic_config,
  sort_brokers, assign_topic_partitions,
}
use wave_mq.Controller.Commands.{
  Refusal, ControllerConfig, invalid_broker_id, topic_required, topic_exists, negative_partitions,
  partition_not_found, not_a_replica, missing_broker_info, unknown_command, is_negative,
  is_partition, caught_up,
}

-- raftCommand; `none` where BrokerInfo is a nil pointer.
pub data RaftCommand : Type 0 where
  cmd_assign_topic : Bytes → TopicConfig → RaftCommand
  cmd_report_replica_progress : Bytes → ℤ → ℤ → ℤ → ℤ → RaftCommand
  cmd_register_broker : Option BrokerInfo → RaftCommand
  cmd_unknown : ℕ → RaftCommand

-- The case cmdAssignTopic; the placement sorts the list of brokers in place.
unfoldable pub apply_assign_topic :
    ControllerConfig → ClusterMetadata → Bytes → TopicConfig → Result Refusal ClusterMetadata
unfolding topic_assigned normalize_topic_config assign_topic_partitions sort_brokers
apply_assign_topic cfg meta [] topic = err topic_required
apply_assign_topic cfg meta (c ∷ cs) topic =
    if topic_assigned meta.partitions (c ∷ cs)
    then err topic_exists
    else if is_negative topic.partitions
    then err negative_partitions
    else let normalized = normalize_topic_config cfg.replication_factor topic in
      let new_parts =
        assign_topic_partitions cfg.replication_factor meta.brokers (c ∷ cs) normalized.partitions
          normalized.replication_factor meta.partitions in
      ok (record meta {
        brokers = sort_brokers meta.brokers;
        partitions = meta.partitions ++ new_parts;
        version = meta.version + 1;
      })

-- The loop that looks for the index of a partition.
unfoldable pub partition_index : Bytes → ℤ → List PartitionAssignment → Option ℕ
partition_index topic part [] = none
partition_index topic part (p ∷ ps) = elim (is_partition topic part p) [
  | true ↦ some 0
  | false ↦ elim (partition_index topic part ps) [ none ↦ none | some i ↦ some (suc i) ]
]

-- partitions[i] = assign
unfoldable pub set_partition :
    ℕ → PartitionAssignment → List PartitionAssignment → List PartitionAssignment
set_partition i assign [] = []
set_partition zero assign (p ∷ ps) = assign ∷ ps
set_partition (suc i) assign (p ∷ ps) = p ∷ set_partition i assign ps

-- The switch on whether the follower is to be in the ISR, and whether it is.
unfoldable pub switch_isr : Bool → Bool → ℤ → ℤ → List ℤ → List ℤ
unfolding remove
switch_isr true false id leader isr = isr ++ (id ∷ [])
switch_isr false true id leader isr = if int_eq id leader then isr else remove isr id
switch_isr true true id leader isr = isr
switch_isr false false id leader isr = isr

-- The replica's report on an assignment that has it.
unfoldable pub raft_progress : ℤ → ℤ → ℤ → PartitionAssignment → PartitionAssignment
unfolding switch_isr contains ensure_leader_in_isr
raft_progress id last high assign =
    let isr' = ensure_leader_in_isr assign.leader assign.isr in
    record assign {
      isr = switch_isr (caught_up last high) (contains isr' id) id assign.leader isr';
    }

-- From the index of the partition on, which is one of the list.
unfoldable pub progress_at :
    ClusterMetadata → ℤ → ℤ → ℤ → ℕ → Option PartitionAssignment → Result Refusal ClusterMetadata
unfolding contains set_partition raft_progress
progress_at meta id last high i none = err partition_not_found
progress_at meta id last high i (some assign) =
    if contains assign.replicas id
    then ok (record meta {
      partitions = set_partition i (raft_progress id last high assign) meta.partitions;
      version = meta.version + 1;
    })
    else err not_a_replica

-- raftMetadataFSM.applyReplicaProgressLocked
unfoldable pub apply_replica_progress :
    ClusterMetadata → Bytes → ℤ → ℤ → ℤ → ℤ → Result Refusal ClusterMetadata
unfolding partition_index progress_at
apply_replica_progress meta topic part id last high =
    elim (partition_index topic part meta.partitions) [
      | none ↦ err partition_not_found
      | some i ↦ progress_at meta id last high i (get_elem? meta.partitions i)
    ]

-- What the loop over the brokers finds: no such broker, one with the same fields, or one to replace.
pub data Replacement : Type 0 where
  absent : Replacement
  unchanged : Replacement
  replaced : List BrokerInfo → Replacement

abbrev pub same_fields : BrokerInfo → BrokerInfo → Bool
same_fields b info =
    string_eq b.host info.host
    && (int_eq b.port info.port
        && (string_eq b.rack info.rack
            && (string_eq b.http_addr info.http_addr
                && string_eq b.controller_addr info.controller_addr)))

abbrev pub behind : BrokerInfo → Replacement → Replacement
behind b absent = absent
behind b unchanged = unchanged
behind b (replaced bs) = replaced (b ∷ bs)

unfoldable pub raft_replace_broker : BrokerInfo → List BrokerInfo → Replacement
raft_replace_broker info [] = absent
raft_replace_broker info (b ∷ bs) = elim (int_eq b.broker_id info.broker_id) [
  | true ↦ if same_fields b info then unchanged else replaced (info ∷ bs)
  | false ↦ behind b (raft_replace_broker info bs)
]

-- What follows the loop.
unfoldable pub store_broker : ClusterMetadata → BrokerInfo → Replacement → ClusterMetadata
unfolding sort_brokers
store_broker meta info unchanged = meta
store_broker meta info (replaced bs) = record meta {
  brokers = sort_brokers bs;
  version = meta.version + 1;
}
store_broker meta info absent = record meta {
  brokers = sort_brokers (meta.brokers ++ (info ∷ []));
  version = meta.version + 1;
}

-- raftMetadataFSM.applyRegisterBrokerLocked
unfoldable pub apply_register_broker : ClusterMetadata → BrokerInfo → Result Refusal ClusterMetadata
unfolding store_broker raft_replace_broker
apply_register_broker meta info =
    if not_positive info.broker_id
    then err invalid_broker_id
    else ok (store_broker meta info (raft_replace_broker info meta.brokers))

-- raftMetadataFSM.Apply on a decoded command: the new metadata, or the error, which leaves them.
unfoldable pub apply :
    ControllerConfig → ClusterMetadata → RaftCommand → Result Refusal ClusterMetadata
unfolding apply_assign_topic apply_replica_progress apply_register_broker
apply cfg meta (cmd_assign_topic name topic) = apply_assign_topic cfg meta name topic
apply cfg meta (cmd_report_replica_progress topic part id last high) =
    apply_replica_progress meta topic part id last high
apply cfg meta (cmd_register_broker none) = err missing_broker_info
apply cfg meta (cmd_register_broker (some info)) = apply_register_broker meta info
apply cfg meta (cmd_unknown n) = err unknown_command
