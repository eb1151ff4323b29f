-- ===== src/Controller/Bootstrap.antt =====
-- internal/controller/controller.go: NewSingleNodeController, with the topics found at the start.
use wave_mq.Prelude.{
  All, All-append, Option, none, some, List, [], ◌∷◌, ◌++◌, length, if◌then◌else◌, Result, ok, err,
}
use wave_mq.Wire.{Bytes, ℤ, pos, int_eq, int_ltb}
use wave_mq.Api.{BrokerInfo, PartitionAssignment, ClusterMetadata}
use wave_mq.Metadata.Event.{ReplicaSpec, PartitionSpec, CreateTopicEvent}
use wave_mq.Controller.Assignment.{
  broker_present, sort_brokers, normalize_replication_factor, assign_topic_partitions,
}
use wave_mq.Controller.Assignment.Lists.{Distinct, ids, Distinct-sort_brokers}
use wave_mq.Controller.Assignment.Placement.{Placed}
use wave_mq.Controller.Assignment.Topic.{Known, assign_topic_partitions-Placed}
use wave_mq.Controller.Commands.{ControllerConfig}
use wave_mq.Controller.Commands.Invariant.{WellFormed}

-- The rest of api.BrokerConfig that the controller reads at the start.
pub record StartConfig : Type 0 where
  pub base : ControllerConfig
  pub advertised_addr : Bytes
  pub binary_addr : Bytes
  pub cluster_id : Bytes
  pub static_cluster_id : Bytes

pub data StartError : Type 0 where
  no_brokers_listed local_broker_missing : StartError

abbrev pub or_else : Bytes → Bytes → Bytes
or_else [] other = other
or_else (c ∷ cs) other = c ∷ cs

-- The static cluster, once it is known to list the local broker.
unfoldable pub static_cluster :
    StartConfig → List BrokerInfo → Result StartError (List BrokerInfo × Bytes)
static_cluster cfg [] = err no_brokers_listed
static_cluster cfg (b ∷ bs) =
    if broker_present cfg.base.broker_id (b ∷ bs)
    then ok (b ∷ bs, or_else cfg.static_cluster_id cfg.cluster_id)
    else err local_broker_missing

unfoldable pub resolve_brokers : StartConfig → Result StartError (List BrokerInfo × Bytes)
unfolding static_cluster
resolve_brokers cfg = elim (cfg.base.static_brokers) [
  | none ↦ ok (
    record {
      broker_id = cfg.base.broker_id;
      host = or_else cfg.advertised_addr cfg.binary_addr;
      port = pos 0;
      rack = [];
      http_addr = [];
      controller_addr = [];
    }
        ∷ [],
    cfg.cluster_id,
  )
  | some bs ↦ static_cluster cfg bs
]

unfoldable pub own_epoch : ℤ → List ReplicaSpec → Option ℤ
own_epoch id [] = none
own_epoch id (r ∷ rs) = if int_eq r.broker_id id then some r.leader_epoch else own_epoch id rs

abbrev pub first_epoch : List ReplicaSpec → ℤ
first_epoch [] = pos 0
first_epoch (r ∷ rs) = r.leader_epoch

unfoldable pub replica_epoch : ℤ → List ReplicaSpec → ℤ
unfolding own_epoch
replica_epoch id replicas' = elim (own_epoch id replicas') [
  | some e ↦ e
  | none ↦ first_epoch replicas'
]

-- sort.Slice of the partitions by their ids
unfoldable pub insert_spec : PartitionSpec → List PartitionSpec → List PartitionSpec
insert_spec p [] = p ∷ []
insert_spec p (q ∷ qs) =
    let rest = insert_spec p qs in if int_ltb q.id p.id then q ∷ rest else p ∷ (q ∷ qs)

unfoldable pub sort_specs : List PartitionSpec → List PartitionSpec
unfolding insert_spec
sort_specs [] = []
sort_specs (p ∷ ps) = insert_spec p (sort_specs ps)

-- The loop that gives each assignment the id and the epoch of the partition it is for.
unfoldable pub restore_ids :
    List PartitionAssignment → List PartitionSpec → List PartitionAssignment
unfolding replica_epoch
restore_ids [] parts = []
restore_ids (a ∷ as') [] = a ∷ as'
restore_ids (a ∷ as') (p ∷ ps) =
    record a { partition = p.id; leader_epoch = replica_epoch a.leader p.replicas }
    ∷ restore_ids as' ps

-- The assignments of one topic, beside those that are made.
unfoldable pub topic_assignments :
    ℤ → List BrokerInfo → CreateTopicEvent → List PartitionAssignment → List PartitionAssignment
unfolding restore_ids sort_specs
topic_assignments default brokers state res =
    let parts = sort_specs state.partitions in
    restore_ids
      (assign_topic_partitions default brokers state.name (pos (length parts))
        (normalize_replication_factor default state.replication_factor) res)
      parts

-- `buildAssignments` on sorted brokers, with the topics in the order of their sorted names.
unfoldable pub build_assignments :
    ℤ
    → List BrokerInfo
    → List CreateTopicEvent
    → List PartitionAssignment
    → List PartitionAssignment
unfolding topic_assignments
build_assignments default brokers [] res = res
build_assignments default brokers (t ∷ ts) res =
    build_assignments default brokers ts (res ++ topic_assignments default brokers t res)

abbrev pub start_metadata :
    StartConfig → List CreateTopicEvent → List BrokerInfo × Bytes → ClusterMetadata
start_metadata cfg topics (bs, cluster) =
    let brokers' = sort_brokers bs in
    record {
      cluster_id = cluster;
      version = 1;
      brokers = brokers';
      partitions = build_assignments cfg.base.replication_factor brokers' topics [];
    }

-- NewSingleNodeController, as the metadata that it begins with
unfoldable pub new_controller :
    StartConfig → List CreateTopicEvent → Result StartError ClusterMetadata
unfolding resolve_brokers build_assignments sort_brokers
new_controller cfg topics = elim (resolve_brokers cfg) [
  | ok found ↦ ok (start_metadata cfg topics found)
  | err e ↦ err e
]

module _ (known : List ℤ) where
  All-restore_ids :
      (res : List PartitionAssignment) (parts : List PartitionSpec)
      → All (λ p. Placed p × Known known p) res
      → All (λ p. Placed p × Known known p) (restore_ids res parts)
  unfolding restore_ids
  All-restore_ids [] parts h = tt
  All-restore_ids (a ∷ as') [] h = h
  All-restore_ids (a ∷ as') (p ∷ ps) ((hp, k), h) = (
    (
      record {
        distinct_replicas = hp.distinct_replicas;
        leader_replica = hp.leader_replica;
        distinct_isr = hp.distinct_isr;
        leader_in_sync = hp.leader_in_sync;
        isr_replicas = hp.isr_replicas;
      },
      k,
    ),
    All-restore_ids as' ps h,
  )

All-build_assignments :
    (default : ℤ) (bs : List BrokerInfo) (topics : List CreateTopicEvent)
    (res : List PartitionAssignment)
    → Distinct (ids bs)
    → All (λ p. Placed p × Known (ids bs) p) res
    → All (λ p. Placed p × Known (ids bs) p) (build_assignments default bs topics res)
unfolding build_assignments topic_assignments
All-build_assignments default bs [] res d h = h
All-build_assignments default bs (t ∷ ts) res d h = All-build_assignments default bs ts _ d (
    All-append (λ p. Placed p × Known (ids bs) p) res _ h
      (All-restore_ids (ids bs) _ (sort_specs t.partitions)
        (assign_topic_partitions-Placed default bs t.name _ _ res d)))

-- A controller starts in order, where the brokers that are configured have different ids.
pub start_metadata-WellFormed :
    (cfg : StartConfig) (topics : List CreateTopicEvent) (bs : List BrokerInfo) (cluster : Bytes)
    → Distinct (ids bs)
    → WellFormed (start_metadata cfg topics (bs, cluster))
start_metadata-WellFormed cfg topics bs cluster d = record {
  distinct_brokers = Distinct-sort_brokers bs d;
  placed =
      All-build_assignments cfg.base.replication_factor (sort_brokers bs) topics []
        (Distinct-sort_brokers bs d) tt;
}
