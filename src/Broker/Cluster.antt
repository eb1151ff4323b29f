-- ===== src/Broker/Cluster.antt =====
-- internal/broker/broker.go: what a broker makes of the metadata of the cluster.
use wave_mq.Prelude.{
  ℕ, ◌+◌, ◌%◌, ◌^◌, ◌≡◌, refl, Bool, true, false, ◌&&◌, ◌||◌, not, Option, none, some, List, [],
  ◌∷◌, map, length, ◌==◌, if◌then◌else◌,
}
use wave_mq.Wire.{
  Bytes, ℤ, pos, int_eq, int_ltb, string_eq, to_pattern, of_pattern, i32_half, i64_half,
}
use wave_mq.Api.{
  PartitionAssignment, PartitionMetadata, ClusterMetadata, role_leader, role_follower,
}
use wave_mq.Metadata.Event.{ReplicaSpec, PartitionSpec, CreateTopicEvent}
use wave_mq.Controller.Assignment.{contains}
use wave_mq.Broker.{Map, Broker, Partition, Topic}
use wave_mq.Broker.Maps.{find, put, string_key, int_key}
use wave_mq.Broker.Produce.{is_clustered, is_leader_role}

-- Go's int32(z).
unfoldable pub to_int32 : ℤ → ℤ
to_int32 z = of_pattern i32_half (to_pattern i64_half z % 2 ^ 32)

-- assign.Leader == BrokerID || containsInt(assign.Replicas, BrokerID)
unfoldable pub is_served : ℤ → PartitionAssignment → Bool
unfolding contains
is_served id p = int_eq p.leader id || contains p.replicas id

unfoldable pub replica_spec : PartitionAssignment → ℤ → ReplicaSpec
unfolding to_int32
replica_spec p id = record {
  broker_id = to_int32 id;
  role = if int_eq id p.leader then role_leader else role_follower;
  leader_epoch = p.leader_epoch;
}

-- partitionSpecFromAssignment
unfoldable pub partition_spec_from_assignment : PartitionAssignment → PartitionSpec
unfolding replica_spec
partition_spec_from_assignment p = record {
  id = to_int32 p.partition;
  replicas = map (replica_spec p) p.replicas;
}

-- assignmentsForBroker, from the map that was filled so far
unfoldable pub assignments_for_broker :
    Bytes → ℤ → List PartitionAssignment → Map ℤ PartitionAssignment → Map ℤ PartitionAssignment
unfolding is_served
assignments_for_broker topic id [] m = m
assignments_for_broker topic id (p ∷ ps) m =
    assignments_for_broker topic id ps
      (if string_eq p.topic topic && is_served id p then put int_key p.partition p m else m)

-- upsertPartitionSpec
unfoldable pub upsert_partition_spec : List PartitionSpec → PartitionSpec → List PartitionSpec
upsert_partition_spec [] ps = ps ∷ []
upsert_partition_spec (q ∷ qs) ps =
    if int_eq q.id ps.id then ps ∷ qs else q ∷ upsert_partition_spec qs ps

abbrev new_state : Bytes → CreateTopicEvent
new_state name' = record {
  name = name';
  num_partitions = pos 0;
  replication_factor = pos 0;
  retention_bytes = pos 0;
  retention_time = pos 0;
  partitions = [];
}

-- The state of a topic, where it has a name, else a new one. metadata.TopicState has the fields of the
-- event.
unfoldable pub or_new_state : Bytes → Option CreateTopicEvent → CreateTopicEvent
or_new_state name' none = new_state name'
or_new_state name' (some s) = if length s.name == 0 then new_state name' else s

unfoldable pub with_spec : PartitionSpec → CreateTopicEvent → CreateTopicEvent
unfolding upsert_partition_spec
with_spec ps s =
    let parts = upsert_partition_spec s.partitions ps in
    let count = pos (length ps.replicas) in
    record s {
      partitions = parts;
      num_partitions = pos (length parts);
      replication_factor =
          if int_ltb s.replication_factor count then count else s.replication_factor;
    }

abbrev or_no_assignments : Option (Map ℤ PartitionAssignment) → Map ℤ PartitionAssignment
or_no_assignments none = []
or_no_assignments (some m) = m

-- The loop of `topicsFromClusterMetadata`: the topics and the assignments so far.
unfoldable pub topics_from :
    ℤ
    → List PartitionAssignment
    → Map Bytes CreateTopicEvent × Map Bytes (Map ℤ PartitionAssignment)
    → Map Bytes CreateTopicEvent × Map Bytes (Map ℤ PartitionAssignment)
unfolding is_served partition_spec_from_assignment with_spec or_new_state
topics_from id [] acc = acc
topics_from id (p ∷ ps) (topics, assignments) = topics_from id ps (
    if is_served id p
    then (
      put string_key p.topic
          (with_spec (partition_spec_from_assignment p)
            (or_new_state p.topic (find string_key p.topic topics)))
          topics,
      put string_key p.topic
          (put int_key p.partition p (or_no_assignments (find string_key p.topic assignments)))
          assignments,
    )
    else (topics, assignments))

-- topicsFromClusterMetadata
unfoldable pub topics_from_cluster_metadata :
    ClusterMetadata → ℤ → Map Bytes CreateTopicEvent × Map Bytes (Map ℤ PartitionAssignment)
unfolding topics_from
topics_from_cluster_metadata meta id = topics_from id meta.partitions ([], [])

-- replicaForPartition
unfoldable pub own_replica : ℤ → List ReplicaSpec → Option ReplicaSpec
own_replica id [] = none
own_replica id (r ∷ rs) = if int_eq r.broker_id id then some r else own_replica id rs

abbrev first_or : ReplicaSpec → List ReplicaSpec → ReplicaSpec
first_or default [] = default
first_or default (r ∷ rs) = r

unfoldable pub replica_for_partition : ℤ → PartitionSpec → ReplicaSpec
unfolding own_replica to_int32
replica_for_partition id ps = elim (own_replica id ps.replicas) [
  | some r ↦ r
  | none ↦
      first_or (record { broker_id = to_int32 id; role = role_leader; leader_epoch = pos 0 })
        ps.replicas
]

-- One partition in `updatePartitionMetadata`.
unfoldable pub updated_metadata : ℤ → PartitionAssignment → PartitionMetadata → PartitionMetadata
updated_metadata id assign meta = record meta {
  replica = record (meta.replica) {
    role = if int_eq assign.leader id then role_leader else role_follower;
    leader_epoch =
        if int_eq assign.leader_epoch (pos 0)
        then meta.replica.leader_epoch
        else assign.leader_epoch;
  };
  leader = if int_eq assign.leader (pos 0) then meta.leader else assign.leader;
  replicas = if length assign.replicas == 0 then meta.replicas else assign.replicas;
  isr = if length assign.isr == 0 then meta.isr else assign.isr;
}

unfoldable pub update_partition_with : ℤ → Option PartitionAssignment → Partition → Partition
unfolding updated_metadata
update_partition_with id none p = p
update_partition_with id (some assign) p = record p {
  metadata = updated_metadata id assign p.metadata;
}

unfoldable pub update_partitions : ℤ → Map ℤ PartitionAssignment → Map ℤ Partition → Map ℤ Partition
unfolding update_partition_with
update_partitions id assignments [] = []
update_partitions id assignments ((pid, p) ∷ ps) =
    (pid, update_partition_with id (find int_key pid assignments) p)
    ∷ update_partitions id assignments ps

unfoldable pub update_topics :
    ℤ → Map Bytes (Map ℤ PartitionAssignment) → Map Bytes Topic → Map Bytes Topic
unfolding update_partitions
update_topics id assignments [] = []
update_topics id assignments ((name', t) ∷ ts) =
    (
      name',
      record t {
        partitions =
            update_partitions id (or_no_assignments (find string_key name' assignments))
              t.partitions;
      },
    )
    ∷ update_topics id assignments ts

-- updatePartitionMetadata
unfoldable pub update_partition_metadata : Map Bytes (Map ℤ PartitionAssignment) → Broker → Broker
unfolding update_topics
update_partition_metadata assignments b = record b {
  topics = update_topics b.broker_id assignments b.topics;
}

abbrev says_other : ℤ → Option PartitionAssignment → Bool
says_other id none = false
says_other id (some assign) = not (int_eq assign.leader id)

-- isLeaderPartition
unfoldable pub is_leader_partition : Map ℤ PartitionAssignment → ℤ → Partition → Broker → Bool
unfolding is_clustered is_leader_role
is_leader_partition assignments pid p b =
    if says_other b.broker_id (find int_key pid assignments)
    then false
    else (not (is_clustered b) || is_leader_role p.metadata.replica.role)

-- leaderPartitionCount
unfoldable pub leader_partition_count : Map ℤ PartitionAssignment → Map ℤ Partition → Broker → ℕ
unfolding is_leader_partition
leader_partition_count assignments [] b = 0
leader_partition_count assignments ((pid, p) ∷ ps) b =
    let rest = leader_partition_count assignments ps b in
    if is_leader_partition assignments pid p b then rest + 1 else rest

-- A partition that was updated is led here just if its assignment names this broker, in a cluster.
updated-leads :
    (id : ℤ) (assign : PartitionAssignment) (meta : PartitionMetadata)
    → is_leader_role (updated_metadata id assign meta).replica.role ≡ int_eq assign.leader id
unfolding updated_metadata is_leader_role
updated-leads id assign meta = split (int_eq assign.leader id)
  where
    split : (c : Bool) → is_leader_role (if c then role_leader else role_follower) ≡ c
    split true = refl
    split false = refl
