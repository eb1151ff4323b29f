-- ===== src/Controller/Examples.antt =====
-- Runs of internal/controller on a small cluster, and its theorems at concrete inputs.
use wave_mq.Prelude.{
  ℕ, ◌+◌, ◌≤◌, ◌≡◌, refl, true, false, ◌||◌, Option, none, some, List, [], ◌∷◌, Result, ok, err,
  if◌then◌else◌,
}
use wave_mq.Wire.{Bytes, pos, negsuc, int_eq, int_ltb, string_eq}
use wave_mq.Api.{BrokerInfo, PartitionAssignment, ClusterMetadata, TopicConfig}
use wave_mq.Controller.Assignment.{contains, broker_present, place_partition}
use wave_mq.Controller.Assignment.Lists.{Distinct, ids}
use wave_mq.Controller.Commands.{
  Refusal, is_partition, assign_topic, report_replica_progress, caught_up,
}
use wave_mq.Controller.Commands.Invariant.{WellFormed, Keeps}
use wave_mq.Controller.Commands.Reachable.{start, next, assigns, reports, Reachable-WellFormed}
use wave_mq.Controller.Commands.Progress.{find_partition, report_replica_progress_lem}
use wave_mq.Controller.Bootstrap.{
  StartConfig, start_metadata, start_metadata-WellFormed, new_controller, build_assignments,
}

abbrev broker_of : ℕ → BrokerInfo
broker_of n = record {
  broker_id = pos n;
  host = [];
  port = pos 0;
  rack = [];
  http_addr = [];
  controller_addr = [];
}

abbrev three_brokers : List BrokerInfo
three_brokers = broker_of 3 ∷ (broker_of 1 ∷ (broker_of 2 ∷ []))

abbrev topic_name : Bytes
topic_name = 116 ∷ []

three-Distinct : Distinct (ids three_brokers)
unfolding contains int_eq
three-Distinct = (refl, (refl, (refl, tt)))

abbrev config : StartConfig
config = record {
  base = record {
    broker_id = pos 1;
    replication_factor = pos 2;
    static_brokers = some three_brokers;
  };
  advertised_addr = [];
  binary_addr = [];
  cluster_id = 99 ∷ [];
  static_cluster_id = [];
}

abbrev meta_start : ClusterMetadata
meta_start = start_metadata config [] (three_brokers, 99 ∷ [])

started : new_controller config [] ≡ ok meta_start
unfolding new_controller int_eq broker_present
started = refl

abbrev small_topic : TopicConfig
small_topic = record {
  partitions = pos 2;
  replication_factor = pos 2;
  retention_bytes = negsuc 0;
  retention_time = pos 0;
}

meta_of : Result Refusal ClusterMetadata → ClusterMetadata
meta_of (ok m) = m
meta_of (err e) = meta_start

meta_topic : ClusterMetadata
unfolding meta_of assign_topic int_eq int_ltb string_eq build_assignments
meta_topic = meta_of (assign_topic config.base meta_start topic_name small_topic)

topic_created : assign_topic config.base meta_start topic_name small_topic ≡ ok meta_topic
unfolding meta_topic build_assignments
topic_created = refl

-- Broker 2 falls behind, as a follower of the first partition.
meta_behind : ClusterMetadata
unfolding meta_of meta_topic report_replica_progress
meta_behind =
    meta_of (report_replica_progress meta_topic topic_name (pos 0) (pos 2) (pos 3) (pos 5))

fell_behind :
    report_replica_progress meta_topic topic_name (pos 0) (pos 2) (pos 3) (pos 5) ≡ ok meta_behind
unfolding meta_behind build_assignments
fell_behind = refl

Reachable-WellFormed_example :
    WellFormed meta_behind
    × Keeps (ids meta_start.brokers) (ids meta_behind.brokers)
    × (meta_start.version ≤ meta_behind.version)
Reachable-WellFormed_example =
    Reachable-WellFormed config.base meta_start meta_behind
      (start_metadata-WellFormed config [] three_brokers (99 ∷ []) three-Distinct)
      (next (next start (assigns topic_name small_topic topic_created))
        (reports topic_name (pos 0) (pos 2) (pos 3) (pos 5) fell_behind))

meta_topic-WellFormed : WellFormed meta_topic
meta_topic-WellFormed =
    (Reachable-WellFormed config.base meta_start meta_topic
      (start_metadata-WellFormed config [] three_brokers (99 ∷ []) three-Distinct)
      (next start (assigns topic_name small_topic topic_created))).0

partition_of : Option PartitionAssignment → PartitionAssignment
partition_of (some p) = p
partition_of none = place_partition three_brokers topic_name 2 0 0

first_partition : PartitionAssignment
unfolding partition_of find_partition meta_topic
first_partition = partition_of (find_partition topic_name (pos 0) meta_topic.partitions)

first_found : find_partition topic_name (pos 0) meta_topic.partitions ≡ some first_partition
unfolding first_partition build_assignments
first_found = refl

is_replica : contains first_partition.replicas (pos 2) ≡ true
unfolding first_partition contains build_assignments
is_replica = refl

another : is_partition (120 ∷ []) (pos 0) first_partition ≡ false
unfolding first_partition build_assignments
another = refl

report_replica_progress_example :
    (meta' : ClusterMetadata) × (p' : PartitionAssignment) × (report_replica_progress meta_topic
        topic_name
        (pos 0)
        (pos 2)
        (pos 3)
        (pos 5)
      ≡ ok meta')
    × (meta'.version ≡ meta_topic.version + 1)
    × (find_partition topic_name (pos 0) meta'.partitions ≡ some p')
    × (contains p'.isr (pos 2) ≡ (
        if int_eq (pos 2) (pos 2)
        then (caught_up (pos 3) (pos 5) || int_eq (pos 2) first_partition.leader)
        else contains first_partition.isr (pos 2)))
    × (p'.replicas ≡ first_partition.replicas)
    × (p'.leader ≡ first_partition.leader)
    × (find_partition (120 ∷ []) (pos 0) meta'.partitions
        ≡ find_partition (120 ∷ []) (pos 0) meta_topic.partitions)
report_replica_progress_example =
    report_replica_progress_lem meta_topic topic_name (pos 0) (pos 2) (pos 3) (pos 5)
      first_partition (pos 2) (120 ∷ []) (pos 0) meta_topic-WellFormed first_found is_replica
      another
