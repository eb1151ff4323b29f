-- ===== src/Broker/Produce.antt =====
-- internal/broker/broker.go: Produce, ProduceByKey, Fetch, ListOffsets. Contexts are not cancelled, and
-- the metrics are left out.
pub mod Appends
mod Examples
use wave_mq.Prelude.{
  ℕ, zero, suc, ◌+◌, ◌-◌, ◌*◌, ◌%◌, ◌^◌, bit_xor, Bool, true, false, ◌&&◌, not, Option, none, some,
  List, [], ◌∷◌, map, length, get_elem?, ◌==◌, if◌then◌else◌, Result, ok, err,
}
use wave_mq.Wire.{Bytes, ℤ, pos, negsuc, int_eq, int_ltb, string_eq}
use wave_mq.Api.{
  Record, PartitionRole, role_leader, role_follower, other_role, PartitionMetadata,
  PartitionAssignment, ClusterMetadata,
}
use wave_mq.Storage.Log.{LogConfig, Clock, SegmentedLog, LogError, append_batch, high_watermark}
use wave_mq.Storage.Log.Read.{read}
use wave_mq.Broker.{Map, Broker, Partition, Topic}
use wave_mq.Broker.Maps.{find, put, string_key, int_key}
use wave_mq.Broker.Groups.{sort_by}

-- `not_leader` is NotLeaderError with the leader.
pub data ProduceError : Type 0 where
  broker_closed topic_not_found partition_not_found key_required : ProduceError
  not_leader : ℤ → ProduceError
  log_error : LogError → ProduceError
  -- no error of the program: the fuel of the model ran out
  no_result : ProduceError

unfoldable pub is_leader_role : PartitionRole → Bool
is_leader_role role_leader = true
is_leader_role role_follower = false
is_leader_role (other_role n) = false

unfoldable pub is_clustered : Broker → Bool
is_clustered b = elim (b.cluster) [ none ↦ false | some _ ↦ true ]

-- What GetClusterMetadata returns, unless there is no cluster or it fails.
abbrev pub known_partitions : Option (Option ClusterMetadata) → List PartitionAssignment
known_partitions none = []
known_partitions (some none) = []
known_partitions (some (some meta)) = meta.partitions

unfoldable pub first_leader : Bytes → ℤ → List PartitionAssignment → ℤ
first_leader topic partition [] = pos 0
first_leader topic partition (p ∷ ps) =
    if string_eq p.topic topic && int_eq p.partition partition
    then p.leader
    else first_leader topic partition ps

-- leaderFor
unfoldable pub leader_for : Broker → Bytes → ℤ → ℤ
unfolding first_leader
leader_for b topic partition = first_leader topic partition (known_partitions b.cluster)

-- The partition that a request is for: the checks that Produce, Fetch and ListOffsets begin with.
unfoldable pub in_topic : ℤ → Option Topic → Result ProduceError Partition
in_topic partition none = err topic_not_found
in_topic partition (some t) = elim (find int_key partition t.partitions) [
  | none ↦ err partition_not_found
  | some p ↦ ok p
]

unfoldable pub locate : Bytes → ℤ → Broker → Result ProduceError Partition
unfolding in_topic
locate topic partition b =
    if b.closed then err broker_closed else in_topic partition (find string_key topic b.topics)

-- A follower refuses, and names the leader.
unfoldable pub refuses : Bytes → ℤ → Broker → Partition → Option ProduceError
unfolding is_clustered leader_for is_leader_role
refuses topic partition b p =
    if is_clustered b && not (is_leader_role p.metadata.replica.role)
    then some (
        not_leader (
          if int_eq p.metadata.leader (pos 0)
          then leader_for b topic partition
          else p.metadata.leader))
    else none

-- z + 1
abbrev pub int_suc : ℤ → ℤ
int_suc (pos n) = pos (suc n)
int_suc (negsuc zero) = pos 0
int_suc (negsuc (suc n)) = negsuc n

-- The high watermark moves to the last record of the batch, and never back.
unfoldable pub raised : ℤ → ℤ → ℤ
raised now hw = if int_ltb now hw then hw else now

unfoldable pub with_log : SegmentedLog → ℤ → Partition → Partition
with_log l hw p = record p { log = l; metadata = record (p.metadata) { high_watermark = hw } }

-- The answer of the log in `Produce`.
unfoldable pub produced :
    ℕ → Partition → SegmentedLog × Result LogError ℕ → Partition × Result ProduceError ℤ
unfolding with_log raised
produced count p (l, err e) = (record p { log = l }, err (log_error e))
produced count p (l, ok base) =
    (with_log l (raised p.metadata.high_watermark (pos (base + (count - 1)))) p, ok (pos base))

unfoldable pub produce_to :
    LogConfig → Clock → List Record → Partition → Partition × Result ProduceError ℤ
unfolding produced append_batch
produce_to cfg clock rs p =
    if length rs == 0
    then (p, ok (int_suc p.metadata.high_watermark))
    else produced (length rs) p (append_batch cfg clock rs p.log)

unfoldable pub with_partition : Bytes → ℤ → Partition → Broker → Broker
with_partition topic partition p b = elim (find string_key topic b.topics) [
  | none ↦ b
  | some t ↦ record b {
    topics =
        put string_key topic (record t { partitions = put int_key partition p t.partitions })
          b.topics;
  }
]

unfoldable pub store_partition :
    Bytes → ℤ → Broker → Partition × Result ProduceError ℤ → Broker × Result ProduceError ℤ
unfolding with_partition
store_partition topic partition b (p, res) = (with_partition topic partition p b, res)

-- Produce, where the log of the partition has this configuration.
unfoldable pub produce :
    LogConfig → Clock → Bytes → ℤ → List Record → Broker → Broker × Result ProduceError ℤ
unfolding locate refuses produce_to store_partition
produce cfg clock topic partition rs b = elim (locate topic partition b) [
  | err e ↦ (b, err e)
  | ok p ↦ elim (refuses topic partition b p) [
    | some e ↦ (b, err e)
    | none ↦ store_partition topic partition b (produce_to cfg clock rs p)
  ]
]

-- hash/fnv: New32a
unfoldable pub fnv32a : ℕ → Bytes → ℕ
fnv32a h [] = h
fnv32a h (c ∷ cs) = fnv32a ((bit_xor h c * 16777619) % 2 ^ 32) cs

unfoldable pub assigned_ids : Bytes → List PartitionAssignment → List ℤ
assigned_ids topic [] = []
assigned_ids topic (p ∷ ps) =
    let rest = assigned_ids topic ps in if string_eq p.topic topic then p.partition ∷ rest else rest

-- The keys of a map that is filled from a list.
unfoldable pub distinct_ids : List ℤ → List ℤ
distinct_ids [] = []
distinct_ids (x ∷ xs) =
    let rest = distinct_ids xs in
    elim (find int_key x (map (λ y. (y, tt {0})) xs)) [ none ↦ x ∷ rest | some _ ↦ rest ]

abbrev partitions_of : Option Topic → List ℤ
partitions_of none = []
partitions_of (some t) = map (λ (e : ℤ × Partition). e.0) t.partitions

-- topicPartitionIDs
unfoldable pub topic_partition_ids : Bytes → Broker → List ℤ
unfolding assigned_ids distinct_ids sort_by
topic_partition_ids topic b =
    let assigned = distinct_ids (assigned_ids topic (known_partitions b.cluster)) in
    if length assigned == 0
    then sort_by int_ltb (partitions_of (find string_key topic b.topics))
    else sort_by int_ltb assigned

abbrev as_partition : Option ℤ → Result ProduceError ℤ
as_partition none = err topic_not_found
as_partition (some p) = ok p

-- partitionForKey
unfoldable pub partition_for_key : Bytes → Bytes → Broker → Result ProduceError ℤ
unfolding topic_partition_ids fnv32a
partition_for_key topic key b =
    let partitions = topic_partition_ids topic b in
    if length key == 0
    then err key_required
    else if length partitions == 0
    then err topic_not_found
    else as_partition (get_elem? partitions (fnv32a 2166136261 key % length partitions))

-- A record without a key gets the key of the request.
unfoldable pub keyed : Bytes → Record → Record
keyed key r = elim (r.key) [
  | none ↦ record r { key = some key }
  | some [] ↦ record r { key = some key }
  | some (c ∷ cs) ↦ r
]

-- ProduceByKey; with an error of Produce, the partition that was chosen goes with it.
unfoldable pub produce_by_key :
    LogConfig
    → Clock
    → Bytes
    → Bytes
    → List Record
    → Broker
    → Broker × (Result ProduceError ℤ × Result ProduceError ℤ)
unfolding partition_for_key keyed produce
produce_by_key cfg clock topic key rs b = elim (partition_for_key topic key b) [
  | err e ↦ (b, (err e, err e))
  | ok p ↦ let done = produce cfg clock topic p (map (keyed key) rs) b in (done.0, (ok p, done.1))
]

abbrev read_result : Option (Result LogError (List Record)) → Result ProduceError (List Record)
read_result none = err no_result
read_result (some (err e)) = err (log_error e)
read_result (some (ok rs)) = ok rs

-- Fetch
unfoldable pub fetch : Bytes → ℤ → ℤ → ℤ → Broker → Result ProduceError (List Record)
unfolding locate refuses read
fetch topic partition offset' max' b = elim (locate topic partition b) [
  | err e ↦ err e
  | ok p ↦ elim (refuses topic partition b p) [
    | some e ↦ err e
    | none ↦
        if int_ltb p.metadata.high_watermark offset'
        then ok []
        else read_result (read p.log offset' max')
  ]
]

-- ListOffsets: the start offset and the high watermark of the log.
unfoldable pub list_offsets : Bytes → ℤ → Broker → Result ProduceError (ℤ × ℤ)
unfolding locate high_watermark
list_offsets topic partition b = elim (locate topic partition b) [
  | err e ↦ err e
  | ok p ↦ ok (pos p.log.start_offset, high_watermark p.log)
]
