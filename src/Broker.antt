-- ===== src/Broker.antt =====
-- internal/broker/broker.go: the state of a broker.
pub mod Maps
pub mod Commits
pub mod Groups
pub mod Produce
pub mod Cluster
mod Examples
use wave_mq.Prelude.{ℕ, Bool, Option, List}
use wave_mq.Wire.{Bytes, ℤ}
use wave_mq.Api.{PartitionMetadata, ClusterMetadata}
use wave_mq.Storage.Log.{SegmentedLog}
use wave_mq.OffsetStore.{OffsetStore}

-- A map of Go is the list of its entries, each key once, in the order in which it is walked.
abbrev pub Map : Type 0 → Type 0 → Type 0
Map K V = List (K × V)

-- A partition with its log, which stands for the handle to it.
pub record Partition : Type 0 where
  pub metadata : PartitionMetadata
  pub log : SegmentedLog

pub record Topic : Type 0 where
  pub name : Bytes
  pub partitions : Map ℤ Partition
  pub replication_factor : ℤ

pub record GroupMember : Type 0 where
  pub client_id : Bytes
  pub topics : List Bytes
  pub assignments : Map Bytes (List ℤ)

-- `assignments` leads from a topic to the partitions of each member.
pub record ConsumerGroup : Type 0 where
  pub name : Bytes
  pub members : Map Bytes GroupMember
  pub offsets : Map Bytes (Map ℤ ℤ)
  pub assignments : Map Bytes (Map Bytes (List ℤ))

-- `cluster` is `none` without a cluster, else what GetClusterMetadata returns, `none` for an error.
pub record Broker : Type 0 where
  pub broker_id : ℤ
  pub cluster : Option (Option ClusterMetadata)
  pub topics : Map Bytes Topic
  pub groups : Map Bytes ConsumerGroup
  pub offset_store : OffsetStore
  pub closed : Bool
  pub commit_count : ℕ
