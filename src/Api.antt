-- ===== src/Api.antt =====
-- pkg/api/api.go: the records of the commit log, the error codes, and what a configuration must meet.
use wave_mq.Prelude.{ℕ, Option, List}
use wave_mq.Wire.{Bytes, ℤ}

-- A Go string is the list of its bytes, and a nil slice is `none`.
pub record Header : Type 0 where
  pub key : Bytes
  pub value : Option Bytes

-- `timestamp` is Timestamp.UnixNano().
pub record Record : Type 0 where
  pub offset : ℤ
  pub timestamp : ℤ
  pub key : Option Bytes
  pub value : Option Bytes
  pub headers : List Header
  pub crc32c : ℕ

-- PartitionRole: 0, 1, and the ints that stand for no role.
pub data PartitionRole : Type 0 where
  role_leader role_follower : PartitionRole
  other_role : ℤ → PartitionRole

pub record PartitionReplica : Type 0 where
  pub topic : Bytes
  pub partition : ℤ
  pub broker_id : ℤ
  pub role : PartitionRole
  pub leader_epoch : ℤ

pub record PartitionMetadata : Type 0 where
  pub replica : PartitionReplica
  pub start_offset : ℤ
  pub high_watermark : ℤ
  pub leader : ℤ
  pub replicas : List ℤ
  pub isr : List ℤ

-- A broker of the cluster; only its id decides anything, the rest is compared and kept.
pub record BrokerInfo : Type 0 where
  pub broker_id : ℤ
  pub host : Bytes
  pub port : ℤ
  pub rack : Bytes
  pub http_addr : Bytes
  pub controller_addr : Bytes

pub record PartitionAssignment : Type 0 where
  pub topic : Bytes
  pub partition : ℤ
  pub replicas : List ℤ
  pub isr : List ℤ
  pub leader : ℤ
  pub leader_epoch : ℤ

-- `version` counts the changes, from 1.
pub record ClusterMetadata : Type 0 where
  pub cluster_id : Bytes
  pub version : ℕ
  pub brokers : List BrokerInfo
  pub partitions : List PartitionAssignment

pub record TopicConfig : Type 0 where
  pub partitions : ℤ
  pub replication_factor : ℤ
  pub retention_bytes : ℤ
  pub retention_time : ℤ
