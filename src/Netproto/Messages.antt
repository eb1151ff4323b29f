-- ===== src/Netproto/Messages.antt =====
-- internal/netproto/messages.go: the requests and responses. An error code is its int16.
pub mod Records
pub mod Topics
pub mod Offsets
use wave_mq.Prelude.{Option, List}
use wave_mq.Wire.{Bytes, ℤ}
use wave_mq.Api.{Record, PartitionMetadata}

pub record CreateTopicRequest : Type 0 where
  pub topic : Bytes
  pub partitions : ℤ
  pub replication_factor : ℤ

pub record CreateTopicResponse : Type 0 where
  pub error : ℤ

pub record ProduceRequest : Type 0 where
  pub topic : Bytes
  pub partition : ℤ
  pub records : List Record

pub record ProduceResponse : Type 0 where
  pub base_offset : ℤ
  pub error : ℤ

pub record ProduceByKeyRequest : Type 0 where
  pub topic : Bytes
  pub key : Option Bytes
  pub records : List Record

pub record ProduceByKeyResponse : Type 0 where
  pub partition : ℤ
  pub base_offset : ℤ
  pub error : ℤ

pub record FetchRequest : Type 0 where
  pub topic : Bytes
  pub partition : ℤ
  pub offset : ℤ
  pub max_bytes : ℤ

pub record FetchResponse : Type 0 where
  pub records : List Record
  pub high_watermark : ℤ
  pub error : ℤ

pub record ListOffsetsRequest : Type 0 where
  pub topic : Bytes
  pub partition : ℤ

pub record ListOffsetsResponse : Type 0 where
  pub earliest : ℤ
  pub latest : ℤ
  pub error : ℤ

pub record MetadataRequest : Type 0 where
  pub topics : List Bytes

pub record MetadataResponse : Type 0 where
  pub partitions : List PartitionMetadata
  pub error : ℤ

pub record CommitOffsetRequest : Type 0 where
  pub group : Bytes
  pub topic : Bytes
  pub partition : ℤ
  pub offset : ℤ

pub record CommitOffsetResponse : Type 0 where
  pub error : ℤ

pub record FetchCommittedRequest : Type 0 where
  pub group : Bytes
  pub topic : Bytes
  pub partition : ℤ

pub record FetchCommittedResponse : Type 0 where
  pub offset : ℤ
  pub error : ℤ

pub record PingResponse : Type 0 where
  pub error : ℤ
