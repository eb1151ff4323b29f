-- ===== src/Netproto/Messages/Topics.antt =====
-- internal/netproto/codec.go: the messages on topics and their metadata.
pub mod RoundTrip
use wave_mq.Prelude.{ℕ, Bool, true, false, List, leb, ◌==◌, if◌then◌else◌, Result, ok, err}
use wave_mq.Wire.{
  Bytes, Error, out_of_range, Reader, Writer, pure, ◌>>=◌, check, ◌▹◌, ℤ, pos, negsuc, i16_half,
  i32_half, i64_half, put_be_int, read_be_int,
}
use wave_mq.Api.{PartitionRole, role_leader, role_follower, other_role, PartitionMetadata}
use wave_mq.Netproto.Primitives.{
  unchecked, put_checked_int32, put_string, read_string, put_counted, read_counted,
}
use wave_mq.Netproto.Messages.{
  CreateTopicRequest, CreateTopicResponse, MetadataRequest, MetadataResponse,
}

unfoldable pub encode_create_topic_request : CreateTopicRequest → Writer
encode_create_topic_request req =
    put_string req.topic
    ▹ (put_checked_int32 req.partitions ▹ put_checked_int32 req.replication_factor)

unfoldable pub decode_create_topic_request : Reader CreateTopicRequest
decode_create_topic_request = do
  topic' ← read_string
  partitions' ← read_be_int 4 i32_half
  rf ← read_be_int 4 i32_half
  pure (record { topic = topic'; partitions = partitions'; replication_factor = rf })

unfoldable pub encode_create_topic_response : CreateTopicResponse → Writer
encode_create_topic_response resp = put_be_int 2 i16_half resp.error

unfoldable pub decode_create_topic_response : Reader CreateTopicResponse
decode_create_topic_response = do ec ← read_be_int 2 i16_half; pure (record { error = ec })

unfoldable pub encode_metadata_request : MetadataRequest → Writer
encode_metadata_request req = put_counted put_string req.topics

unfoldable pub decode_metadata_request : Reader MetadataRequest
decode_metadata_request = do topics' ← read_counted read_string; pure (record { topics = topics' })

-- The int of a role, and the role of an int.
abbrev pub role_number : PartitionRole → ℤ
role_number role_leader = pos 0
role_number role_follower = pos 1
role_number (other_role z) = z

unfoldable pub role_of_number : ℤ → PartitionRole
role_of_number (pos n) =
    if n == 0 then role_leader else if n == 1 then role_follower else other_role (pos n)
role_of_number (negsuc n) = other_role (negsuc n)

-- partitionRoleToInt16, and the write
unfoldable pub put_partition_role : PartitionRole → Writer
put_partition_role role =
    check (unchecked i16_half (role_number role)) out_of_range
    ▹ put_be_int 2 i16_half (role_number role)

unfoldable pub put_partition_metadata : PartitionMetadata → Writer
unfolding put_partition_role
put_partition_metadata p =
    put_string p.replica.topic
    ▹ (put_checked_int32 p.replica.partition
        ▹ (put_checked_int32 p.replica.broker_id
            ▹ (put_partition_role p.replica.role
                ▹ (put_be_int 4 i32_half p.replica.leader_epoch
                    ▹ (put_be_int 8 i64_half p.start_offset
                        ▹ (put_be_int 8 i64_half p.high_watermark
                            ▹ (put_checked_int32 p.leader
                                ▹ (put_counted put_checked_int32 p.replicas
                                    ▹ put_counted put_checked_int32 p.isr))))))))

unfoldable pub read_partition_metadata : Reader PartitionMetadata
unfolding role_of_number
read_partition_metadata = do
  topic' ← read_string
  partition' ← read_be_int 4 i32_half
  broker ← read_be_int 4 i32_half
  role' ← read_be_int 2 i16_half
  epoch ← read_be_int 4 i32_half
  start ← read_be_int 8 i64_half
  hwm ← read_be_int 8 i64_half
  leader' ← read_be_int 4 i32_half
  replicas' ← read_counted (read_be_int 4 i32_half)
  isr' ← read_counted (read_be_int 4 i32_half)
  pure (record {
    replica = record {
      topic = topic';
      partition = partition';
      broker_id = broker;
      role = role_of_number role';
      leader_epoch = epoch;
    };
    start_offset = start;
    high_watermark = hwm;
    leader = leader';
    replicas = replicas';
    isr = isr';
  })

unfoldable pub encode_metadata_response : MetadataResponse → Writer
unfolding put_partition_metadata
encode_metadata_response resp =
    put_be_int 2 i16_half resp.error ▹ put_counted put_partition_metadata resp.partitions

unfoldable pub decode_metadata_response : Reader MetadataResponse
unfolding read_partition_metadata
decode_metadata_response = do
  ec ← read_be_int 2 i16_half
  parts ← read_counted read_partition_metadata
  pure (record { partitions = parts; error = ec })
