-- ===== src/Metadata/Event.antt =====
-- internal/metadata/store.go: the validation and the encoding of a create-topic event.
pub mod RoundTrip
use wave_mq.Prelude.{
  ℕ, zero, suc, ◌+◌, Bool, true, false, ◌&&◌, ◌||◌, not, List, [], ◌∷◌, length, ltb, leb, ◌==◌,
  if◌then◌else◌, ok, err,
}
use wave_mq.Wire.{
  Bytes, Error, out_of_range, string_too_long, invalid_event, invalid_role, unsupported_version,
  Reader, Writer, pure, raise, ◌>>=◌, ◌>>◌, reject_if, read_full, check, ◌▹◌, ℤ, pos, negsuc,
  pos_part, i32_half, i64_half, put_byte, read_byte, put_le, read_le, put_le_int, read_le_int,
  int_eq,
}
use wave_mq.Api.{PartitionRole, role_leader, role_follower, other_role}

pub record ReplicaSpec : Type 0 where
  pub broker_id : ℤ
  pub role : PartitionRole
  pub leader_epoch : ℤ

pub record PartitionSpec : Type 0 where
  pub id : ℤ
  pub replicas : List ReplicaSpec

pub record CreateTopicEvent : Type 0 where
  pub name : Bytes
  pub num_partitions : ℤ
  pub replication_factor : ℤ
  pub retention_bytes : ℤ
  pub retention_time : ℤ
  pub partitions : List PartitionSpec

abbrev pub is_positive : ℤ → Bool
is_positive (pos n) = ltb 0 n
is_positive (negsuc n) = false

abbrev pub is_natural : ℤ → Bool
is_natural (pos n) = true
is_natural (negsuc n) = false

-- z >= -1
abbrev pub from_minus_one : ℤ → Bool
from_minus_one (pos n) = true
from_minus_one (negsuc n) = n == 0

-- A look into a `seen` map.
unfoldable pub seen : List ℤ → ℤ → Bool
seen [] z = false
seen (y ∷ ys) z = int_eq y z || seen ys z

-- validatePartitionRole
abbrev pub role_is_valid : PartitionRole → Bool
role_is_valid role_leader = true
role_is_valid role_follower = true
role_is_valid (other_role z) = false

abbrev pub count_leader : PartitionRole → ℕ → ℕ
count_leader role_leader n = n + 1
count_leader _ n = n

-- The replicas of a partition: positive ids, no id twice, and exactly one leader.
unfoldable pub replicas_are_valid : List ℤ → ℕ → List ReplicaSpec → Bool
unfolding seen
replicas_are_valid ids leaders [] = leaders == 1
replicas_are_valid ids leaders (r ∷ rs) =
    is_positive r.broker_id
    && (not (seen ids r.broker_id)
        && (role_is_valid r.role
            && replicas_are_valid (r.broker_id ∷ ids) (count_leader r.role leaders) rs))

unfoldable pub partitions_are_valid : ℤ → List ℤ → List PartitionSpec → Bool
unfolding replicas_are_valid
partitions_are_valid rf ids [] = true
partitions_are_valid rf ids (p ∷ ps) =
    is_natural p.id
    && (not (seen ids p.id)
        && (ltb 0 (length p.replicas)
            && (int_eq (pos (length p.replicas)) rf
                && (leb (length p.replicas) 65535
                    && (replicas_are_valid [] 0 p.replicas
                        && partitions_are_valid rf (p.id ∷ ids) ps)))))

-- validateCreateTopicEvent, without the texts of its errors
unfoldable pub event_is_valid : CreateTopicEvent → Bool
unfolding partitions_are_valid
event_is_valid ev =
    ltb 0 (length ev.name)
    && (is_positive ev.num_partitions
        && (is_positive ev.replication_factor
            && (from_minus_one ev.retention_bytes
                && (is_natural ev.retention_time
                    && (int_eq (pos (length ev.partitions)) ev.num_partitions
                        && partitions_are_valid ev.replication_factor [] ev.partitions)))))

-- toUint16
abbrev pub out_of_uint16 : ℤ → Bool
out_of_uint16 (pos n) = ltb 65535 n
out_of_uint16 (negsuc n) = true

unfoldable pub put_uint16 : ℤ → Writer
put_uint16 z = check (out_of_uint16 z) out_of_range ▹ put_le 2 (pos_part z)

unfoldable pub read_uint16 : Reader ℤ
read_uint16 = do v ← read_le 2; pure (pos v)

-- partitionRoleToByte, partitionRoleFromByte
unfoldable pub put_role : PartitionRole → Writer
put_role role_leader = put_byte 0
put_role role_follower = put_byte 1
put_role (other_role z) = err invalid_role

unfoldable pub role_of_byte : ℕ → Reader PartitionRole
role_of_byte b =
    if b == 0 then pure role_leader else if b == 1 then pure role_follower else raise invalid_role

unfoldable pub read_role : Reader PartitionRole
unfolding role_of_byte
read_role = do b ← read_byte; role_of_byte b

unfoldable pub write_replicas : List ReplicaSpec → Writer
unfolding put_role
write_replicas [] = ok []
write_replicas (r ∷ rs) =
    put_le_int 4 i32_half r.broker_id
    ▹ (put_role r.role ▹ (put_le_int 4 i32_half r.leader_epoch ▹ write_replicas rs))

unfoldable pub write_partitions : List PartitionSpec → Writer
unfolding write_replicas put_uint16
write_partitions [] = ok []
write_partitions (p ∷ ps) =
    put_le_int 4 i32_half p.id
    ▹ (put_uint16 (pos (length p.replicas)) ▹ (write_replicas p.replicas ▹ write_partitions ps))

-- The fields of an event, in the second version of the format.
unfoldable pub write_event_body : CreateTopicEvent → Writer
unfolding write_partitions put_uint16
write_event_body ev =
    check (ltb 65535 (length ev.name)) string_too_long
    ▹ (put_uint16 (pos (length ev.name))
        ▹ (ok ev.name
            ▹ (put_uint16 ev.num_partitions
                ▹ (put_uint16 ev.replication_factor
                    ▹ (put_le_int 8 i64_half ev.retention_bytes
                        ▹ (put_le_int 8 i64_half ev.retention_time
                            ▹ (put_uint16 (pos (length ev.partitions))
                                ▹ write_partitions ev.partitions)))))))

-- encodeCreateTopicEvent
unfoldable pub write_event : CreateTopicEvent → Writer
unfolding write_event_body event_is_valid
write_event ev =
    check (not (event_is_valid ev)) invalid_event
    ▹ (put_byte 2 ▹ (put_byte 1 ▹ write_event_body ev))

unfoldable pub read_replicas : ℕ → Reader (List ReplicaSpec)
unfolding read_role
read_replicas zero = pure []
read_replicas (suc n) = do
  broker_id' ← read_le_int 4 i32_half
  role' ← read_role
  epoch ← read_le_int 4 i32_half
  rs ← read_replicas n
  pure (record { broker_id = broker_id'; role = role'; leader_epoch = epoch } ∷ rs)

unfoldable pub read_partitions : ℕ → Reader (List PartitionSpec)
unfolding read_replicas
read_partitions zero = pure []
read_partitions (suc n) = do
  id' ← read_le_int 4 i32_half
  count ← read_le 2
  rs ← read_replicas count
  ps ← read_partitions n
  pure (record { id = id'; replicas = rs } ∷ ps)

-- The validation that ends both decoders.
unfoldable pub accept_event : CreateTopicEvent → Reader CreateTopicEvent
unfolding event_is_valid
accept_event ev = do reject_if (not (event_is_valid ev)) invalid_event; pure ev

unfoldable pub read_event_v1 : Reader CreateTopicEvent
unfolding read_partitions read_uint16 accept_event
read_event_v1 = do
  name_len ← read_le 2
  name' ← read_full name_len
  parts ← read_uint16
  rf ← read_uint16
  count ← read_le 2
  ps ← read_partitions count
  accept_event (record {
    name = name';
    num_partitions = parts;
    replication_factor = rf;
    retention_bytes = pos 0;
    retention_time = pos 0;
    partitions = ps;
  })

unfoldable pub read_event_v2 : Reader CreateTopicEvent
unfolding read_partitions read_uint16 accept_event
read_event_v2 = do
  name_len ← read_le 2
  name' ← read_full name_len
  parts ← read_uint16
  rf ← read_uint16
  bytes ← read_le_int 8 i64_half
  nanos ← read_le_int 8 i64_half
  reject_if (not (from_minus_one bytes)) invalid_event
  reject_if (not (is_natural nanos)) invalid_event
  count ← read_le 2
  ps ← read_partitions count
  accept_event (record {
    name = name';
    num_partitions = parts;
    replication_factor = rf;
    retention_bytes = bytes;
    retention_time = nanos;
    partitions = ps;
  })

-- decodeCreateTopicEvent
unfoldable pub read_event : ℕ → Reader CreateTopicEvent
unfolding read_event_v1 read_event_v2
read_event version =
    if version == 1
    then read_event_v1
    else if version == 2
    then read_event_v2
    else raise unsupported_version
