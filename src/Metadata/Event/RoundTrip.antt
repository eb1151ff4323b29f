-- ===== src/Metadata/Event/RoundTrip.antt =====
-- Reading back what `encodeCreateTopicEvent` wrote.
use wave_mq.Prelude.{ℕ, ◌≡◌, refl, true, false, not, List, [], ◌∷◌, All, length, arith}
use wave_mq.Wire.{
  pure, reject_if, ◌>>=◌, RoundTrips, RoundTrips-bind, RoundTrips-last, RoundTrips-pure,
  RoundTrips-check, RoundTrips-reject_if, RoundTrips-raw, RoundTrips-le, RoundTrips-le_int,
  RoundTrips-byte, ℤ, pos, negsuc, FitsSigned, i32_half, i64_half, read_le,
}
use wave_mq.Api.{PartitionRole, role_leader, role_follower, other_role}
use wave_mq.Metadata.Event

-- The ids and epochs are int32s.
pub record ReplicaFits (r : Event.ReplicaSpec) : Type 0 where
  pub id_fits : FitsSigned i32_half r.broker_id
  pub epoch_fits : FitsSigned i32_half r.leader_epoch

pub record PartitionFits (p : Event.PartitionSpec) : Type 0 where
  pub id_fits : FitsSigned i32_half p.id
  pub replicas_fit : All ReplicaFits p.replicas

pub record EventFits (ev : Event.CreateTopicEvent) : Type 0 where
  pub bytes_fit : FitsSigned i64_half ev.retention_bytes
  pub time_fits : FitsSigned i64_half ev.retention_time
  pub partitions_fit : All PartitionFits ev.partitions

count_field : (n : ℕ) → RoundTrips (read_le 2) (Event.put_uint16 (pos n)) n
unfolding Event.put_uint16
count_field n = RoundTrips-check _ _ λ h. RoundTrips-le 2 n (ground arith)

uint16_field : (z : ℤ) → RoundTrips Event.read_uint16 (Event.put_uint16 z) z
unfolding Event.read_uint16
uint16_field (pos n) = RoundTrips-last _ (count_field n) refl
uint16_field (negsuc n) = unfold Event.put_uint16 in RoundTrips-check true _ λ h. cc

role_field : (role : PartitionRole) → RoundTrips Event.read_role (Event.put_role role) role
unfolding Event.read_role Event.put_role Event.role_of_byte
role_field role_leader = RoundTrips-last _ (RoundTrips-byte 0 (omega arith)) refl
role_field role_follower = RoundTrips-last _ (RoundTrips-byte 1 (omega arith)) refl
role_field (other_role z) = record { at = λ bs rest e. cc }

replicas_field :
    (rs : List Event.ReplicaSpec)
    → All ReplicaFits rs
    → RoundTrips (Event.read_replicas (length rs)) (Event.write_replicas rs) rs
unfolding Event.read_replicas Event.write_replicas
replicas_field [] h = RoundTrips-pure []
replicas_field (r ∷ rs) (hr, h) =
    RoundTrips-bind _ (RoundTrips-le_int 4 i32_half refl r.broker_id hr.id_fits) (
      RoundTrips-bind _ (role_field r.role) (
        RoundTrips-bind _ (RoundTrips-le_int 4 i32_half refl r.leader_epoch hr.epoch_fits)
          (RoundTrips-last _ (replicas_field rs h) refl)))

partitions_field :
    (ps : List Event.PartitionSpec)
    → All PartitionFits ps
    → RoundTrips (Event.read_partitions (length ps)) (Event.write_partitions ps) ps
unfolding Event.read_partitions Event.write_partitions
partitions_field [] h = RoundTrips-pure []
partitions_field (p ∷ ps) (hp, h) =
    RoundTrips-bind _ (RoundTrips-le_int 4 i32_half refl p.id hp.id_fits) (
      RoundTrips-bind _ (count_field (length p.replicas)) (
        RoundTrips-bind _ (replicas_field p.replicas hp.replicas_fit)
          (RoundTrips-last _ (partitions_field ps h) refl)))

accepted_event :
    (ev : Event.CreateTopicEvent) → Event.event_is_valid ev ≡ true → Event.accept_event ev ≡ pure ev
unfolding Event.accept_event ◌>>=◌ reject_if pure
accepted_event ev h = rw h refl

retention_is_valid :
    (ev : Event.CreateTopicEvent)
    → Event.event_is_valid ev ≡ true
    → (not (Event.from_minus_one ev.retention_bytes) ≡ false)
      × (not (Event.is_natural ev.retention_time) ≡ false)
unfolding Event.event_is_valid
retention_is_valid ev h = (ground arith, ground arith)

-- The fields of an event that is valid are read as they were written.
pub event_field :
    (ev : Event.CreateTopicEvent)
    → EventFits ev
    → Event.event_is_valid ev ≡ true
    → RoundTrips Event.read_event_v2 (Event.write_event_body ev) ev
unfolding Event.read_event_v2 Event.write_event_body
event_field ev h v = RoundTrips-check _ _ λ short.
    RoundTrips-bind _ (count_field (length ev.name)) (
      RoundTrips-bind _ (RoundTrips-raw ev.name) (
        RoundTrips-bind _ (uint16_field ev.num_partitions) (
          RoundTrips-bind _ (uint16_field ev.replication_factor) (
            RoundTrips-bind _ (RoundTrips-le_int 8 i64_half refl ev.retention_bytes h.bytes_fit) (
              RoundTrips-bind _ (RoundTrips-le_int 8 i64_half refl ev.retention_time h.time_fits) (
                RoundTrips-reject_if _ _ (retention_is_valid ev v).0 (
                  RoundTrips-reject_if _ _ (retention_is_valid ev v).1 (
                    RoundTrips-bind _ (count_field (length ev.partitions)) (
                      RoundTrips-last _ (partitions_field ev.partitions h.partitions_fit)
                        (accepted_event ev v))))))))))
