-- ===== src/Netproto/Messages/Topics/RoundTrip.antt =====
-- Reading back the messages on topics.
use wave_mq.Prelude.{◌≤◌, ◌≡◌, refl, ◌++◌, ap, List, [], ◌∷◌, All, length, map, ok}
use wave_mq.Wire.{
  Bytes, Reader, Writer, read_be_int, RoundTrips, RoundTrips-bind, RoundTrips-last,
  RoundTrips-check, FitsSigned, i16_half, i32_half, i64_half,
}
use wave_mq.Api.{PartitionRole, PartitionMetadata}
use wave_mq.Netproto.Primitives.{max_item_count, put_checked_int32, put_counted, read_counted}
use wave_mq.Netproto.Primitives.RoundTrip.{
  string_field, checked_int32, checked_fits, int16_field, int32_field, int64_field, counted_field,
}
use wave_mq.Netproto.Messages.{CreateTopicRequest, MetadataRequest, MetadataResponse}
use wave_mq.Netproto.Messages.Topics

module _ {ℓ} {A : Type ℓ} (m : Reader A) (w : A → Writer) where
  same_items : (xs : List A) → map (λ x. x) xs ≡ xs
  same_items [] = refl
  same_items (x ∷ xs) = ap (λ t. x ∷ t) (same_items xs)

  each_item : (xs : List A) → ((x : A) → RoundTrips m (w x) x) → All (λ x. RoundTrips m (w x) x) xs
  each_item [] h = tt
  each_item (x ∷ xs) h = (h x, each_item xs h)

  list_of_fields :
      (xs : List A)
      → length xs ≤ max_item_count
      → All (λ x. RoundTrips m (w x) x) xs
      → RoundTrips (read_counted m) (put_counted w xs) xs
  list_of_fields xs few h = rw same_items at (counted_field m w (λ x. x) xs few h)

  list_field :
      (xs : List A)
      → length xs ≤ max_item_count
      → ((x : A) → RoundTrips m (w x) x)
      → RoundTrips (read_counted m) (put_counted w xs) xs
  list_field xs few h = list_of_fields xs few (each_item xs h)

-- A description of a partition with fields of Go's widths, a role that is told by its int, and as
-- many replicas as the reader takes.
pub record Describable (p : PartitionMetadata) : Type 0 where
  pub epoch_fits : FitsSigned i32_half p.replica.leader_epoch
  pub start_fits : FitsSigned i64_half p.start_offset
  pub high_fits : FitsSigned i64_half p.high_watermark
  pub role_told : Topics.role_of_number (Topics.role_number p.replica.role) ≡ p.replica.role
  pub few_replicas : length p.replicas ≤ max_item_count
  pub few_isr : length p.isr ≤ max_item_count

partition_field :
    (p : PartitionMetadata)
    → Describable p
    → RoundTrips Topics.read_partition_metadata (Topics.put_partition_metadata p) p
unfolding Topics.read_partition_metadata Topics.put_partition_metadata Topics.put_partition_role
partition_field p h = RoundTrips-bind _ (string_field p.replica.topic) (
    RoundTrips-bind _ (checked_int32 p.replica.partition) (
      RoundTrips-bind _ (checked_int32 p.replica.broker_id) (
        RoundTrips-bind _ (role_field p.replica.role) (
          RoundTrips-bind _ (int32_field p.replica.leader_epoch h.epoch_fits) (
            RoundTrips-bind _ (int64_field p.start_offset h.start_fits) (
              RoundTrips-bind _ (int64_field p.high_watermark h.high_fits) (
                RoundTrips-bind _ (checked_int32 p.leader) (
                  RoundTrips-bind _
                    (list_field _ put_checked_int32 p.replicas h.few_replicas checked_int32)
                    (RoundTrips-last _
                      (list_field _ put_checked_int32 p.isr h.few_isr checked_int32)
                      (rw (h.role_told) refl))))))))))
  where
    role_field :
        (role : PartitionRole)
        → RoundTrips
            (read_be_int 2 i16_half)
            (Topics.put_partition_role role)
            (Topics.role_number role)
    role_field role =
        unfold Topics.put_partition_role in
        RoundTrips-check _ _ λ h'.
          int16_field (Topics.role_number role) (checked_fits i16_half (Topics.role_number role) h')

partition_fields :
    (ps : List PartitionMetadata)
    → All Describable ps
    → All (λ p. RoundTrips Topics.read_partition_metadata (Topics.put_partition_metadata p) p) ps
partition_fields [] h = tt
partition_fields (p ∷ ps) (hp, h) = (partition_field p hp, partition_fields ps h)

-- A client learns the partitions, their replicas and the replicas in sync as the broker described
-- them. Where the response has at most 100000 partitions, each with at most 100000 replicas of either
-- kind, epochs, offsets and the error code have the widths of their types, the roles are told by
-- their ints, and `encodeMetadataResponse` succeeds, `decodeMetadataResponse` returns the response,
-- whatever follows.
pub decode-encode_metadata_response :
    (resp : MetadataResponse) (bs rest : Bytes)
    → length resp.partitions ≤ max_item_count
    → All Describable resp.partitions
    → FitsSigned i16_half resp.error
    → Topics.encode_metadata_response resp ≡ ok bs
    → Topics.decode_metadata_response (bs ++ rest) ≡ ok (resp, rest)
unfolding Topics.decode_metadata_response Topics.encode_metadata_response
decode-encode_metadata_response resp bs rest few h code e =
    (RoundTrips-bind _ (int16_field resp.error code) (
        RoundTrips-last _
          (list_of_fields _ Topics.put_partition_metadata resp.partitions few
            (partition_fields resp.partitions h))
          refl)).at
      bs rest e

-- A metadata request arrives as it was sent. Where it names at most 100000 topics and
-- `encodeMetadataRequest` succeeds, `decodeMetadataRequest` returns the request, whatever follows.
pub decode-encode_metadata_request :
    (req : MetadataRequest) (bs rest : Bytes)
    → length req.topics ≤ max_item_count
    → Topics.encode_metadata_request req ≡ ok bs
    → Topics.decode_metadata_request (bs ++ rest) ≡ ok (req, rest)
unfolding Topics.decode_metadata_request Topics.encode_metadata_request
decode-encode_metadata_request req bs rest few e =
    (RoundTrips-last _ (list_field _ _ req.topics few string_field) refl).at bs rest e

-- Where `encodeCreateTopicRequest` succeeds, `decodeCreateTopicRequest` returns the request, whatever
-- follows.
pub decode-encode_create_topic_request :
    (req : CreateTopicRequest) (bs rest : Bytes)
    → Topics.encode_create_topic_request req ≡ ok bs
    → Topics.decode_create_topic_request (bs ++ rest) ≡ ok (req, rest)
unfolding Topics.decode_create_topic_request Topics.encode_create_topic_request
decode-encode_create_topic_request req bs rest e =
    (RoundTrips-bind _ (string_field req.topic) (
        RoundTrips-bind _ (checked_int32 req.partitions)
          (RoundTrips-last _ (checked_int32 req.replication_factor) refl))).at
      bs rest e
