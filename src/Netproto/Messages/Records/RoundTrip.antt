-- ===== src/Netproto/Messages/Records/RoundTrip.antt =====
-- Reading back the messages that carry records.
use wave_mq.Prelude.{
  ℕ, suc, ◌≤◌, ◌≡◌, refl, false, ◌++◌, List, [], ◌∷◌, All, length, map, ok, arith,
}
use wave_mq.Wire.{
  Bytes, ℤ, pos, negsuc, RoundTrips-check, RoundTrips, RoundTrips-bind, RoundTrips-last, FitsSigned,
  i16_half, i32_half, i64_half,
}
use wave_mq.Api.{Record}
use wave_mq.Netproto.Primitives.{max_item_count}
use wave_mq.Netproto.Primitives.RoundTrip.{
  string_field, bytes_field, checked_int32, int16_field, int32_field, int64_field,
}
use wave_mq.Netproto.Record.RoundTrip.{Sendable, received, records_field}
use wave_mq.Netproto.Record.{put_records, read_records}
use wave_mq.Netproto.Messages.{
  ProduceByKeyResponse, ProduceRequest, ProduceByKeyRequest, FetchRequest, FetchResponse,
}
use wave_mq.Netproto.Messages.Records

length-stamp_all : (now : ℕ → ℤ) (rs : List Record) → length (Records.stamp_all now rs) ≡ length rs
unfolding Records.stamp_all
length-stamp_all now [] = refl
length-stamp_all now (r ∷ rs) = omega (arith, length-stamp_all (λ i. now (suc i)) rs)

module _ (now : ℕ → ℤ) where
  stamped :
      (rs : List Record)
      → length rs ≤ max_item_count
      → All Sendable (Records.stamp_all now rs)
      → RoundTrips read_records
          (put_records (Records.stamp_all now rs))
          (map received (Records.stamp_all now rs))
  stamped rs few h =
      records_field (Records.stamp_all now rs) (omega (arith, length-stamp_all now rs)) h

  -- A batch of records reaches the broker as the producer sent it. Where the request has at most
  -- 100000 records, these have the widths of int64 and at most 100000 headers once those without a
  -- time have got one, and `encodeProduceRequest` succeeds, `decodeProduceRequest` returns the topic,
  -- the partition and these records in order, each with all but its checksum, whatever follows.
  pub decode-encode_produce_request :
      (req : ProduceRequest) (bs rest : Bytes)
      → length req.records ≤ max_item_count
      → All Sendable (Records.stamp_all now req.records)
      → Records.encode_produce_request now req ≡ ok bs
      → Records.decode_produce_request (bs ++ rest)
        ≡ ok (record req { records = map received (Records.stamp_all now req.records) }, rest)
  unfolding Records.decode_produce_request Records.encode_produce_request
  decode-encode_produce_request req bs rest few h e =
      (RoundTrips-bind _ (string_field req.topic) (
          RoundTrips-bind _ (checked_int32 req.partition)
            (RoundTrips-last _ (stamped req.records few h) refl))).at
        bs rest e

  -- The same for a batch whose partition the broker chooses: under the conditions of a produce request,
  -- `decodeProduceByKeyRequest` returns the topic, the key, a nil one apart from an empty one, and
  -- these records, whatever follows.
  pub decode-encode_produce_by_key_request :
      (req : ProduceByKeyRequest) (bs rest : Bytes)
      → length req.records ≤ max_item_count
      → All Sendable (Records.stamp_all now req.records)
      → Records.encode_produce_by_key_request now req ≡ ok bs
      → Records.decode_produce_by_key_request (bs ++ rest)
        ≡ ok (record req { records = map received (Records.stamp_all now req.records) }, rest)
  unfolding Records.decode_produce_by_key_request Records.encode_produce_by_key_request
  decode-encode_produce_by_key_request req bs rest few h e =
      (RoundTrips-bind _ (string_field req.topic) (
          RoundTrips-bind _ (bytes_field req.key)
            (RoundTrips-last _ (stamped req.records few h) refl))).at
        bs rest e

-- A fetch gets the records that the broker read. Where the response has at most 100000 records, these
-- and the high watermark have the widths of int64, with at most 100000 headers each, the error code
-- is an int16, and `encodeFetchResponse` succeeds, `decodeFetchResponse` returns the error code, the
-- high watermark and the records in order, each with all but its checksum, whatever follows.
pub decode-encode_fetch_response :
    (resp : FetchResponse) (bs rest : Bytes)
    → length resp.records ≤ max_item_count
    → All Sendable resp.records
    → FitsSigned i64_half resp.high_watermark
    → FitsSigned i16_half resp.error
    → Records.encode_fetch_response resp ≡ ok bs
    → Records.decode_fetch_response (bs ++ rest)
      ≡ ok (record resp { records = map received resp.records }, rest)
unfolding Records.decode_fetch_response Records.encode_fetch_response
decode-encode_fetch_response resp bs rest few h high code e =
    (RoundTrips-bind _ (int16_field resp.error code) (
        RoundTrips-bind _ (records_field resp.records few h)
          (RoundTrips-last _ (int64_field resp.high_watermark high) refl))).at
      bs rest e

-- A fetch request arrives as it was sent. Where its offset is an int64, its limit an int32 and
-- `encodeFetchRequest` succeeds, `decodeFetchRequest` returns the request, whatever follows.
pub decode-encode_fetch_request :
    (req : FetchRequest) (bs rest : Bytes)
    → FitsSigned i64_half req.offset
    → FitsSigned i32_half req.max_bytes
    → Records.encode_fetch_request req ≡ ok bs
    → Records.decode_fetch_request (bs ++ rest) ≡ ok (req, rest)
unfolding Records.decode_fetch_request Records.encode_fetch_request
decode-encode_fetch_request req bs rest wide limit e =
    (RoundTrips-bind _ (string_field req.topic) (
        RoundTrips-bind _ (checked_int32 req.partition) (
          RoundTrips-bind _ (int64_field req.offset wide)
            (RoundTrips-last _ (int32_field req.max_bytes limit) refl)))).at
      bs rest e

in_partition_range : (z : ℤ) → Records.no_partition_number z ≡ false → FitsSigned i32_half z
unfolding Records.no_partition_number
in_partition_range (pos n) h = ground arith
in_partition_range (negsuc n) h = ground arith

key_response_field :
    (resp : ProduceByKeyResponse)
    → FitsSigned i64_half resp.base_offset
    → FitsSigned i16_half resp.error
    → RoundTrips Records.decode_produce_by_key_response
        (Records.encode_produce_by_key_response resp)
        resp
unfolding Records.decode_produce_by_key_response Records.encode_produce_by_key_response
key_response_field resp wide code = RoundTrips-check _ _ λ h.
    RoundTrips-bind _ (int32_field resp.partition (in_partition_range resp.partition h)) (
      RoundTrips-bind _ (int64_field resp.base_offset wide)
        (RoundTrips-last _ (int16_field resp.error code) refl))

-- The answer to a batch routed by its key arrives as it was sent, also with -1 for the partition of an
-- error. Where the offset is an int64, the error code an int16 and `encodeProduceByKeyResponse`
-- succeeds, `decodeProduceByKeyResponse` returns the response, whatever follows.
pub decode-encode_produce_by_key_response :
    (resp : ProduceByKeyResponse) (bs rest : Bytes)
    → FitsSigned i64_half resp.base_offset
    → FitsSigned i16_half resp.error
    → Records.encode_produce_by_key_response resp ≡ ok bs
    → Records.decode_produce_by_key_response (bs ++ rest) ≡ ok (resp, rest)
decode-encode_produce_by_key_response resp bs rest wide code e =
    (key_response_field resp wide code).at bs rest e
