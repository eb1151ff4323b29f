-- ===== src/Netproto/Messages/Offsets/RoundTrip.antt =====
-- Reading back the messages on offsets.
use wave_mq.Prelude.{◌≡◌, refl, ◌++◌, ok}
use wave_mq.Wire.{Bytes, RoundTrips-bind, RoundTrips-last, FitsSigned, i16_half, i64_half}
use wave_mq.Netproto.Primitives.RoundTrip.{string_field, checked_int32, int16_field, int64_field}
use wave_mq.Netproto.Messages.{
  CommitOffsetRequest, FetchCommittedRequest, FetchCommittedResponse, ListOffsetsRequest,
  ListOffsetsResponse,
}
use wave_mq.Netproto.Messages.Offsets

-- A commit arrives as it was sent. Where its offset is an int64 and `encodeCommitOffsetRequest`
-- succeeds, `decodeCommitOffsetRequest` returns the request, whatever follows.
pub decode-encode_commit_offset_request :
    (req : CommitOffsetRequest) (bs rest : Bytes)
    → FitsSigned i64_half req.offset
    → Offsets.encode_commit_offset_request req ≡ ok bs
    → Offsets.decode_commit_offset_request (bs ++ rest) ≡ ok (req, rest)
unfolding Offsets.decode_commit_offset_request Offsets.encode_commit_offset_request
decode-encode_commit_offset_request req bs rest wide e =
    (RoundTrips-bind _ (string_field req.group) (
        RoundTrips-bind _ (string_field req.topic) (
          RoundTrips-bind _ (checked_int32 req.partition)
            (RoundTrips-last _ (int64_field req.offset wide) refl)))).at
      bs rest e

-- The question for a committed offset and its answer arrive as they were sent. Where the offset is an
-- int64, the error code an int16, and `encodeFetchCommittedRequest` and `encodeFetchCommittedResponse`
-- succeed, the decoders return the request and the response, whatever follows.
pub decode-encode_fetch_committed :
    (req : FetchCommittedRequest) (resp : FetchCommittedResponse) (asked answered rest : Bytes)
    → FitsSigned i64_half resp.offset
    → FitsSigned i16_half resp.error
    → Offsets.encode_fetch_committed_request req ≡ ok asked
    → Offsets.encode_fetch_committed_response resp ≡ ok answered
    → (Offsets.decode_fetch_committed_request (asked ++ rest) ≡ ok (req, rest))
      × (Offsets.decode_fetch_committed_response (answered ++ rest) ≡ ok (resp, rest))
unfolding Offsets.decode_fetch_committed_request Offsets.encode_fetch_committed_request
    Offsets.decode_fetch_committed_response Offsets.encode_fetch_committed_response
decode-encode_fetch_committed req resp asked answered rest wide code e e' = (
  (RoundTrips-bind _ (string_field req.group) (
        RoundTrips-bind _ (string_field req.topic)
          (RoundTrips-last _ (checked_int32 req.partition) refl))).at
      asked rest e,
  (RoundTrips-bind _ (int64_field resp.offset wide)
        (RoundTrips-last _ (int16_field resp.error code) refl)).at
      answered rest e',
)

-- The question for the bounds of a log and its answer arrive as they were sent. Where the bounds are
-- int64s, the error code an int16, and `encodeListOffsetsRequest` and `encodeListOffsetsResponse`
-- succeed, the decoders return the request and the response, whatever follows.
pub decode-encode_list_offsets :
    (req : ListOffsetsRequest) (resp : ListOffsetsResponse) (asked answered rest : Bytes)
    → FitsSigned i64_half resp.earliest
    → FitsSigned i64_half resp.latest
    → FitsSigned i16_half resp.error
    → Offsets.encode_list_offsets_request req ≡ ok asked
    → Offsets.encode_list_offsets_response resp ≡ ok answered
    → (Offsets.decode_list_offsets_request (asked ++ rest) ≡ ok (req, rest))
      × (Offsets.decode_list_offsets_response (answered ++ rest) ≡ ok (resp, rest))
unfolding Offsets.decode_list_offsets_request Offsets.encode_list_offsets_request
    Offsets.decode_list_offsets_response Offsets.encode_list_offsets_response
decode-encode_list_offsets req resp asked answered rest low high code e e' = (
  (RoundTrips-bind _ (string_field req.topic)
        (RoundTrips-last _ (checked_int32 req.partition) refl)).at
      asked rest e,
  (RoundTrips-bind _ (int16_field resp.error code) (
        RoundTrips-bind _ (int64_field resp.earliest low)
          (RoundTrips-last _ (int64_field resp.latest high) refl))).at
      answered rest e',
)
