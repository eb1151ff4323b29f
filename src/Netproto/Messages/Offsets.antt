-- ===== src/Netproto/Messages/Offsets.antt =====
-- internal/netproto/codec.go: the messages on committed offsets and on a log's bounds, and the ping.
pub mod RoundTrip
use wave_mq.Prelude.{ok, []}
use wave_mq.Wire.{
  Reader, Writer, pure, ◌>>=◌, ◌▹◌, i16_half, i32_half, i64_half, put_be_int, read_be_int,
}
use wave_mq.Netproto.Primitives.{put_checked_int32, put_string, read_string}
use wave_mq.Netproto.Messages.{
  CommitOffsetRequest, CommitOffsetResponse, FetchCommittedRequest, FetchCommittedResponse,
  ListOffsetsRequest, ListOffsetsResponse, PingResponse,
}

unfoldable pub encode_ping_request : Writer
encode_ping_request = ok []

unfoldable pub encode_ping_response : PingResponse → Writer
encode_ping_response resp = put_be_int 2 i16_half resp.error

unfoldable pub decode_ping_response : Reader PingResponse
decode_ping_response = do ec ← read_be_int 2 i16_half; pure (record { error = ec })

unfoldable pub encode_commit_offset_request : CommitOffsetRequest → Writer
encode_commit_offset_request req =
    put_string req.group
    ▹ (put_string req.topic ▹ (put_checked_int32 req.partition ▹ put_be_int 8 i64_half req.offset))

unfoldable pub decode_commit_offset_request : Reader CommitOffsetRequest
decode_commit_offset_request = do
  group' ← read_string
  topic' ← read_string
  partition' ← read_be_int 4 i32_half
  offset' ← read_be_int 8 i64_half
  pure (record { group = group'; topic = topic'; partition = partition'; offset = offset' })

unfoldable pub encode_commit_offset_response : CommitOffsetResponse → Writer
encode_commit_offset_response resp = put_be_int 2 i16_half resp.error

unfoldable pub decode_commit_offset_response : Reader CommitOffsetResponse
decode_commit_offset_response = do ec ← read_be_int 2 i16_half; pure (record { error = ec })

unfoldable pub encode_fetch_committed_request : FetchCommittedRequest → Writer
encode_fetch_committed_request req =
    put_string req.group ▹ (put_string req.topic ▹ put_checked_int32 req.partition)

unfoldable pub decode_fetch_committed_request : Reader FetchCommittedRequest
decode_fetch_committed_request = do
  group' ← read_string
  topic' ← read_string
  partition' ← read_be_int 4 i32_half
  pure (record { group = group'; topic = topic'; partition = partition' })

unfoldable pub encode_fetch_committed_response : FetchCommittedResponse → Writer
encode_fetch_committed_response resp =
    put_be_int 8 i64_half resp.offset ▹ put_be_int 2 i16_half resp.error

unfoldable pub decode_fetch_committed_response : Reader FetchCommittedResponse
decode_fetch_committed_response = do
  offset' ← read_be_int 8 i64_half
  ec ← read_be_int 2 i16_half
  pure (record { offset = offset'; error = ec })

unfoldable pub encode_list_offsets_request : ListOffsetsRequest → Writer
encode_list_offsets_request req = put_string req.topic ▹ put_checked_int32 req.partition

unfoldable pub decode_list_offsets_request : Reader ListOffsetsRequest
decode_list_offsets_request = do
  topic' ← read_string
  partition' ← read_be_int 4 i32_half
  pure (record { topic = topic'; partition = partition' })

unfoldable pub encode_list_offsets_response : ListOffsetsResponse → Writer
encode_list_offsets_response resp =
    put_be_int 2 i16_half resp.error
    ▹ (put_be_int 8 i64_half resp.earliest ▹ put_be_int 8 i64_half resp.latest)

unfoldable pub decode_list_offsets_response : Reader ListOffsetsResponse
decode_list_offsets_response = do
  ec ← read_be_int 2 i16_half
  first ← read_be_int 8 i64_half
  last ← read_be_int 8 i64_half
  pure (record { earliest = first; latest = last; error = ec })
