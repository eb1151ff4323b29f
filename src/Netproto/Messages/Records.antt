-- ===== src/Netproto/Messages/Records.antt =====
-- internal/netproto/codec.go: the messages that carry records.
pub mod RoundTrip
use wave_mq.Prelude.{ℕ, zero, suc, Bool, List, [], ◌∷◌, if◌then◌else◌, leb, true, false}
use wave_mq.Wire.{
  Bytes, out_of_range, Reader, Writer, pure, ◌>>=◌, check, ◌▹◌, ℤ, pos, negsuc, i16_half, i32_half,
  i64_half, put_be_int, read_be_int, int_eq,
}
use wave_mq.Api.{Record}
use wave_mq.Netproto.Primitives.{put_checked_int32, put_string, read_string, put_bytes, read_bytes}
use wave_mq.Netproto.Record.{put_records, read_records}
use wave_mq.Netproto.Messages.{
  ProduceRequest, ProduceResponse, ProduceByKeyRequest, ProduceByKeyResponse, FetchRequest,
  FetchResponse,
}

-- Go's zero time, 1 January of the year 1, in nanoseconds from 1970.
abbrev pub zero_time : ℤ
zero_time = negsuc 62135596799999999999

-- A record without a time gets the time of day; `now i` is what time.Now returns in round `i`.
unfoldable pub stamp : ℤ → Record → Record
stamp now r = if int_eq r.timestamp zero_time then record r { timestamp = now } else r

unfoldable pub stamp_all : (ℕ → ℤ) → List Record → List Record
unfolding stamp
stamp_all now [] = []
stamp_all now (r ∷ rs) = stamp (now 0) r ∷ stamp_all (λ i. now (suc i)) rs

unfoldable pub encode_produce_request : (ℕ → ℤ) → ProduceRequest → Writer
unfolding stamp_all put_records
encode_produce_request now req =
    put_string req.topic
    ▹ (put_checked_int32 req.partition ▹ put_records (stamp_all now req.records))

unfoldable pub decode_produce_request : Reader ProduceRequest
unfolding read_records
decode_produce_request = do
  topic' ← read_string
  partition' ← read_be_int 4 i32_half
  records' ← read_records
  pure (record { topic = topic'; partition = partition'; records = records' })

unfoldable pub encode_produce_response : ProduceResponse → Writer
encode_produce_response resp =
    put_be_int 8 i64_half resp.base_offset ▹ put_be_int 2 i16_half resp.error

unfoldable pub decode_produce_response : Reader ProduceResponse
decode_produce_response = do
  base ← read_be_int 8 i64_half
  ec ← read_be_int 2 i16_half
  pure (record { base_offset = base; error = ec })

unfoldable pub encode_produce_by_key_request : (ℕ → ℤ) → ProduceByKeyRequest → Writer
unfolding stamp_all put_records
encode_produce_by_key_request now req =
    put_string req.topic ▹ (put_bytes req.key ▹ put_records (stamp_all now req.records))

unfoldable pub decode_produce_by_key_request : Reader ProduceByKeyRequest
unfolding read_records
decode_produce_by_key_request = do
  topic' ← read_string
  key' ← read_bytes
  records' ← read_records
  pure (record { topic = topic'; key = key'; records = records' })

-- Below -1 or above the largest int32; -1 is the partition of an error.
unfoldable pub no_partition_number : ℤ → Bool
no_partition_number (pos n) = leb i32_half n
no_partition_number (negsuc n) = leb 1 n

unfoldable pub encode_produce_by_key_response : ProduceByKeyResponse → Writer
unfolding no_partition_number
encode_produce_by_key_response resp =
    check (no_partition_number resp.partition) out_of_range
    ▹ (put_be_int 4 i32_half resp.partition
        ▹ (put_be_int 8 i64_half resp.base_offset ▹ put_be_int 2 i16_half resp.error))

unfoldable pub decode_produce_by_key_response : Reader ProduceByKeyResponse
decode_produce_by_key_response = do
  partition' ← read_be_int 4 i32_half
  base ← read_be_int 8 i64_half
  ec ← read_be_int 2 i16_half
  pure (record { partition = partition'; base_offset = base; error = ec })

unfoldable pub encode_fetch_request : FetchRequest → Writer
encode_fetch_request req =
    put_string req.topic
    ▹ (put_checked_int32 req.partition
        ▹ (put_be_int 8 i64_half req.offset ▹ put_be_int 4 i32_half req.max_bytes))

unfoldable pub decode_fetch_request : Reader FetchRequest
decode_fetch_request = do
  topic' ← read_string
  partition' ← read_be_int 4 i32_half
  offset' ← read_be_int 8 i64_half
  max ← read_be_int 4 i32_half
  pure (record { topic = topic'; partition = partition'; offset = offset'; max_bytes = max })

unfoldable pub encode_fetch_response : FetchResponse → Writer
unfolding put_records
encode_fetch_response resp =
    put_be_int 2 i16_half resp.error
    ▹ (put_records resp.records ▹ put_be_int 8 i64_half resp.high_watermark)

unfoldable pub decode_fetch_response : Reader FetchResponse
unfolding read_records
decode_fetch_response = do
  ec ← read_be_int 2 i16_half
  records' ← read_records
  hwm ← read_be_int 8 i64_half
  pure (record { records = records'; high_watermark = hwm; error = ec })
