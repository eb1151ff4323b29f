-- ===== src/Netproto/Examples.antt =====
-- Runs of internal/netproto/codec.go on small inputs, and its theorems at concrete inputs.
use wave_mq.Prelude.{
  ℕ, zero, suc, ◌+◌, ◌≡◌, refl, none, some, List, [], ◌∷◌, ◌++◌, length, map, ok, err, arith,
}
use wave_mq.Wire.{
  Bytes, frame_too_long, Writer, ℤ, pos, negsuc, put_be, put_be_int, be_bytes, ◌▹◌, int_eq,
}
use wave_mq.Api.{Record, PartitionMetadata, role_follower}
use wave_mq.Netproto.Primitives.{put_string, put_bytes, put_counted, put_checked_int32}
use wave_mq.Netproto.Frame.{encode_frame, decode_frame}
use wave_mq.Netproto.Frame.RoundTrip.{frame_of, decode_frame-encode_frame, decode_frame-too_long}
use wave_mq.Netproto.Record.RoundTrip.{Sendable, received}
use wave_mq.Netproto.Messages.{
  CreateTopicRequest, ProduceRequest, ProduceByKeyRequest, ProduceByKeyResponse, FetchRequest,
  FetchResponse, MetadataResponse, CommitOffsetRequest, FetchCommittedRequest,
  FetchCommittedResponse, ListOffsetsRequest, ListOffsetsResponse,
}
use wave_mq.Netproto.Messages.Records
use wave_mq.Netproto.Messages.Records.RoundTrip.{
  decode-encode_produce_request, decode-encode_produce_by_key_request, decode-encode_fetch_response,
  decode-encode_fetch_request, decode-encode_produce_by_key_response,
}
use wave_mq.Netproto.Messages.Topics
use wave_mq.Netproto.Messages.Topics.RoundTrip.{
  Describable, decode-encode_metadata_response, decode-encode_create_topic_request,
}
use wave_mq.Netproto.Messages.Offsets
use wave_mq.Netproto.Messages.Offsets.RoundTrip.{
  decode-encode_commit_offset_request, decode-encode_fetch_committed, decode-encode_list_offsets,
}

abbrev sent : Writer → Bytes
sent (ok bs) = bs
sent (err e) = []

abbrev topic_name : Bytes
topic_name = 116 ∷ 49 ∷ []

decode_frame-encode_frame_example :
    (bs : Bytes) × (encode_frame (frame_of 1 7 topic_name) ≡ ok bs)
    × ((rest : Bytes) → decode_frame (bs ++ rest) ≡ ok (frame_of 1 7 topic_name, rest))
decode_frame-encode_frame_example =
    decode_frame-encode_frame 1 7 topic_name (omega arith) (omega arith) (omega arith)

zeros : ℕ → Bytes
zeros zero = []
zeros (suc n) = 0 ∷ zeros n

length-zeros : (n : ℕ) → length (zeros n) ≡ n
unfolding zeros
length-zeros zero = refl
length-zeros (suc n) = omega (arith, length-zeros n)

decode_frame-too_long_example :
    (bs : Bytes) × (encode_frame (frame_of 1 7 (zeros 16777216)) ≡ ok bs)
    × ((rest : Bytes) → decode_frame (bs ++ rest) ≡ err frame_too_long)
decode_frame-too_long_example =
    decode_frame-too_long 1 7 (zeros 16777216) (omega arith) (omega arith)
      (omega (arith, length-zeros 16777216)) (omega (arith, length-zeros 16777216))

-- One record with a time, and one without.
abbrev dated : Record
dated = record {
  offset = pos 0;
  timestamp = pos 1000;
  key = none;
  value = some topic_name;
  headers = record { key = topic_name; value = some [] } ∷ [];
  crc32c = 9;
}

abbrev undated : Record
undated = record dated { timestamp = Records.zero_time }

abbrev noon : ℕ → ℤ
noon i = pos (12 + i)

abbrev batch : List Record
batch = dated ∷ (undated ∷ [])

stamped : Records.stamp_all noon batch ≡ dated ∷ ((record dated { timestamp = pos 13 }) ∷ [])
unfolding Records.stamp_all int_eq
stamped = refl

dated-Sendable : Sendable dated
dated-Sendable = record {
  offset_fits = omega arith;
  time_fits = omega arith;
  few_headers = omega arith;
}

noon-Sendable : Sendable (record dated { timestamp = pos 13 })
noon-Sendable = record {
  offset_fits = omega arith;
  time_fits = omega arith;
  few_headers = omega arith;
}

abbrev produced : ProduceRequest
produced = record { topic = topic_name; partition = pos 2; records = batch }

decode-encode_produce_request_example :
    Records.decode_produce_request (sent (Records.encode_produce_request noon produced) ++ [])
    ≡ ok (record produced { records = map received (Records.stamp_all noon batch) }, [])
unfolding Records.encode_produce_request int_eq put_be put_be_int be_bytes ◌▹◌ put_string put_bytes
    put_counted put_checked_int32
decode-encode_produce_request_example =
    decode-encode_produce_request noon produced
      (sent (Records.encode_produce_request noon produced)) [] (omega arith)
      (dated-Sendable, (noon-Sendable, tt)) refl

abbrev keyed : ProduceByKeyRequest
keyed = record { topic = topic_name; key = some []; records = batch }

decode-encode_produce_by_key_request_example :
    Records.decode_produce_by_key_request
      (sent (Records.encode_produce_by_key_request noon keyed) ++ [])
    ≡ ok (record keyed { records = map received (Records.stamp_all noon batch) }, [])
unfolding Records.encode_produce_by_key_request int_eq put_be put_be_int be_bytes ◌▹◌ put_string
    put_bytes put_counted put_checked_int32
decode-encode_produce_by_key_request_example =
    decode-encode_produce_by_key_request noon keyed
      (sent (Records.encode_produce_by_key_request noon keyed)) [] (omega arith)
      (dated-Sendable, (noon-Sendable, tt)) refl

abbrev fetched : FetchResponse
fetched = record { records = dated ∷ []; high_watermark = pos 5; error = pos 0 }

decode-encode_fetch_response_example :
    Records.decode_fetch_response (sent (Records.encode_fetch_response fetched) ++ [])
    ≡ ok (record fetched { records = map received (dated ∷ []) }, [])
unfolding Records.encode_fetch_response put_be put_be_int be_bytes ◌▹◌ put_string put_bytes
    put_counted put_checked_int32
decode-encode_fetch_response_example =
    decode-encode_fetch_response fetched (sent (Records.encode_fetch_response fetched)) []
      (omega arith) (dated-Sendable, tt) (omega arith) (omega arith) refl

abbrev fetch : FetchRequest
fetch = record { topic = topic_name; partition = pos 2; offset = pos 3; max_bytes = negsuc 0 }

decode-encode_fetch_request_example :
    Records.decode_fetch_request (sent (Records.encode_fetch_request fetch) ++ (4 ∷ []))
    ≡ ok (fetch, 4 ∷ [])
unfolding Records.encode_fetch_request put_be put_be_int be_bytes ◌▹◌ put_string put_bytes
    put_counted put_checked_int32
decode-encode_fetch_request_example =
    decode-encode_fetch_request fetch (sent (Records.encode_fetch_request fetch)) (4 ∷ [])
      (omega arith) (omega arith) refl

abbrev failed : ProduceByKeyResponse
failed = record { partition = negsuc 0; base_offset = pos 0; error = pos 3 }

decode-encode_produce_by_key_response_example :
    Records.decode_produce_by_key_response
      (sent (Records.encode_produce_by_key_response failed) ++ [])
    ≡ ok (failed, [])
unfolding Records.encode_produce_by_key_response put_be put_be_int be_bytes ◌▹◌ put_string put_bytes
    put_counted put_checked_int32
decode-encode_produce_by_key_response_example =
    decode-encode_produce_by_key_response failed
      (sent (Records.encode_produce_by_key_response failed)) [] (omega arith) (omega arith) refl

abbrev described : PartitionMetadata
described = record {
  replica = record {
    topic = topic_name;
    partition = pos 0;
    broker_id = pos 1;
    role = role_follower;
    leader_epoch = pos 4;
  };
  start_offset = pos 0;
  high_watermark = pos 8;
  leader = pos 2;
  replicas = pos 1 ∷ (pos 2 ∷ []);
  isr = pos 2 ∷ [];
}

described-Describable : Describable described
unfolding Topics.role_of_number
described-Describable = record {
  epoch_fits = omega arith;
  start_fits = omega arith;
  high_fits = omega arith;
  role_told = refl;
  few_replicas = omega arith;
  few_isr = omega arith;
}

abbrev cluster : MetadataResponse
cluster = record { partitions = described ∷ []; error = pos 0 }

decode-encode_metadata_response_example :
    Topics.decode_metadata_response (sent (Topics.encode_metadata_response cluster) ++ [])
    ≡ ok (cluster, [])
unfolding Topics.encode_metadata_response put_be put_be_int be_bytes ◌▹◌ put_string put_bytes
    put_counted put_checked_int32
decode-encode_metadata_response_example =
    decode-encode_metadata_response cluster (sent (Topics.encode_metadata_response cluster)) []
      (omega arith) (described-Describable, tt) (omega arith) refl

abbrev creation : CreateTopicRequest
creation = record { topic = topic_name; partitions = pos 3; replication_factor = pos 1 }

decode-encode_create_topic_request_example :
    Topics.decode_create_topic_request (sent (Topics.encode_create_topic_request creation) ++ [])
    ≡ ok (creation, [])
unfolding Topics.encode_create_topic_request put_be put_be_int be_bytes ◌▹◌ put_string put_bytes
    put_counted put_checked_int32
decode-encode_create_topic_request_example =
    decode-encode_create_topic_request creation (sent (Topics.encode_create_topic_request creation))
      [] refl

abbrev commit : CommitOffsetRequest
commit = record { group = 103 ∷ []; topic = topic_name; partition = pos 0; offset = pos 6 }

decode-encode_commit_offset_request_example :
    Offsets.decode_commit_offset_request (sent (Offsets.encode_commit_offset_request commit) ++ [])
    ≡ ok (commit, [])
unfolding Offsets.encode_commit_offset_request put_be put_be_int be_bytes ◌▹◌ put_string put_bytes
    put_counted put_checked_int32
decode-encode_commit_offset_request_example =
    decode-encode_commit_offset_request commit (sent (Offsets.encode_commit_offset_request commit))
      [] (omega arith) refl

abbrev question : FetchCommittedRequest
question = record { group = 103 ∷ []; topic = topic_name; partition = pos 0 }

abbrev answer : FetchCommittedResponse
answer = record { offset = negsuc 0; error = pos 0 }

decode-encode_fetch_committed_example :
    (Offsets.decode_fetch_committed_request
        (sent (Offsets.encode_fetch_committed_request question) ++ [])
      ≡ ok (question, []))
    × (Offsets.decode_fetch_committed_response
          (sent (Offsets.encode_fetch_committed_response answer) ++ [])
        ≡ ok (answer, []))
unfolding Offsets.encode_fetch_committed_request Offsets.encode_fetch_committed_response put_be
    put_be_int be_bytes ◌▹◌ put_string put_bytes put_counted put_checked_int32
decode-encode_fetch_committed_example =
    decode-encode_fetch_committed question answer
      (sent (Offsets.encode_fetch_committed_request question))
      (sent (Offsets.encode_fetch_committed_response answer)) [] (omega arith) (omega arith) refl
      refl

abbrev bounds_question : ListOffsetsRequest
bounds_question = record { topic = topic_name; partition = pos 1 }

abbrev bounds_answer : ListOffsetsResponse
bounds_answer = record { earliest = pos 2; latest = pos 9; error = pos 0 }

decode-encode_list_offsets_example :
    (Offsets.decode_list_offsets_request
        (sent (Offsets.encode_list_offsets_request bounds_question) ++ [])
      ≡ ok (bounds_question, []))
    × (Offsets.decode_list_offsets_response
          (sent (Offsets.encode_list_offsets_response bounds_answer) ++ [])
        ≡ ok (bounds_answer, []))
unfolding Offsets.encode_list_offsets_request Offsets.encode_list_offsets_response put_be put_be_int
    be_bytes ◌▹◌ put_string put_bytes put_counted put_checked_int32
decode-encode_list_offsets_example =
    decode-encode_list_offsets bounds_question bounds_answer
      (sent (Offsets.encode_list_offsets_request bounds_question))
      (sent (Offsets.encode_list_offsets_response bounds_answer)) [] (omega arith) (omega arith)
      (omega arith) refl refl
