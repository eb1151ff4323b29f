-- ===== src/Mqtt/Examples.antt =====
-- Runs of internal/mqtt/codec.go on small packets, and its theorems at concrete inputs.
use wave_mq.Prelude.{◌+◌, ◌*◌, ◌≡◌, refl, true, some, [], ◌∷◌, ◌++◌, ok, arith}
use wave_mq.Wire.{Bytes, be_bytes, ◌▹◌, put_be, put_byte}
use wave_mq.Mqtt.Length.{encode_remaining_length, decode_remaining_length}
use wave_mq.Mqtt.Length.RoundTrip.{decode-encode_remaining_length}
use wave_mq.Mqtt.Packets.{PublishPacket, SubscribePacket, publish, puback, subscribe}
use wave_mq.Mqtt.Codec.{read_packet, write_packet, write_publish, write_string, write_puback}
use wave_mq.Mqtt.Codec.RoundTrip.{read_packet-write_publish, read_packet-write_puback}
use wave_mq.Mqtt.Codec.Subscribe.{write_topics, write_subscribe_body, read_packet-subscribe}

decode-encode_remaining_length_example :
    (bs : Bytes) × (encode_remaining_length 321 ≡ some bs)
    × (decode_remaining_length (bs ++ (7 ∷ [])) ≡ ok (321, 7 ∷ []))
decode-encode_remaining_length_example = decode-encode_remaining_length 321 (7 ∷ []) (omega arith)

length_321 : encode_remaining_length 321 ≡ some (193 ∷ 2 ∷ [])
unfolding encode_remaining_length
length_321 = refl

abbrev hello : PublishPacket
hello = record {
  topic = 97 ∷ 47 ∷ 98 ∷ [];
  qos = 1;
  duplicate = true;
  packet_id = 10;
  payload = 104 ∷ 105 ∷ [];
}

abbrev hello_bytes : Bytes
hello_bytes = 58 ∷ 9 ∷ 0 ∷ 3 ∷ 97 ∷ 47 ∷ 98 ∷ 0 ∷ 10 ∷ 104 ∷ 105 ∷ []

hello_written : write_publish hello ≡ ok hello_bytes
unfolding write_publish write_string put_be be_bytes put_byte ◌▹◌ encode_remaining_length
hello_written = refl

read_packet-write_publish_example :
    read_packet (hello_bytes ++ (192 ∷ 0 ∷ [])) ≡ ok (publish hello, 192 ∷ 0 ∷ [])
read_packet-write_publish_example =
    read_packet-write_publish hello hello_bytes (192 ∷ 0 ∷ []) (omega arith) (omega arith)
      hello_written (omega arith)

ack_written : write_puback (record { packet_id = 258 }) ≡ ok (64 ∷ 2 ∷ 1 ∷ 2 ∷ [])
unfolding write_puback put_be be_bytes put_byte ◌▹◌ encode_remaining_length
ack_written = refl

read_packet-write_puback_example :
    read_packet ((64 ∷ 2 ∷ 1 ∷ 2 ∷ []) ++ []) ≡ ok (puback (record { packet_id = 258 }), [])
read_packet-write_puback_example =
    read_packet-write_puback (record { packet_id = 258 }) (64 ∷ 2 ∷ 1 ∷ 2 ∷ []) [] (omega arith)
      ack_written (omega arith)

abbrev two_topics : SubscribePacket
two_topics = record {
  packet_id = 5;
  topics = record { filter = 97 ∷ []; qos = 1 } ∷ record { filter = 35 ∷ []; qos = 0 } ∷ [];
}

abbrev two_topics_bytes : Bytes
two_topics_bytes = 130 ∷ 10 ∷ 0 ∷ 5 ∷ 0 ∷ 1 ∷ 97 ∷ 1 ∷ 0 ∷ 1 ∷ 35 ∷ 0 ∷ []

two_topics_written :
    write_packet (8 * 16 + 2) (write_subscribe_body two_topics) ≡ ok two_topics_bytes
unfolding write_packet write_topics write_string put_be be_bytes put_byte ◌▹◌
    encode_remaining_length
two_topics_written = refl

read_packet-subscribe_example : read_packet (two_topics_bytes ++ []) ≡ ok (subscribe two_topics, [])
read_packet-subscribe_example =
    read_packet-subscribe two_topics two_topics_bytes [] (omega arith)
      (omega arith, (omega arith, tt)) two_topics_written (omega arith)
