-- ===== src/Mqtt/Codec.antt =====
-- internal/mqtt/codec.go: reading the packets of a client, and writing those of the broker.
pub mod RoundTrip
pub mod Subscribe
use wave_mq.Prelude.{
  ℕ, zero, suc, ◌*◌, ◌/◌, ◌%◌, ◌^◌, ◌<◌, Bool, true, false, not, Option, none, some, List, [], ◌∷◌,
  length, bit_and, bit_or, ltb, leb, ◌==◌, ◌&&◌, if◌then◌else◌, Result, ok, err,
}
use wave_mq.Wire.{
  Bytes, Error, no_fuel, string_too_long, unsupported_protocol, unsupported_packet_type, Reader,
  Writer, pure, raise, ◌>>=◌, ◌>>◌, reject_if, read_full, check, ◌▹◌, put_be, read_be, put_byte,
  read_byte, string_eq,
}
use wave_mq.Mqtt.Length.{encode_remaining_length, decode_remaining_length}
use wave_mq.Mqtt.Packets.{
  ConnectPacket, ConnackPacket, Subscription, SubscribePacket, SubackPacket, PublishPacket,
  PubackPacket, Packet, connect, subscribe, publish, puback, pingreq, disconnect,
}

-- toUint16Length
unfoldable pub check_uint16_length : ℕ → Writer
check_uint16_length n = check (ltb 65535 n) string_too_long

unfoldable pub write_string : Bytes → Writer
unfolding check_uint16_length
write_string s = check_uint16_length (length s) ▹ (put_be 2 (length s) ▹ ok s)

unfoldable pub read_string : Reader Bytes
read_string = do l ← read_be 2; read_full l

-- "MQTT"
abbrev pub protocol_name : Bytes
protocol_name = 77 ∷ 81 ∷ 84 ∷ 84 ∷ []

-- `readBytes` returns no nil slice.
unfoldable pub read_bytes : Reader (Option Bytes)
read_bytes = do s ← read_string; pure (some s)

unfoldable pub optional {ℓ} : {A : Type ℓ} → Bool → A → Reader A → Reader A
optional b default m = if b then m else pure default

-- `flags & mask != 0`
abbrev pub has_flag : ℕ → ℕ → Bool
has_flag flags mask = not (bit_and flags mask == 0)

unfoldable pub decode_connect : Reader ConnectPacket
unfolding string_eq read_bytes optional
decode_connect = do
  proto_name ← read_string
  reject_if (not (string_eq proto_name protocol_name)) unsupported_protocol
  proto_level ← read_byte
  connect_flags ← read_byte
  keep_alive ← read_be 2
  client_id ← read_string
  username ← optional (has_flag connect_flags 0x80) [] read_string
  password ← optional (has_flag connect_flags 0x40) none read_bytes
  pure (record {
    client_id = client_id;
    keep_alive_sec = keep_alive;
    clean_start = has_flag connect_flags 0x02;
    username = username;
    auth_data = password;
  })

-- `for r.Len() > 0`, on fuel: each subscription takes a byte at least.
unfoldable pub decode_topics : ℕ → Bytes → Result Error (List Subscription)
decode_topics fuel [] = ok []
decode_topics zero (b ∷ bs) = err no_fuel
decode_topics (suc fuel) (b ∷ bs) = elim (read_string (b ∷ bs)) [
  | err e ↦ err e
  | ok (filter', r) ↦ elim (read_byte r) [
    | err e ↦ err e
    | ok (qos', r') ↦ elim (decode_topics fuel r') [
      | err e ↦ err e
      | ok subs ↦ ok (record { filter = filter'; qos = bit_and qos' 0x03 } ∷ subs)
    ]
  ]
]

unfoldable pub all_topics : Reader (List Subscription)
unfolding decode_topics
all_topics r = elim (decode_topics (length r) r) [ ok subs ↦ ok (subs, []) | err e ↦ err e ]

unfoldable pub decode_subscribe : Reader SubscribePacket
unfolding all_topics
decode_subscribe = do
  packet_id' ← read_be 2
  subs ← all_topics
  pure (record { packet_id = packet_id'; topics = subs })

-- `r.Bytes()`: all that is left
unfoldable pub read_rest : Reader Bytes
read_rest r = ok (r, [])

unfoldable pub decode_publish : ℕ → Reader PublishPacket
unfolding optional read_rest
decode_publish flags = do
  topic' ← read_string
  let qos' = bit_and (flags / 2) 0x03
  packet_id' ← optional (ltb 0 qos') 0 (read_be 2)
  payload' ← read_rest
  pure (record {
    topic = topic';
    qos = qos';
    duplicate = has_flag flags 0x08;
    packet_id = packet_id';
    payload = payload';
  })

unfoldable pub decode_puback : Reader PubackPacket
decode_puback = do packet_id' ← read_be 2; pure (record { packet_id = packet_id' })

-- A body is decoded from its own buffer; what the decoder leaves of it is dropped.
unfoldable pub from_body {ℓ} : {A : Type ℓ} → (A → Packet) → Reader A → Bytes → Reader Packet
from_body f m body r = elim (m body) [ ok (a, _) ↦ ok (f a, r) | err e ↦ err e ]

unfoldable pub decode_body : ℕ → ℕ → Bytes → Reader Packet
unfolding from_body
decode_body packet_type flags body =
    if packet_type == 1
    then from_body connect decode_connect body
    else if packet_type == 8
    then from_body subscribe decode_subscribe body
    else if packet_type == 3
    then from_body publish (decode_publish flags) body
    else if packet_type == 4
    then from_body puback decode_puback body
    else if packet_type == 12
    then pure pingreq
    else if packet_type == 14
    then pure disconnect
    else raise unsupported_packet_type

unfoldable pub read_packet : Reader Packet
unfolding decode_body
read_packet = do
  fixed_header ← read_byte
  remaining ← decode_remaining_length
  body ← read_full remaining
  decode_body (fixed_header / 16) (bit_and fixed_header 0x0f) body

unfoldable pub length_bytes : Option Bytes → Writer
length_bytes none = err no_fuel
length_bytes (some bs) = ok bs

-- The fixed header and then the body, once that is complete.
unfoldable pub write_packet : ℕ → Writer → Writer
unfolding length_bytes
write_packet header (ok body) =
    put_byte header ▹ (length_bytes (encode_remaining_length (length body)) ▹ ok body)
write_packet header (err e) = err e

unfoldable pub write_connack : ConnackPacket → Writer
unfolding write_packet
write_connack pkt =
    write_packet (2 * 16)
      (put_byte (if pkt.session_present then 1 else 0) ▹ put_byte pkt.return_code)

unfoldable pub write_suback : SubackPacket → Writer
unfolding write_packet
write_suback pkt = write_packet (9 * 16) (put_be 2 pkt.packet_id ▹ ok pkt.granted)

abbrev pub publish_flags : ℕ → Bool → ℕ
publish_flags qos' duplicate' =
    let flags = bit_or (3 * 16) (qos' * 2 % 256) in if duplicate' then bit_or flags 0x08 else flags

unfoldable pub write_publish : PublishPacket → Writer
unfolding write_packet
write_publish pkt = write_packet (publish_flags pkt.qos pkt.duplicate) (
    write_string pkt.topic
    ▹ ((if ltb 0 pkt.qos then put_be 2 pkt.packet_id else ok []) ▹ ok pkt.payload))

unfoldable pub write_puback : PubackPacket → Writer
unfolding write_packet
write_puback pkt = write_packet (4 * 16) (put_be 2 pkt.packet_id)

unfoldable pub write_pingresp : Writer
write_pingresp = put_byte (13 * 16) ▹ put_byte 0
