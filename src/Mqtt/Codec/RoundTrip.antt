-- ===== src/Mqtt/Codec/RoundTrip.antt =====
-- The packets that both sides send, PUBLISH and PUBACK, read back as they were written.
use wave_mq.Prelude.{
  ℕ, zero, suc, ◌*◌, ◌/◌, ◌^◌, ◌<◌, ◌≡◌, refl, ap, ◌∙◌, Bool, true, false, [], ◌++◌, append_assoc,
  append-nil, length, length-append, bit_and, ltb, if◌then◌else◌, ok, err, arith,
}
use wave_mq.Wire.{
  Bytes, Writer, pure, bind-ok, ok-injective, read_full, read_full-append, read_byte, read_be,
  put_byte, put_be, ◌▹◌, ▹-eq-ok, RoundTrips, RoundTrips-bind, RoundTrips-check, RoundTrips-raw,
  RoundTrips-be, RoundTrips-byte, RoundTrips-last, RoundTrips-pure,
}
use wave_mq.Mqtt.Length.{decode_remaining_length}
use wave_mq.Mqtt.Length.RoundTrip.{decode-encode_remaining_length}
use wave_mq.Mqtt.Packets.{PublishPacket, PubackPacket, publish, puback}
use wave_mq.Mqtt.Codec.{
  write_string, read_string, write_packet, length_bytes, read_packet, decode_body, from_body,
  optional, has_flag, read_rest, decode_publish, decode_puback, publish_flags, write_publish,
  write_puback,
}

pub string_field : (s : Bytes) → RoundTrips read_string (write_string s) s
unfolding read_string write_string
string_field s =
    RoundTrips-check _ _
      λ fits. RoundTrips-bind _ (RoundTrips-be 2 (length s) (ground arith)) (RoundTrips-raw s)

-- The header and the length of a packet are taken off, and the body is decoded.
pub read_packet-write_packet :
    (header : ℕ) (w : Writer) (bs rest : Bytes)
    → header < 256
    → write_packet header w ≡ ok bs
    → length bs < 128 ^ 4
    → (body : Bytes) × (w ≡ ok body)
      × (read_packet (bs ++ rest) ≡ decode_body (header / 16) (bit_and header 0x0f) body rest)
unfolding write_packet
read_packet-write_packet header (err e) bs rest h p small = cc
read_packet-write_packet header (ok body) bs rest h p small =
    let (hs, more, eh, em, split) = ▹-eq-ok _ _ p in
    let (ls, body', el, eb, split') = ▹-eq-ok _ _ em in
    let same : body ≡ body' = ok-injective eb in
    let fits : length body < 128 ^ 4 = omega (
      arith,
      ap length split,
      ap length split',
      ap length same,
      length-append hs more,
      length-append ls body',
    ) in
    let (ls', written, decoded) =
      decode-encode_remaining_length (length body) (body ++ rest) fits in
    let lengths : ls' ≡ ls = ok-injective (rw (written, length_bytes) at el) in
    (
      body,
      refl,
      rw (split, split', ← same, append_assoc hs (ls ++ body) rest, append_assoc ls body rest)
          (steps hs ls eh (rw lengths at decoded)),
    )
  where
    steps :
        (hs ls : Bytes)
        → put_byte header ≡ ok hs
        → decode_remaining_length (ls ++ (body ++ rest)) ≡ ok (length body, body ++ rest)
        → read_packet (hs ++ (ls ++ (body ++ rest)))
          ≡ decode_body (header / 16) (bit_and header 0x0f) body rest
    steps hs ls eh decoded =
        unfold read_packet in
        bind-ok read_byte _ (hs ++ (ls ++ (body ++ rest)))
          ((RoundTrips-byte header h).at hs (ls ++ (body ++ rest)) eh)
        ∙ bind-ok decode_remaining_length _ (ls ++ (body ++ rest)) decoded
        ∙ bind-ok (read_full (length body)) _ (body ++ rest) (read_full-append body rest)

optional_field :
    (b : Bool) (id : ℕ)
    → id < 2 ^ 16
    → RoundTrips (optional b 0 (read_be 2)) (if b then put_be 2 id else ok []) (if b then id else 0)
unfolding optional
optional_field true id h = RoundTrips-be 2 id h
optional_field false id h = RoundTrips-pure 0

-- What comes back of a PUBLISH packet: without a level of service no packet id is sent.
abbrev pub received : PublishPacket → PublishPacket
received p = record p { packet_id = if ltb 0 p.qos then p.packet_id else 0 }

decode_publish-body :
    (p : PublishPacket) (flags : ℕ) (body : Bytes)
    → bit_and (flags / 2) 0x03 ≡ p.qos
    → has_flag flags 0x08 ≡ p.duplicate
    → p.packet_id < 2 ^ 16
    → write_string p.topic ▹ ((if ltb 0 p.qos then put_be 2 p.packet_id else ok []) ▹ ok p.payload)
      ≡ ok body
    → decode_publish flags body ≡ ok (received p, [])
unfolding decode_publish read_rest pure
decode_publish-body p flags body level dup id written =
    let (ts, more, et, em, split) = ▹-eq-ok _ _ written in
    let (is, ps, ei, ep, split') = ▹-eq-ok _ _ em in
    rw (split, split', ← ok-injective ep, level, dup)
      (bind-ok read_string _ (ts ++ (is ++ p.payload))
          ((string_field p.topic).at ts (is ++ p.payload) et)
        ∙ bind-ok (optional (ltb 0 p.qos) 0 (read_be 2)) _ (is ++ p.payload)
            ((optional_field (ltb 0 p.qos) p.packet_id id).at is p.payload ei)
        ∙ bind-ok read_rest _ p.payload refl)

-- The first byte of a PUBLISH packet holds its type, its level of service and the duplicate flag.
record Flags (q : ℕ) (d : Bool) : Type 0 where
  small : publish_flags q d < 256
  kind : publish_flags q d / 16 ≡ 3
  level : bit_and (bit_and (publish_flags q d) 0x0f / 2) 0x03 ≡ q
  dup : has_flag (bit_and (publish_flags q d) 0x0f) 0x08 ≡ d

publish_flags_lem : (q : ℕ) (d : Bool) → q < 4 → Flags q d
publish_flags_lem zero true h = record {
  small = omega arith;
  kind = refl;
  level = refl;
  dup = refl;
}
publish_flags_lem zero false h = record {
  small = omega arith;
  kind = refl;
  level = refl;
  dup = refl;
}
publish_flags_lem (suc zero) true h = record {
  small = omega arith;
  kind = refl;
  level = refl;
  dup = refl;
}
publish_flags_lem (suc zero) false h = record {
  small = omega arith;
  kind = refl;
  level = refl;
  dup = refl;
}
publish_flags_lem (suc (suc zero)) true h = record {
  small = omega arith;
  kind = refl;
  level = refl;
  dup = refl;
}
publish_flags_lem (suc (suc zero)) false h = record {
  small = omega arith;
  kind = refl;
  level = refl;
  dup = refl;
}
publish_flags_lem (suc (suc (suc zero))) true h = record {
  small = omega arith;
  kind = refl;
  level = refl;
  dup = refl;
}
publish_flags_lem (suc (suc (suc zero))) false h = record {
  small = omega arith;
  kind = refl;
  level = refl;
  dup = refl;
}
publish_flags_lem (suc (suc (suc (suc n)))) d h = absurd (omega arith)

-- A PUBLISH packet comes back: where `writePublish` accepts a packet with a level of service that
-- two bits hold and a packet id of 16 bits, and the bytes stay below the largest length of MQTT,
-- `readPacket` returns the same packet, except that without a level of service the packet id, which
-- is not sent, is 0; and it leaves the bytes that follow the packet.
pub read_packet-write_publish :
    (p : PublishPacket) (bs rest : Bytes)
    → p.qos < 4
    → p.packet_id < 2 ^ 16
    → write_publish p ≡ ok bs
    → length bs < 128 ^ 4
    → read_packet (bs ++ rest) ≡ ok (publish (received p), rest)
unfolding write_publish
read_packet-write_publish p bs rest level id written small =
    let flags = publish_flags_lem p.qos p.duplicate level in
    let (body, eb, e) =
      read_packet-write_packet (publish_flags p.qos p.duplicate) _ bs rest flags.small written
        small in
    e ∙ publish_body body _ _ flags.kind (decode_publish-body p _ body flags.level flags.dup id eb)
  where
    publish_body :
        (body : Bytes) (k f : ℕ)
        → k ≡ 3
        → decode_publish f body ≡ ok (received p, [])
        → decode_body k f body rest ≡ ok (publish (received p), rest)
    publish_body body k f h d = rw h (unfold decode_body in rw (d, from_body))

puback_field :
    (p : PubackPacket) → p.packet_id < 2 ^ 16 → RoundTrips decode_puback (put_be 2 p.packet_id) p
unfolding decode_puback
puback_field p id = RoundTrips-last _ (RoundTrips-be 2 p.packet_id id) refl

-- A PUBACK packet comes back, and the bytes that follow it are left.
pub read_packet-write_puback :
    (p : PubackPacket) (bs rest : Bytes)
    → p.packet_id < 2 ^ 16
    → write_puback p ≡ ok bs
    → length bs < 128 ^ 4
    → read_packet (bs ++ rest) ≡ ok (puback p, rest)
unfolding write_puback
read_packet-write_puback p bs rest id written small =
    let (body, eb, e) = read_packet-write_packet (4 * 16) _ bs rest (omega arith) written small in
    e ∙ puback_body body ((puback_field p id).at body [] eb)
  where
    puback_body :
        (body : Bytes)
        → decode_puback (body ++ []) ≡ ok (p, [])
        → decode_body 4 0 body rest ≡ ok (puback p, rest)
    puback_body body d =
        let d' : decode_puback body ≡ ok (p, []) = rw append-nil at d in
        unfold decode_body in rw (d', from_body)
