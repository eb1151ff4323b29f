-- ===== src/Mqtt/Codec/Subscribe.antt =====
-- SUBSCRIBE packets, laid out as a client does: the packet id, then each filter with a byte for the
-- level of service that it asks for.
use wave_mq.Prelude.{
  ℕ, zero, suc, ◌+◌, ◌*◌, ◌^◌, ◌≤◌, ◌<◌, ◌≡◌, refl, ap, ◌∙◌, List, [], ◌∷◌, ◌++◌, length,
  length-append, All, bit_and, ok, arith,
}
use wave_mq.Wire.{
  Bytes, Writer, pure, bind-ok, ok-injective, read_byte, read_be, put_byte, put_be, ◌▹◌, ▹-eq-ok,
  RoundTrips-be, RoundTrips-byte, WritesAtLeast, WritesAtLeast-check, WritesAtLeast-first,
  WritesAtLeast-be,
}
use wave_mq.Mqtt.Packets.{Subscription, SubscribePacket, subscribe}
use wave_mq.Mqtt.Codec.{
  write_string, read_string, write_packet, read_packet, decode_body, from_body, decode_topics,
  all_topics, decode_subscribe,
}
use wave_mq.Mqtt.Codec.RoundTrip.{string_field, read_packet-write_packet}

unfoldable pub write_topics : List Subscription → Writer
write_topics [] = ok []
write_topics (t ∷ ts) = write_string t.filter ▹ (put_byte t.qos ▹ write_topics ts)

abbrev pub write_subscribe_body : SubscribePacket → Writer
write_subscribe_body p = put_be 2 p.packet_id ▹ write_topics p.topics

abbrev pub AsksLevel : Subscription → Type 0
AsksLevel t = t.qos < 3

level_kept : (q : ℕ) → q < 3 → bit_and q 0x03 ≡ q
level_kept zero h = refl
level_kept (suc zero) h = refl
level_kept (suc (suc zero)) h = refl
level_kept (suc (suc (suc q))) h = absurd (omega arith)

string_length : (s : Bytes) → WritesAtLeast 2 (write_string s)
unfolding write_string
string_length s =
    WritesAtLeast-check 2 _ _ _ (WritesAtLeast-first 2 _ _ (WritesAtLeast-be 2 (length s)))

decode_topics_step :
    (fuel : ℕ) (body r r' filter' : Bytes) (q : ℕ) {subs : List Subscription}
    → 0 < length body
    → read_string body ≡ ok (filter', r)
    → read_byte r ≡ ok (q, r')
    → decode_topics fuel r' ≡ ok subs
    → decode_topics (suc fuel) body ≡ ok (record { filter = filter'; qos = bit_and q 0x03 } ∷ subs)
unfolding decode_topics
decode_topics_step fuel [] r r' filter' q h e₁ e₂ e₃ = elim h [ ]
decode_topics_step fuel (b ∷ bs) r r' filter' q h e₁ e₂ e₃ = rw (e₁, e₂, e₃, decode_topics)

-- One more subscription in front of what the rest of the body gives.
topic_step :
    (t : Subscription) (ts : List Subscription) (fuel : ℕ) (fs qs rest : Bytes)
    → AsksLevel t
    → write_string t.filter ≡ ok fs
    → put_byte t.qos ≡ ok qs
    → decode_topics fuel rest ≡ ok ts
    → decode_topics (suc fuel) (fs ++ (qs ++ rest)) ≡ ok (t ∷ ts)
topic_step t ts fuel fs qs rest ht ef eq ih =
    let long : 2 ≤ length fs = (string_length t.filter).at fs ef in
    decode_topics_step fuel (fs ++ (qs ++ rest)) (qs ++ rest) rest t.filter t.qos
      (omega (arith, length-append fs (qs ++ rest))) ((string_field t.filter).at fs (qs ++ rest) ef)
      ((RoundTrips-byte t.qos (omega arith)).at qs rest eq) ih
    ∙ ap (λ q. ok (record { filter = t.filter; qos = q } ∷ ts)) (level_kept t.qos ht)

decode_topics-write_topics :
    (ts : List Subscription) (fuel : ℕ) (body : Bytes)
    → All AsksLevel ts
    → length body ≤ fuel
    → write_topics ts ≡ ok body
    → decode_topics fuel body ≡ ok ts
unfolding write_topics
decode_topics-write_topics [] fuel body h le e =
    rw (← ok-injective e) (unfold decode_topics in refl)
decode_topics-write_topics (t ∷ ts) zero body (ht, h) le e =
    let (fs, more, ef, em, split) = ▹-eq-ok _ _ e in
    absurd
      (omega (arith, (string_length t.filter).at fs ef, length-append fs more, ap length split))
decode_topics-write_topics (t ∷ ts) (suc fuel) body (ht, h) le e =
    let (fs, more, ef, em, split) = ▹-eq-ok _ _ e in
    let (qs, rest, eq, er, split') = ▹-eq-ok _ _ em in
    rw (split, split')
      (topic_step t ts fuel fs qs rest ht ef eq (
        decode_topics-write_topics ts fuel rest h
          (omega (
            arith,
            (string_length t.filter).at fs ef,
            length-append fs more,
            length-append qs rest,
            ap length split,
            ap length split',
          ))
          er))

decode_subscribe-body :
    (p : SubscribePacket) (body : Bytes)
    → p.packet_id < 2 ^ 16
    → All AsksLevel p.topics
    → write_subscribe_body p ≡ ok body
    → decode_subscribe body ≡ ok (p, [])
unfolding decode_subscribe pure
decode_subscribe-body p body id h e =
    let (is, ts, ei, et, split) = ▹-eq-ok _ _ e in
    rw split (
      bind-ok (read_be 2) _ (is ++ ts) ((RoundTrips-be 2 p.packet_id id).at is ts ei)
      ∙ bind-ok all_topics _ ts (topics_read ts et))
  where
    topics_read : (ts : Bytes) → write_topics p.topics ≡ ok ts → all_topics ts ≡ ok (p.topics, [])
    topics_read ts et =
        let d = decode_topics-write_topics p.topics (length ts) ts h (omega arith) et in
        unfold all_topics in rw (d, all_topics)

-- Every SUBSCRIBE packet that a client lays out by the standard is understood: with a packet id of
-- 16 bits and levels of service from 0 to 2, and bytes below the largest length of MQTT, `readPacket`
-- returns the filters and levels in their order, and leaves the bytes that follow the packet.
pub read_packet-subscribe :
    (p : SubscribePacket) (bs rest : Bytes)
    → p.packet_id < 2 ^ 16
    → All AsksLevel p.topics
    → write_packet (8 * 16 + 2) (write_subscribe_body p) ≡ ok bs
    → length bs < 128 ^ 4
    → read_packet (bs ++ rest) ≡ ok (subscribe p, rest)
read_packet-subscribe p bs rest id h written small =
    let (body, eb, e) =
      read_packet-write_packet (8 * 16 + 2) (write_subscribe_body p) bs rest (omega arith) written
        small in
    e ∙ subscribe_body body (decode_subscribe-body p body id h eb)
  where
    subscribe_body :
        (body : Bytes)
        → decode_subscribe body ≡ ok (p, [])
        → decode_body 8 2 body rest ≡ ok (subscribe p, rest)
    subscribe_body body d = unfold decode_body in rw (d, from_body)
