-- ===== src/Metadata/Recovery.antt =====
-- `RecoverTopics` after topics were created, and after a crash.
use mathlib.Core.List.{foldl}
use wave_mq.Prelude.{
  ℕ, ◌+◌, ◌^◌, ◌<◌, ◌≡◌, refl, sym, ap, Bool, true, false, not, some, List, [], ◌∷◌, ◌++◌,
  append-nil, All, length, take, drop, take-append_length, length-append, ltb, ok, err, arith,
}
use wave_mq.Wire.{
  Bytes, invalid_event, Writer, check, ◌▹◌, ▹-eq-ok, ok-injective, put_byte, crc32c, crc32c-lt,
  le_value, le_bytes, le_value-le_bytes,
}
use wave_mq.Frames.Seal.{checked_body, length-frame, length-checked_body, seal_after-eq-frame}
use wave_mq.Frames.Scan.{Stops}
use wave_mq.Frames.Log.{Logged, Logged-nil, Logged-cons, scan-Logged, Stops-torn}
use wave_mq.Metadata.Event.{
  CreateTopicEvent, event_is_valid, read_event, read_event_v2, write_event, write_event_body,
}
use wave_mq.Metadata.Event.RoundTrip.{EventFits, event_field}
use wave_mq.Metadata

event_bytes_of :
    (b : Bool) (w : Writer) {body : Bytes}
    → check (not b) invalid_event ▹ (put_byte 2 ▹ (put_byte 1 ▹ w)) ≡ ok body
    → (b ≡ true) × (fields : Bytes) × (w ≡ ok fields) × (body ≡ 2 ∷ (1 ∷ fields))
unfolding ◌▹◌ put_byte
event_bytes_of true (ok fields) e = (refl, fields, refl, sym (ok-injective e))
event_bytes_of true (err x) e = cc
event_bytes_of false (ok fields) e = cc
event_bytes_of false (err x) e = cc

-- A version, a type, and the fields of a valid event.
event_bytes :
    (ev : CreateTopicEvent) {body : Bytes}
    → write_event ev ≡ ok body
    → (event_is_valid ev ≡ true)
      × (fields : Bytes) × (write_event_body ev ≡ ok fields)
      × (body ≡ 2 ∷ (1 ∷ fields))
event_bytes ev e =
    event_bytes_of (event_is_valid ev) (write_event_body ev) (unfold write_event in e)

module _ (ev : CreateTopicEvent) (fits : EventFits ev) (body : Bytes)
    (written : write_event ev ≡ ok body) where
  stored_crc : le_value (take 4 (checked_body body)) ≡ crc32c body
  unfolding checked_body le_bytes
  stored_crc = le_value-le_bytes 4 (crc32c body) (crc32c-lt body)

  stored_body : drop 4 (checked_body body) ≡ body
  unfolding checked_body le_bytes
  stored_body = refl

  fields_read :
      (fields : Bytes)
      → read_event_v2 fields ≡ ok (ev, [])
      → Metadata.decode_payload (2 ∷ (1 ∷ fields)) ≡ some (Metadata.create_topic ev)
  unfolding Metadata.decode_payload read_event Metadata.decoded_event
  fields_read fields e = rw (e, Metadata.decoded_event) refl

  payload : Metadata.decode_payload body ≡ some (Metadata.create_topic ev)
  payload =
      let (valid, fields, e, split) = event_bytes ev written in
      rw split (fields_read fields (rw append-nil at ((event_field ev fits valid).at fields [] e)))

  not_small : ltb (length (checked_body body)) 6 ≡ false
  not_small =
      let (valid, fields, e, split) = event_bytes ev written in
      ground (arith, length-checked_body body, ap length split)

  decoded : Metadata.decode_record (checked_body body) ≡ some (Metadata.create_topic ev)
  unfolding Metadata.decode_record
  decoded = rw (not_small, stored_crc, stored_body) (ground (arith, payload))

  -- An event that was written is accepted, and added.
  recover_record-checked_body :
      (topics : Metadata.Topics)
      → Metadata.recover_record topics (checked_body body) ≡ some (Metadata.add_topic topics ev)
  unfolding Metadata.recover_record
  recover_record-checked_body topics = rw decoded (unfold Metadata.apply_decoded in refl)

-- The records of events in turn.
unfoldable pub write_events : List CreateTopicEvent → Writer
write_events [] = ok []
write_events (ev ∷ evs) = Metadata.wrap_record (write_event ev) ▹ write_events evs

-- What the log means: the topics in turn.
unfoldable pub replay_from : Metadata.Topics → List CreateTopicEvent → Metadata.Topics
replay_from = foldl Metadata.add_topic

write_events-Logged :
    (evs : List CreateTopicEvent) (topics : Metadata.Topics) (file : Bytes)
    → All EventFits evs
    → write_events evs ≡ ok file
    → length file < 2 ^ 32
    → Logged Metadata.recover_record topics file (replay_from topics evs)
unfolding write_events replay_from
write_events-Logged [] topics file h e small =
    rw (← ok-injective e) (Logged-nil Metadata.recover_record topics)
write_events-Logged (ev ∷ evs) topics file (hv, h) e small =
    let (xs, ys, ex, ey, split) = ▹-eq-ok _ _ e in
    let (body, written, framed, _) =
      seal_after-eq-frame (write_event ev) xs (unfold Metadata.wrap_record in ex) in
    let bounds : (length (checked_body body) + 4 < 2 ^ 32) × (length ys < 2 ^ 32) = omega (
      arith,
      ap length framed,
      ap length split,
      length-append xs ys,
      length-frame (checked_body body),
    ) in
    rw (split, framed)
      (Logged-cons Metadata.recover_record topics (Metadata.add_topic topics ev) _ body ys bounds.0
        (recover_record-checked_body ev hv body written topics)
        (write_events-Logged evs (Metadata.add_topic topics ev) ys h ey bounds.1))

-- What is found before a tail that holds no acceptable record.
pub recover-Stops :
    (evs : List CreateTopicEvent) (file tail : Bytes) (n : ℕ)
    → All EventFits evs
    → write_events evs ≡ ok file
    → length file < 2 ^ 32
    → Stops Metadata.recover_record (replay_from Metadata.no_topics evs) tail
    → Metadata.recover_topics (record { file = file ++ tail; end = n })
      ≡ some (replay_from Metadata.no_topics evs, record { file = file; end = length file })
unfolding Metadata.recover_topics
recover-Stops evs file tail n h e small stop =
    let scanned =
      scan-Logged Metadata.recover_record Metadata.no_topics _ file tail
        (write_events-Logged evs Metadata.no_topics file h e small) stop in
    rw (scanned, Metadata.recover_topics)
      (ap (λ t. some (replay_from Metadata.no_topics evs, record { file = t; end = length file }))
        (take-append_length file tail))

-- Recovery of the metadata log after a crash in the middle of a write. Where a file below 4 GiB holds
-- the records of create-topic events, with fields of Go's widths, and then a proper prefix, possibly
-- empty, of the record of one more, `RecoverTopics` returns the topics of these events, nothing of
-- the torn one, cuts the file to the whole records, and writes the next event behind them.
pub recover_topics-torn :
    (evs : List CreateTopicEvent) (torn : CreateTopicEvent) (file front : Bytes) (x : ℕ)
    (back : Bytes) (n : ℕ)
    → All EventFits evs
    → write_events evs ≡ ok file
    → Metadata.wrap_record (write_event torn) ≡ ok (front ++ (x ∷ back))
    → length file < 2 ^ 32
    → length (front ++ (x ∷ back)) < 2 ^ 32
    → Metadata.recover_topics (record { file = file ++ front; end = n })
      ≡ some (replay_from Metadata.no_topics evs, record { file = file; end = length file })
recover_topics-torn evs torn file front x back n h e cut small small' =
    recover-Stops evs file front n h e small (
      Stops-torn Metadata.recover_record _ (write_event torn) front x back
        (unfold Metadata.wrap_record in cut) small')
