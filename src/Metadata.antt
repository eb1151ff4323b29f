-- ===== src/Metadata.antt =====
-- internal/metadata/store.go: the log of the topics that were created.
pub mod Event
pub mod Recovery
pub mod Creation
pub mod Validity
mod Examples
use wave_mq.Prelude.{
  ℕ, ◌+◌, Bool, true, false, not, Option, none, some, List, [], ◌∷◌, ◌++◌, length, take, drop, ltb,
  leb, ◌==◌, if◌then◌else◌, Result, ok, err,
}
use wave_mq.Wire.{
  Bytes, Error, record_too_small, crc_mismatch, Writer, ◌▹◌, crc32c, le_value, string_eq,
}
use wave_mq.Frames.{placeholders, seal_after, scan}
use wave_mq.Metadata.Event.{CreateTopicEvent, write_event, read_event}

-- What a record of the log may hold.
pub data Decoded : Type 0 where
  create_topic : CreateTopicEvent → Decoded
  unknown_event : ℕ → Decoded

-- wrapRecord, after the encoder of the payload
unfoldable pub wrap_record : Writer → Writer
wrap_record payload = seal_after (ok placeholders ▹ payload)

decoded_event : Result Error (CreateTopicEvent × Bytes) → Option Decoded
decoded_event (ok (ev, rest)) = some (create_topic ev)
decoded_event (err e) = none

unfoldable pub decode_payload : Bytes → Option Decoded
unfolding decoded_event
decode_payload [] = none
decode_payload (version ∷ []) = none
decode_payload (version ∷ typ ∷ body) =
    if typ == 1 then decoded_event (read_event version body) else some (unknown_event typ)

-- decodeRecord; `none` for any of its errors
unfoldable pub decode_record : Bytes → Option Decoded
unfolding decode_payload
decode_record record' =
    if ltb (length record') 6
    then none
    else if not (le_value (take 4 record') == crc32c (drop 4 record'))
    then none
    else decode_payload (drop 4 record')

-- map[string]TopicState: the state of a topic is its event.
abbrev pub Topics : Type 0
Topics = Bytes → Option CreateTopicEvent

abbrev pub no_topics : Topics
no_topics name = none

-- A topic that exists is not changed.
unfoldable pub add_topic : Topics → CreateTopicEvent → Topics
add_topic topics ev name = elim (topics ev.name) [
  | some _ ↦ topics name
  | none ↦ if string_eq ev.name name then some ev else topics name
]

unfoldable pub apply_decoded : Topics → Option Decoded → Option Topics
apply_decoded topics none = none
apply_decoded topics (some (create_topic ev)) = some (add_topic topics ev)
apply_decoded topics (some (unknown_event typ)) = some topics

-- One round of `RecoverTopics`.
unfoldable pub recover_record : Topics → Bytes → Option Topics
recover_record topics record' = apply_decoded topics (decode_record record')

-- The open file; `end` is where the next event is written.
pub record Store : Type 0 where
  pub file : Bytes
  pub end : ℕ

-- `RecoverTopics` while its context is not cancelled.
unfoldable pub recover_topics : Store → Option (Topics × Store)
unfolding recover_record apply_decoded decode_record
recover_topics s = elim (scan recover_record no_topics s.file) [
  | none ↦ none
  | some (topics, valid) ↦ some (topics, record { file = take valid s.file; end = valid })
]

-- A write at `end` of the file, over what stands there.
unfoldable pub write_at_end : Store → Writer → Result Error Store
write_at_end s (ok rec) = ok (record {
  file = take s.end s.file ++ (rec ++ drop (s.end + length rec) s.file);
  end = s.end + length rec;
})
write_at_end s (err e) = err e

-- `AppendCreateTopic` with a context that is not cancelled, on a file that takes the write.
unfoldable pub append_create_topic : Store → CreateTopicEvent → Result Error Store
unfolding write_at_end wrap_record
append_create_topic s ev = write_at_end s (wrap_record (write_event ev))
