-- ===== src/Metadata/Examples.antt =====
-- Runs of internal/metadata/store.go on small inputs, and its theorems at concrete inputs.
use wave_mq.Prelude.{
  true, All, ℕ, ◌^◌, ◌<◌, ◌≡◌, refl, some, List, [], ◌∷◌, ◌++◌, length, take, drop, ok, err, arith,
}
use wave_mq.Wire.{
  IsByte, Bytes, Writer, ◌▹◌, pos, negsuc, put_byte, put_le, put_le_int, le_bytes, crc32c,
  string_eq, int_eq,
}
use wave_mq.Frames.{seal_after}
use wave_mq.Api.{role_leader, role_follower}
use wave_mq.Metadata.Event.{CreateTopicEvent, write_event, put_uint16}
use wave_mq.Metadata.Event.RoundTrip.{EventFits}
use wave_mq.Metadata.Recovery.{write_events, replay_from, recover_topics-torn}
use wave_mq.Metadata.Validity.{is_sound, recover_topics_sound}
use wave_mq.Metadata.Creation.{create_all, first_event, whole_store, recover_topics-first}
use wave_mq.Metadata.{Store, Topics, no_topics, wrap_record, append_create_topic, recover_topics}

-- A topic with one partition on two brokers.
abbrev event_of : ℕ → CreateTopicEvent
event_of n = record {
  name = n ∷ [];
  num_partitions = pos 1;
  replication_factor = pos 2;
  retention_bytes = negsuc 0;
  retention_time = pos 0;
  partitions =
      record {
        id = pos 0;
        replicas =
            record { broker_id = pos 1; role = role_leader; leader_epoch = pos 0 }
            ∷ (record { broker_id = pos 2; role = role_follower; leader_epoch = pos 0 } ∷ []);
      }
      ∷ [];
}

event_of-EventFits : (n : ℕ) → EventFits (event_of n)
event_of-EventFits n = record {
  bytes_fit = omega arith;
  time_fits = omega arith;
  partitions_fit = (
    record {
      id_fits = omega arith;
      replicas_fit = (
        record { id_fits = omega arith; epoch_fits = omega arith },
        (record { id_fits = omega arith; epoch_fits = omega arith }, tt),
      );
    },
    tt,
  );
}

abbrev bytes_of : Writer → Bytes
bytes_of (ok bs) = bs
bytes_of (err e) = []

encoded : CreateTopicEvent → Bytes
unfolding wrap_record write_event put_uint16 string_eq int_eq seal_after ◌▹◌ put_byte put_le
    put_le_int crc32c le_bytes
encoded ev = bytes_of (wrap_record (write_event ev))

abbrev file : Bytes
file = encoded (event_of 97)

abbrev front : Bytes
front = take 9 (encoded (event_of 98))

abbrev back : Bytes
back = drop 10 (encoded (event_of 98))

file_written : write_events (event_of 97 ∷ []) ≡ ok file
unfolding write_events encoded
file_written = refl

next_cut : wrap_record (write_event (event_of 98)) ≡ ok (front ++ (1 ∷ back))
unfolding encoded
next_cut = refl

file_small : length file < 2 ^ 32
unfolding encoded
file_small = omega arith

next_small : length (front ++ (1 ∷ back)) < 2 ^ 32
unfolding encoded
next_small = omega arith

recover_topics-torn_example :
    recover_topics (record { file = file ++ front; end = 0 })
    ≡ some (replay_from no_topics (event_of 97 ∷ []), record { file = file; end = length file })
recover_topics-torn_example =
    recover_topics-torn (event_of 97 ∷ []) (event_of 98) file front 1 back 0
      (event_of-EventFits 97, tt) file_written next_cut file_small next_small

abbrev events : List CreateTopicEvent
events = event_of 97 ∷ (event_of 98 ∷ [])

abbrev log : Store
log = whole_store (file ++ encoded (event_of 98))

log_written : create_all (whole_store []) events ≡ ok log
unfolding create_all append_create_topic encoded
log_written = refl

log_small : length log.file < 2 ^ 32
unfolding encoded
log_small = omega arith

recover_topics-first_example :
    (topics : Topics) × (recover_topics log ≡ some (topics, log))
    × (topics (98 ∷ []) ≡ first_event events (98 ∷ []))
recover_topics-first_example =
    recover_topics-first events log (98 ∷ []) (event_of-EventFits 97, (event_of-EventFits 98, tt))
      log_written log_small

-- An event, and then what a failing disk left.
abbrev damaged : Store
damaged = record { file = encoded (event_of 97) ++ (7 ∷ (0 ∷ [])); end = 0 }

damaged_small : length damaged.file < 2 ^ 32
unfolding encoded
damaged_small = omega arith

damaged_bytes : All IsByte damaged.file
unfolding encoded
damaged_bytes = omega arith

recover_topics_sound_example :
    (topics : Topics) × (s' : Store) × (recover_topics damaged ≡ some (topics, s'))
    × (is_sound (97 ∷ []) (topics (97 ∷ [])) ≡ true)
    × (recover_topics s' ≡ some (topics, s'))
recover_topics_sound_example = recover_topics_sound damaged (97 ∷ []) damaged_small damaged_bytes
