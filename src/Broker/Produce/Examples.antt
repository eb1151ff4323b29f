-- ===== src/Broker/Produce/Examples.antt =====
-- Produce of internal/broker/broker.go on a small broker, and its theorem at a concrete input.
use wave_mq.Prelude.{
  ℕ, ◌+◌, ◌≡◌, refl, false, ◌&&◌, none, some, [], ◌∷◌, ◌++◌, Result, ok, err, arith,
}
use wave_mq.Wire.{Bytes, Error, pos, negsuc, int_eq, string_eq, crc32c, le_bytes, put_le_int, ◌▹◌}
use wave_mq.Frames.{seal_after}
use wave_mq.Api.{Record, role_leader}
use wave_mq.Storage.Record.{
  encode_record, write_record_body, write_record_fixed_fields, write_record_bytes_field,
  write_record_headers, write_each_header,
}
use wave_mq.Storage.Log.{LogConfig, Clock, new_segment, stamped, high_watermark}
use wave_mq.Storage.Log.WellFormed.{WellFormed, contents}
use wave_mq.Storage.Log.View
use wave_mq.Storage.Log.Append.{stamp_all}
use wave_mq.Broker.{Broker, Partition, Topic}
use wave_mq.Broker.Maps.{find}
use wave_mq.Broker.Produce.{produce, locate, refuses, fnv32a}
use wave_mq.Broker.Produce.Appends.{Located, produce_lem}

abbrev record_at : ℕ → Record
record_at n = record {
  offset = pos n;
  timestamp = pos 1000;
  key = none;
  value = some (104 ∷ 105 ∷ []);
  headers = [];
  crc32c = 0;
}

abbrev bytes_of : Result Error Bytes → Bytes
bytes_of (ok bs) = bs
bytes_of (err e) = []

encoded : Record → Bytes
unfolding encode_record seal_after write_record_body write_record_fixed_fields
    write_record_bytes_field write_record_headers write_each_header ◌▹◌ put_le_int crc32c le_bytes
encoded r = bytes_of (encode_record r)

abbrev config : LogConfig
config = record {
  max_segment_bytes = 60;
  index_interval = 1;
  segment_max_age = 0;
  max_log_bytes = negsuc 0;
  base_offset = 0;
}

abbrev clock : Clock
clock = record { stamp_at = λ n. pos 5; created_at = λ n. 7; retention_at = 9 }

abbrev led : Partition
led = record {
  metadata = record {
    replica = record {
      topic = 116 ∷ [];
      partition = pos 0;
      broker_id = pos 1;
      role = role_leader;
      leader_epoch = pos 0;
    };
    start_offset = pos 0;
    high_watermark = negsuc 0;
    leader = pos 1;
    replicas = pos 1 ∷ [];
    isr = pos 1 ∷ [];
  };
  log = record {
    segments = new_segment 1 0 ∷ [];
    next_offset = 0;
    start_offset = 0;
    closed = false;
  };
}

abbrev topic : Topic
topic = record { name = 116 ∷ []; partitions = (pos 0, led) ∷ []; replication_factor = pos 1 }

abbrev broker : Broker
broker = record {
  broker_id = pos 1;
  cluster = none;
  topics = (116 ∷ [], topic) ∷ [];
  groups = [];
  offset_store = record { file = [] };
  closed = false;
  commit_count = 0;
}

led-Located : Located (116 ∷ []) (pos 0) broker topic led
unfolding find string_eq int_eq
led-Located = (refl, refl, refl)

not_refused : refuses (116 ∷ []) (pos 0) broker led ≡ none
unfolding refuses
not_refused = refl

led-WellFormed : WellFormed led.log
led-WellFormed = record {
  packed = (record { at_end = refl; whole_size = refl }, tt);
  chained = (omega arith, omega arith);
  starts = refl;
}

in_step : negsuc 0 ≡ high_watermark led.log
unfolding high_watermark
in_step = refl

first_encodings :
    View.encodings (stamp_all clock 0 (record_at 0 ∷ [])) ≡ ok (encoded (record_at 0) ∷ [])
unfolding View.encodings encoded stamped int_eq
first_encodings = refl

another : (string_eq (116 ∷ []) (116 ∷ []) && int_eq (pos 0) (pos 1)) ≡ false
unfolding string_eq int_eq
another = refl

-- The hash of "a".
hash_a : fnv32a 2166136261 (97 ∷ []) ≡ 3826002220
unfolding fnv32a
hash_a = refl

produce_example :
    (b' : Broker) × (p' : Partition) × (produce config clock
        (116 ∷ [])
        (pos 0)
        (record_at 0 ∷ [])
        broker
      ≡ (b', ok (pos 0)))
    × (locate (116 ∷ []) (pos 0) b' ≡ ok p')
    × (p'.log.next_offset ≡ 0 + 1)
    × (View.view p'.log.segments
        ≡ View.retained config 9
            (View.add_records 60 clock 0 (encoded (record_at 0) ∷ []) (View.view led.log.segments)))
    × ((dropped : Bytes) × (contents led.log.segments ++ View.joined (encoded (record_at 0) ∷ [])
          ≡ dropped ++ contents p'.log.segments))
    × WellFormed p'.log
    × (p'.metadata.high_watermark ≡ high_watermark p'.log)
    × (locate (116 ∷ []) (pos 1) b' ≡ locate (116 ∷ []) (pos 1) broker)
produce_example =
    produce_lem config clock (116 ∷ []) (pos 0) (record_at 0) [] broker topic led
      (encoded (record_at 0) ∷ []) (116 ∷ []) (pos 1) led-Located not_refused led-WellFormed
      (omega arith) refl in_step first_encodings another
