-- ===== src/Broker/Examples.antt =====
-- Runs of internal/broker/broker.go on a small broker, and its theorems at concrete inputs.
use wave_mq.Prelude.{
  ℕ, suc, ◌^◌, ◌≤◌, ◌<◌, ◌≡◌, refl, false, none, some, [], ◌∷◌, length, get_elem?, ok, arith,
}
use wave_mq.Wire.{
  Bytes, ℤ, pos, negsuc, int_eq, int_ltb, string_eq, string_eq→eq, ◌▹◌, put_le, put_le_int, crc32c,
  le_bytes,
}
use wave_mq.Frames.{seal_after}
use wave_mq.OffsetStore.{
  Commit, Offsets, recover, append_commit, append_bytes, encode_offset_record, write_commit_body,
}
use wave_mq.Broker.{Broker, ConsumerGroup, GroupMember, Topic, Partition}
use wave_mq.Broker.Maps.{find, put}
use wave_mq.Broker.Commits.{commit_offset, fetch_committed}
use wave_mq.Broker.Commits.Committed.{as_option}
use wave_mq.Broker.Commits.Restart.{commit_calls, commit_calls-recovered}
use wave_mq.Api.{role_leader}
use wave_mq.Broker.Groups.{rebalance_topic, string_ltb, sorted_members, sorted_partitions}
use wave_mq.Broker.Groups.Shares.{share}
use wave_mq.Broker.Groups.Counts.{sum_over, tally, Once}
use wave_mq.Broker.Groups.Order.{Ordered}
use wave_mq.Broker.Groups.Rebalance.{given, keys, rebalance_topic_lem}

abbrev new_broker : Broker
new_broker = record {
  broker_id = pos 1;
  cluster = none;
  topics = [];
  groups = [];
  offset_store = record { file = [] };
  closed = false;
  commit_count = 0;
}

abbrev commit_at : ℕ → Commit
commit_at n = record { group = 103 ∷ []; topic = 116 ∷ []; partition = pos 0; offset = pos n }

-- The second commit is refused.
refused_second :
    fetch_committed
      (103 ∷ [])
      (116 ∷ [])
      (pos 0)
      (commit_calls (commit_at 7 ∷ commit_at 3 ∷ []) new_broker)
    ≡ ok (pos 7)
unfolding commit_calls commit_offset fetch_committed append_commit encode_offset_record
    write_commit_body seal_after find put string_eq int_eq int_ltb ◌▹◌ put_le put_le_int crc32c
    le_bytes append_bytes
refused_second = refl

file_small :
    length (commit_calls (commit_at 7 ∷ commit_at 3 ∷ []) new_broker).offset_store.file < 2 ^ 31
unfolding commit_calls commit_offset append_commit encode_offset_record write_commit_body seal_after
    find put string_eq int_eq int_ltb ◌▹◌ put_le put_le_int crc32c le_bytes append_bytes
file_small = omega arith

commit_calls-recovered_example :
    (m : Offsets) × (recover (commit_calls (commit_at 7 ∷ commit_at 3 ∷ []) new_broker).offset_store
      ≡ some (m, (commit_calls (commit_at 7 ∷ commit_at 3 ∷ []) new_broker).offset_store))
    × ((n t : Bytes) (p : ℤ)
        → m n t p
          ≡ as_option
              (fetch_committed n t p (commit_calls (commit_at 7 ∷ commit_at 3 ∷ []) new_broker)))
commit_calls-recovered_example =
    commit_calls-recovered (commit_at 7 ∷ commit_at 3 ∷ []) new_broker refl refl
      (omega arith, (omega arith, tt)) file_small

abbrev member_of : ℕ → Bytes × GroupMember
member_of n = (n ∷ [], record { client_id = n ∷ []; topics = []; assignments = [] })

abbrev two_members : ConsumerGroup
two_members = record {
  name = 103 ∷ [];
  members = member_of 2 ∷ member_of 1 ∷ [];
  offsets = [];
  assignments = [];
}

abbrev some_partition : Partition
some_partition = record {
  metadata = record {
    replica = record {
      topic = [];
      partition = pos 0;
      broker_id = pos 1;
      role = role_leader;
      leader_epoch = pos 0;
    };
    start_offset = pos 0;
    high_watermark = negsuc 0;
    leader = pos 1;
    replicas = [];
    isr = [];
  };
  log = record { segments = []; next_offset = 0; start_offset = 0; closed = false };
}

abbrev three_partitions : Topic
three_partitions = record {
  name = 116 ∷ [];
  partitions = (pos 2, some_partition) ∷ (pos 0, some_partition) ∷ (pos 1, some_partition) ∷ [];
  replication_factor = pos 1;
}

members_in_order : sorted_members two_members ≡ (1 ∷ []) ∷ (2 ∷ []) ∷ []
unfolding sorted_members
members_in_order = refl

members-Once : Once (keys two_members.members)
members-Once m = ground (arith, string_eq→eq m (2 ∷ []), string_eq→eq m (1 ∷ []))

two_and_one : given (1 ∷ []) (rebalance_topic three_partitions two_members) ≡ pos 0 ∷ pos 2 ∷ []
unfolding rebalance_topic find put string_eq int_ltb
two_and_one = refl

rebalance_topic_example :
    (sum_over
        (λ a. tally (int_eq (pos 1)) (given a (rebalance_topic three_partitions two_members)))
        (keys two_members.members)
      ≡ tally (int_eq (pos 1)) (keys three_partitions.partitions))
    × (length (given (1 ∷ []) (rebalance_topic three_partitions two_members))
        ≤ suc (length (given (2 ∷ []) (rebalance_topic three_partitions two_members))))
    × Ordered string_ltb (sorted_members two_members)
    × Ordered int_ltb (sorted_partitions three_partitions)
    × (j : ℕ) × (get_elem? (sorted_members two_members) j ≡ some (1 ∷ []))
    × (given (1 ∷ []) (rebalance_topic three_partitions two_members)
        ≡ share (length (sorted_members two_members)) j 0 (sorted_partitions three_partitions))
rebalance_topic_example =
    rebalance_topic_lem three_partitions two_members (1 ∷ []) (2 ∷ []) (pos 1) members-Once
      (unfold string_eq in omega arith) (unfold string_eq in omega arith)
