-- ===== src/Broker/Commits.antt =====
-- internal/broker/broker.go: CommitOffset, FetchCommitted, snapshotOffsetsLocked, and the recovery of
-- the groups in NewBroker.
pub mod Committed
pub mod Restart
use wave_mq.Prelude.{
  ℕ, zero, ◌+◌, ◌%◌, Bool, true, false, Option, none, some, List, [], ◌∷◌, ◌++◌, ◌==◌,
  if◌then◌else◌, Result, ok, err,
}
use wave_mq.Wire.{Bytes, Error, ℤ, int_ltb}
use wave_mq.OffsetStore.{Commit, OffsetStore, append_commit}
use wave_mq.Broker.{Map, Broker, ConsumerGroup}
use wave_mq.Broker.Maps.{find, put, string_key, int_key}

pub data BrokerError : Type 0 where
  broker_closed topic_not_found partition_not_found group_not_found : BrokerError
  offset_regression member_required topic_required key_required : BrokerError
  codec_error : Error → BrokerError

abbrev pub new_group : Bytes → ConsumerGroup
new_group name' = record { name = name'; members = []; offsets = []; assignments = [] }

abbrev pub or_new_group : Bytes → Option ConsumerGroup → ConsumerGroup
or_new_group name' none = new_group name'
or_new_group name' (some g) = g

abbrev pub or_no_offsets : Option (Map ℤ ℤ) → Map ℤ ℤ
or_no_offsets none = []
or_no_offsets (some m) = m

-- g.Offsets[topic], with a new map where there is none
unfoldable pub topic_offsets : Bytes → ConsumerGroup → Map ℤ ℤ
topic_offsets topic g = or_no_offsets (find string_key topic g.offsets)

unfoldable pub set_topic_offsets : Bytes → Map ℤ ℤ → ConsumerGroup → ConsumerGroup
set_topic_offsets topic m g = record g { offsets = put string_key topic m g.offsets }

-- Whether the offset lies below the one that is committed.
unfoldable pub regresses : Option ℤ → ℤ → Bool
regresses none offset' = false
regresses (some current) offset' = int_ltb offset' current

-- The commits of one topic, of one group, and snapshotOffsetsLocked.
unfoldable pub topic_commits : Bytes → Bytes → Map ℤ ℤ → List Commit
topic_commits g t [] = []
topic_commits g t ((p, o) ∷ m) =
    record { group = g; topic = t; partition = p; offset = o } ∷ topic_commits g t m

unfoldable pub group_commits : Bytes → Map Bytes (Map ℤ ℤ) → List Commit
unfolding topic_commits
group_commits g [] = []
group_commits g ((t, m) ∷ ts) = topic_commits g t m ++ group_commits g ts

unfoldable pub snapshot_offsets : Map Bytes ConsumerGroup → List Commit
unfolding group_commits
snapshot_offsets [] = []
snapshot_offsets ((name', g) ∷ gs) = group_commits name' g.offsets ++ snapshot_offsets gs

-- The group as `CommitOffset` finds or makes it, with a map for the topic.
unfoldable pub prepared_group : Commit → Broker → ConsumerGroup
unfolding topic_offsets set_topic_offsets
prepared_group c b =
    let g = or_new_group c.group (find string_key c.group b.groups) in
    set_topic_offsets c.topic (topic_offsets c.topic g) g

unfoldable pub with_group : Bytes → ConsumerGroup → Broker → Broker
with_group name' g b = record b { groups = put string_key name' g b.groups }

-- The commit once it is persisted; every thousandth yields a snapshot, which is compacted later.
unfoldable pub committed_broker :
    Commit → OffsetStore → Broker → Broker × Result BrokerError (Option (List Commit))
unfolding prepared_group with_group snapshot_offsets
committed_broker c s b =
    let g = prepared_group c b in
    let g' =
      set_topic_offsets c.topic (put int_key c.partition c.offset (topic_offsets c.topic g)) g in
    let b' = record (with_group c.group g' b) {
      offset_store = s;
      commit_count = b.commit_count + 1;
    } in
    (b', ok (if b'.commit_count % 1000 == 0 then some (snapshot_offsets b'.groups) else none))

-- CommitOffset
unfoldable pub commit_offset : Commit → Broker → Broker × Result BrokerError (Option (List Commit))
unfolding committed_broker regresses
commit_offset c b =
    let g = prepared_group c b in
    if regresses (find int_key c.partition (topic_offsets c.topic g)) c.offset
    then (with_group c.group g b, err offset_regression)
    else elim (append_commit b.offset_store c) [
      | err e ↦ (with_group c.group g b, err (codec_error e))
      | ok s ↦ committed_broker c s b
    ]

-- The lookups of `FetchCommitted`, one map after the other.
unfoldable pub fetch_partition : Option ℤ → Result BrokerError ℤ
fetch_partition none = err partition_not_found
fetch_partition (some o) = ok o

unfoldable pub fetch_topic : ℤ → Option (Map ℤ ℤ) → Result BrokerError ℤ
unfolding fetch_partition
fetch_topic partition none = err topic_not_found
fetch_topic partition (some m) = fetch_partition (find int_key partition m)

unfoldable pub fetch_group : Bytes → ℤ → Option ConsumerGroup → Result BrokerError ℤ
unfolding fetch_topic
fetch_group topic partition none = err group_not_found
fetch_group topic partition (some g) = fetch_topic partition (find string_key topic g.offsets)

-- FetchCommitted
unfoldable pub fetch_committed : Bytes → Bytes → ℤ → Broker → Result BrokerError ℤ
unfolding fetch_group
fetch_committed group topic partition b =
    fetch_group topic partition (find string_key group b.groups)
