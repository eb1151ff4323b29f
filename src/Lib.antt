-- ===== src/Lib.antt =====
-- wave-mq: a message broker with a write-ahead log for each partition of a topic, a binary protocol
-- for its clients and an MQTT front.
--
-- The parts modelled, and the files for them:
-- - Wire and its children: the bytes that every codec reads and writes, as the code uses Go's
--   encoding/binary, bytes.Buffer, io.ReadFull and hash/crc32. A reader takes the unread bytes and
--   returns a value with the bytes that it left, or an error; a writer is the bytes that it appends,
--   or an error. A Go integer of w bits is a ℤ in two's complement, a string or a slice a list of
--   bytes, a nil slice `none`. The CRC-32C is computed by its polynomial, one bit at a time.
-- - Frames: the framing that the three log files share. internal/storage/log.go (encodeRecord,
--   scanSegment), internal/broker/offset_store.go (encodeOffsetRecord, Recover, Compact) and
--   internal/metadata/store.go (wrapRecord, RecoverTopics) seal a record in the same way and scan a
--   file with the same loop; what a loop does with a record is an argument of `scan`.
-- - Storage: internal/storage/log.go. Storage.Record is encodeRecord and decodeRecord with their
--   helpers, Storage.Segment validateRecord, scanSegment and the bytes that AppendBatch writes,
--   Storage.Index the binary search lookupIndex, Storage.IndexFile rebuildIndex and loadIndex.
--   Storage.Log is the state of a segmentedLog with AppendBatch, rotation and retention; its
--   children are Read (Read, readFromSegment), Truncate (Truncate, seekToOffset) and Open
--   (bootstrap, openSegment). Storage.Log.View is the abstract log, a list of files with their
--   names, times and bytes, and what AppendBatch is to make of it: `add_records` and `retained`. A
--   segment has the bytes of its file and the cursor at which the open file is written, since Go's
--   File.Truncate does not move it. What time.Now returns is an argument, `Clock`.
-- - OffsetStore: internal/broker/offset_store.go. The state is the file; `recover`, `append_commit`
--   and `compact` are Recover, AppendCommit and Compact. The nested maps are one function of the group,
--   the topic and the partition.
-- - Metadata: internal/metadata/store.go. The state is the file with the position of the next event;
--   `append_create_topic` and `recover_topics` are AppendCreateTopic and RecoverTopics, and
--   Metadata.Event is the validation and the encoding of an event.
-- - Mqtt: internal/mqtt/packets.go (Mqtt.Packets) and internal/mqtt/codec.go (Mqtt.Length the
--   remaining length, Mqtt.Codec the packets).
-- - Netproto: internal/netproto/messages.go (Netproto.Messages) and internal/netproto/codec.go
--   (Netproto.Primitives, Netproto.Record, Netproto.Frame, and the codecs of the messages in the
--   children of Netproto.Messages). The loops over counted items, which the code repeats, are
--   `put_counted` and `read_counted`. time.Now is an argument, `now`.
-- - Broker: internal/broker/broker.go. A map is the list of its entries (Broker.Maps), a partition
--   holds the state of its log. Broker.Produce has Produce, ProduceByKey, Fetch and ListOffsets,
--   which call the log of Storage.Log; Broker.Commits CommitOffset and FetchCommitted, which call
--   the OffsetStore and yield the snapshot that is compacted later; Broker.Groups JoinGroup,
--   LeaveGroup and rebalanceTopic; Broker.Cluster topicsFromClusterMetadata and
--   updatePartitionMetadata. What GetClusterMetadata returns is part of the state. sort.Strings and
--   sort.Ints are an insertion sort, hash/fnv is `fnv32a`.
-- - Controller: internal/controller/controller.go and the state machine of
--   internal/controller/raft_controller.go. The state is the cluster metadata. Controller.Commands
--   has RegisterBroker, AssignTopic and ReportReplicaProgress of the single-node controller;
--   Controller.Commands.Raft has `apply`, raftMetadataFSM.Apply, with its own
--   applyReplicaProgressLocked and applyRegisterBrokerLocked; Controller.Assignment the placement,
--   assignTopicPartitions, whose sort of the brokers is in place, and the helpers of both;
--   Controller.Bootstrap NewSingleNodeController. sort.Slice on the ids of brokers and partitions
--   is an insertion sort, the version a number that is counted up.
-- - Api: the types of pkg/api/api.go that these share.
-- The broker uses the storage of each partition, the offset store and the metadata store, and the
-- controller's metadata to know the leaders; the protocol
-- server and the MQTT server decode what a client sends, call the broker and encode its answer.
--
-- Loops and fuel: a scan of a file takes a record of one byte at least in each round, so its fuel
-- is one more than the length of the file; the binary search halves a range, and has one more round
-- than entries; the topics of a SUBSCRIBE packet take a byte each, so their fuel is the length of
-- the body; a loop over the records of a segment has one more round than unread bytes; the
-- retention removes at most as many segments as there are; the remaining length has at most four
-- bytes to decode and nine to encode. Sizes that the code holds in a uint32 wrap at 2^32, and the
-- theorems on whole files name the bound that excludes it.
--
-- Not modelled: the files' and sockets' own errors, cancelled contexts, locks and fsync; the error
-- texts (the errors are the constructors of `Error` and the like); offsets below zero in a
-- segment's base; the manager's map of open logs; the JSON in which a Raft command is stored, the
-- snapshots and the set-up of Raft, which is a third-party library; the delivery of metadata to
-- watchers; the topics' creation and loading in the broker and its snapshots; the replication, the
-- servers, the HTTP interface, the metrics and the commands.
pub mod Prelude
pub mod Wire
pub mod Frames
pub mod Api
pub mod Storage
pub mod OffsetStore
pub mod Metadata
pub mod Mqtt
pub mod Netproto
pub mod Broker
pub mod Controller
