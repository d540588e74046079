-- ===== src/Lib.antt =====
-- A verification development beside gems, an embedded entity store with ABAC, a query language
-- and clustering (crates/*). It models the parts below as functions and proves what makes them
-- correct. Everything is modelled from the sources; byte strings are lists of numbers, and a
-- machine integer is a number whose wrap-around is written out.
--
-- The parts and the files that model them:
-- - Prelude and its children: lists, maps (HashMap and BTreeMap as association lists), sets,
--   sorting, words, bytes, results.
-- - Common (crates/gems-common): Crc32c, Sha256 and Hmac hold the hashes, and Base64Url that
--   encoding (base64url.rs); Bits and Padding prove what the comparison of tags, the padding,
--   the words of base64url and the rounding to pages rest on.
-- - Codec.Cursor holds the readers: a decoder that moves a position over a buffer is a
--   function from the buffer and the position to its result and the new position, and its
--   steps are chained as the source chains them with `?`. Codec.Decodes has the rules by which
--   a reader is shown to get back what was written, and Codec.Fields the fields that several
--   encodings share.
-- - Catalog (crates/gems-catalog): Kind, Header, HeaderCodec and Truncate hold the header and
--   its codec, HeaderTrip what is read back; Policy and PolicyCodec
--   (crates/gems-catalog/src/policy.rs, its two functions named matches standing as
--   target_matches and subject_matches); Util (crates/gems-catalog/src/util.rs); Bodies the
--   bodies of the other entities, with to_u8 and from_u8 of SubjectKind standing as
--   subject_kind_to_u8 and subject_kind_from_u8, and the codecs of Layer, VariantList, Role,
--   LayerGroup and LinkType named after their types.
-- - Abac (crates/gems-abac/src/lib.rs): Decision holds evaluate, and Verdict proves what the
--   policies decide; Enforcement holds enforce and what it returns.
-- - Codec (crates/gems-codec/src/gbv.rs): Bytes, Tag, Builder, Reader, Redact and Search hold
--   the GBV directory, from_u8 and new standing as tag_from_u8, open_reader and new_builder.
-- - Record (crates/gems-cluster/src/record.rs): the unit of replication that the log of Raft
--   holds.
-- - Raft (crates/gems-cluster/src/raft.rs): State, Sending, Election, Follower, Commit and
--   Core hold RaftCore and every function of it, each under its source name; a handler returns
--   the new state beside what it sends, and none is a panic. Terms, Ballots, Voting and
--   Receiving say what one node keeps. Cluster is a step relation over several nodes and a
--   network that loses, repeats, delays and reorders messages, with restarts from persistent
--   state. Reconcile, Redelivery, Quorum, Draining, Appending and Overrun prove the log's
--   behaviour.
-- - Gossip (crates/gems-cluster/src/gossip.rs): State, Queue, Merge, Probe and Core hold
--   SwimCore and every function of it; none is a panic of an index. Order and Ascent prove
--   that what is recorded only moves up, Soundness, Aging and Ticking that a well-formed node
--   stays so and does not panic, Detection and Deadline that a silent suspect is declared
--   dead, Refutation how an accused node clears itself, Retransmission and Queued what the
--   gossip queue holds and sends. A HashMap that the source iterates over is an association
--   list, whose order stands for the unspecified one.
-- - Wire (crates/gems-cluster): Frame the length prefix and its bound (frame.rs) and Record
--   the log record (record.rs); Sealed the frame with a tag that raft.rs and gossip.rs both
--   make, RaftMessage and GossipMessage their modules wire; Entries and RaftState the file of
--   the persistent state (raft_state.rs). Receiving proves what the decoders promise about
--   bytes from anywhere.
-- - Storage (crates/gems-storage): BlockClass, Bitmap, Pointer and Manager hold the block
--   classes, the bitmap of an extent (extent.rs), SlotPointer (slot.rs), the mapped file and
--   its allocator (file.rs, manager.rs, and crates/gems-common/src/pagesize.rs); set stands as
--   put, open as open_manager, and the start of a match or a test inside allocate as a
--   function of its own. Classes, Bits, Slots, Access, Growth, Allocation, View, Fresh and
--   Allocator prove what holds of them. The abstract view of a bitmap, in Slots, is the set of
--   its allocated slots, and that of a manager, in View, such a set for each extent of its
--   list.
-- - Shard (crates/gems-cluster/src/shard.rs): ShardRouter.
--
-- Loops over collections are recursions on the list. The drain of committed entries counts its
-- rounds, which are as many as the distance from last_applied to commit_index. The zeros of
-- the padding of SHA-256 are pushed in at most 64 rounds, which the theorem on the padding
-- shows to be enough; a text is read as UTF-8 in as many rounds as it has bytes. The doubling
-- of a block size has seventeen rounds, and the binary search of a directory one more than
-- there are fields; each is shown to be enough. A clock tick in the cluster wants room for one
-- more term below 2^64.
--
-- Not modelled: sockets, threads and timers (raft_net.rs, swim_net.rs, server.rs, replica.rs),
-- files and memory maps as such (a mapped file is its length and the byte at each position,
-- and calls of the operating system succeed), the terminal and web front ends, and the command
-- line. The B-tree index, the bitmaps, the query language, JSON and the subscriptions are
-- outside this library too.
pub mod Prelude
pub mod Common
pub mod Catalog
pub mod Codec
pub mod Record
pub mod Raft
pub mod Gossip
pub mod Wire
pub mod Abac
pub mod Storage
pub mod Shard
