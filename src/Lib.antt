-- ===== src/Lib.antt =====
-- unistore: the raft store of a single TiKV-compatible node (raftstore/), and the tables that it
-- exchanges in RocksDB's format (rocksdb/).
--
-- A store keeps regions, which are ranges of keys, each replicated by a raft group. A peer of a group
-- proposes requests, the raft library commits them as log entries, the applier executes the entries
-- on the key-value engine, and the peer storage keeps the log, its state and the snapshots. A leader
-- answers reads from its own data while its lease holds, and gives remote leases to local readers.
--
-- Files, and the code that each is about:
--   Base          lists, bytes and words, Go results; the helpers that all parts share
--   Keys          raftstore/keys.go: keys of the two engines and their decoders
--   State         raftstore/state.go: applyState and raftState
--   Raftlog       raftstore/raftlog/custom.go: the custom raft log, its builder and visitors
--   Lease         raftstore/util.go: Lease and RemoteLease
--   Propose       raftstore/peer.go: the request policy, the check of configuration changes, the queues
--                 of reads and proposals
--   WriteBatch    raftstore/engine.go: the write batch and its safe point
--   Region        raftstore/util.go: key range checks, epochs, peers; RawStartKey, RawEndKey
--   Request       raftstore/util.go, raftstore/raftlog/request.go, raftstore/peer.go: commands and
--                 the checks of their epoch, term, store and peer
--   RaftMessage   raftstore/util.go, raftstore/fsm_peer.go: messages between peers, stale messages
--   Store         raftstore/fsm_store.go: the store's metadata, the searches in its table of ranges,
--                 and the creation of peers; the searches of raftstore/fsm_peer.go
--   PeerFsm       raftstore/fsm_peer.go, raftstore/peer.go: the checks of a peer's messages, its
--                 destruction, and what it does with splits, snapshots and membership changes
--   Ticker        raftstore/ticker.go, raftstore/fsm_peer.go: the ticks of a peer
--   EntryCache    raftstore/peer_storage.go: EntryCache
--   PeerStorage   raftstore/peer_storage.go: what the raft library reads, and what its ready
--                 states write
--   RocksDb       rocksdb/: blocks, numbers, internal keys and filters of tables in RocksDB's format
--   Applier       raftstore/applier.go: pending commands, committed entries and admin commands
--   Tests         runs at concrete inputs
--
-- Names are the source's in snake_case. A function that panics or fails returns an Option or an
-- Outcome (Base/Results). Numbers are natural numbers; where the source's words wrap, the remainder is
-- written out. Pointers are addresses in a Memory where code shares them (Lease), and values elsewhere.
-- A slice has no capacity beyond its length: a bound past the length is a panic. The clock is one number:
-- Go's monotonic reading and the wall clock, which the remote leases read, are not told apart.
--
-- The raft engine is a function from log indexes to entries, the size of an entry is a parameter, and
-- so are the key codec of TiDB, the protobuf decoders of requests and of the region of a snapshot, the
-- length of a key and the metadata of the transaction engine. The ordered table of a store is a
-- parameter with the laws of lockstore's MemStore (Store: MemStore), whose iterator is a list; what a
-- handler sends is a list of effects (Store/Effects), and a panic is the result none. What a write
-- command adds to the batch, or that it panics, is a parameter of the applier, and its theorems hold
-- for any: applier.go's execWriteCmd and what it calls are not modelled. The loops of the custom raft log's visitors run on fuel, the number of
-- bytes of the data, and each round takes at least one byte; a reader of a block runs on fuel too, for
-- which one more than the number of entries is enough. All other loops are structural, but for the
-- search for overlapping regions, which has a fuel of its own and does not always end.
--
-- Of tables in RocksDB's format, the reader of a filter is RocksDB's and not in this repository:
-- RocksDb/BloomMatches describes it, for the filter's builder to be held against. The comparator of
-- user keys and the prefix extractor are parameters.
--
-- Not modelled: the network, files, the engines themselves, goroutines and channels, the raft library,
-- logging and metrics.
pub mod Base
pub mod Applier
pub mod EntryCache
pub mod Keys
pub mod Lease
pub mod PeerFsm
pub mod PeerStorage
pub mod Propose
pub mod RaftMessage
pub mod Raftlog
pub mod Region
pub mod Request
pub mod RocksDb
pub mod State
pub mod Store
pub mod Ticker
pub mod WriteBatch
pub mod Tests
