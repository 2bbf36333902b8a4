-- ===== src/Applier.antt =====
-- raftstore/applier.go: how the committed entries of a region are executed.
-- The data that the commands share: their errors, what they write, and their results. The protobuf
-- form of a region state is not written out: a write is the key's region with the state itself.
pub mod Split
pub mod SplitRanges
pub mod SplitPieces
pub mod SplitResult
pub mod SplitAccepts
pub mod ConfChange
pub mod ConfChangePeers
pub mod ConfChangeAccepts
pub mod Commands
pub mod CommandsAnswered
pub mod Compact
pub mod Exec
pub mod Entries
pub mod ExecSound
pub mod ExecEnd
pub mod EntriesIndex
pub mod EntriesEnd
use unistore.Base.{ℕ, List, Bytes, ◌==◌, Bool}
use unistore.State.{ApplyState}
use unistore.PeerStorage.{raft_init_log_index, raft_init_log_term}
use unistore.Region.{Region, RaftError}

pub data ExecError : Type 0 where
  missing_split_key invalid_split_request : ExecError
  invalid_new_peer_ids : ℕ → ℕ → ExecError
  checked : RaftError → ExecError
  duplicated_peer duplicated_learner unmatched_peer missing_peer : ExecError
  outdated_format compacted_entries : ExecError
  beyond_applied : ℕ → ℕ → ExecError
  not_executed unsupported : ExecError

pub data PeerState : Type 0 where
  normal applying tombstone merging : PeerState

-- The entries that a command adds to the write batch.
pub data Write : Type 0 where
  set_peer_state : Region → PeerState → Write
  set_apply_state : ℕ → ApplyState → Write
  set_data : Bytes → Bytes → Write

abbrev pub write_peer_state : Region → PeerState → Write
write_peer_state region state = set_peer_state region state

abbrev pub write_initial_apply_state : ℕ → Write
write_initial_apply_state region_id = set_apply_state region_id (record {
  applied_index = raft_init_log_index;
  truncated_index = raft_init_log_index;
  truncated_term = raft_init_log_term;
})
