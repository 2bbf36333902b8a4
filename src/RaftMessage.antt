-- ===== src/RaftMessage.antt =====
-- Messages between the peers of a raft group, and the tests on them: raftstore/util.go,
-- handleStaleMsg of raftstore/fsm_peer.go. The fields are those of kvproto's RaftMessage and of
-- eraftpb's Message that the store reads; the peers of a message are pointers in Go, which are
-- never nil here.
use unistore.Base.{
  ℕ, ◌+◌, ◌==◌, Bool, true, false, if◌then◌else◌, ◌&&◌, ◌||◌, List, [], ◌∷◌, Bytes, Option, none,
  some,
}
use unistore.Region.{Peer, Region, RegionEpoch}
use unistore.PeerStorage.{raft_init_log_term}
use unistore.PeerStorage.Ready.{Snapshot}

pub data MessageType : Type 0 where
  hup beat propose append append_response request_vote request_vote_response snapshot heartbeat
        heartbeat_response unreachable snap_status check_quorum transfer_leader timeout_now
        read_index read_index_resp request_pre_vote request_pre_vote_response :
      MessageType

pub record Message : Type 0 where
  pub msg_type : MessageType
  pub term : ℕ
  pub commit : ℕ
  pub snapshot : Option Snapshot

pub record RaftMessage : Type 0 where
  pub region_id : ℕ
  pub from_peer : Peer
  pub to_peer : Peer
  pub region_epoch : Option RegionEpoch
  pub message : Message
  pub is_tombstone : Bool
  pub start_key : Bytes
  pub end_key : Bytes
  pub merge_target : Option Region

unfoldable pub is_vote_type : MessageType → Bool
is_vote_type request_vote = true
is_vote_type request_pre_vote = true
is_vote_type _ = false

unfoldable pub is_vote_message : Message → Bool
unfolding is_vote_type
is_vote_message msg = is_vote_type msg.msg_type

unfoldable pub is_first_vote_message : Message → Bool
unfolding is_vote_message
is_first_vote_message msg = is_vote_message msg && msg.term == raft_init_log_term + 1

abbrev is_heartbeat : MessageType → Bool
is_heartbeat heartbeat = true
is_heartbeat _ = false

abbrev raft_invalid_index : ℕ
raft_invalid_index = 0

unfoldable pub is_initial_msg : Message → Bool
unfolding is_vote_message
is_initial_msg msg =
    is_vote_message msg || (is_heartbeat msg.msg_type && msg.commit == raft_invalid_index)

-- A message that is missing reads as one with zero values.
abbrev pub no_message : Message
no_message = record { msg_type = hup; term = 0; commit = 0; snapshot = none }

abbrev pub is_none {ℓ} : {A : Type ℓ} → Option A → Bool
is_none none = true
is_none (some a) = false

-- The messages that `handleStaleMsg` sends: the peers of the answer stand as in the message.
unfoldable pub handle_stale_msg :
    RaftMessage → RegionEpoch → Bool → Option Region → List RaftMessage
handle_stale_msg msg cur_epoch need_gc target_region =
    if need_gc
    then record {
      region_id = msg.region_id;
      from_peer = msg.from_peer;
      to_peer = msg.to_peer;
      region_epoch = some cur_epoch;
      message = no_message;
      is_tombstone = is_none target_region;
      start_key = [];
      end_key = [];
      merge_target = target_region;
    }
      ∷ []
    else []
