-- ===== src/Request.antt =====
-- Commands and their epoch checks: raftstore/util.go, raftstore/raftlog/request.go and the request
-- tests of raftstore/peer.go. The fields are those of kvproto's raft_cmdpb messages that the store
-- reads; an optional message is an `Option`.
pub mod EpochCheck
use unistore.Base.{
  ℕ, ◌+◌, ◌%◌, ◌^◌, ltb, leb, ◌==◌, Bool, true, false, if◌then◌else◌, not, ◌&&◌, ◌||◌, List, [],
  ◌∷◌, Bytes, Outcome, ok, err, panic, Option, none, some,
}
use unistore.Raftlog.{CustomRaftLog, Epoch, new_epoch}
use unistore.Region.{
  Peer, Region, RegionEpoch, RaftError, Checked, epoch_not_match, stale_command, missing_header,
  missing_epoch, store_not_match, mismatch_peer_id,
}

pub data AdminCmdType : Type 0 where
  invalid_admin change_peer split compact_log transfer_leader compute_hash verify_hash prepare_merge
        commit_merge rollback_merge batch_split :
      AdminCmdType

pub data ConfChangeType : Type 0 where
  add_node remove_node add_learner_node : ConfChangeType

pub record ChangePeerRequest : Type 0 where
  pub change_type : ConfChangeType
  pub peer : Peer

pub record SplitRequest : Type 0 where
  pub split_key : Bytes
  pub new_region_id : ℕ
  pub new_peer_ids : List ℕ
  pub right_derive : Bool

pub record BatchSplitRequest : Type 0 where
  pub requests : List SplitRequest
  pub right_derive : Bool

pub record CompactLogRequest : Type 0 where
  pub compact_index : ℕ
  pub compact_term : ℕ

pub record AdminRequest : Type 0 where
  pub cmd_type : AdminCmdType
  pub change_peer : Option ChangePeerRequest
  pub split : Option SplitRequest
  pub splits : Option BatchSplitRequest
  pub compact_log : Option CompactLogRequest
  pub transfer_leader : Option Peer
  pub verify_hash : Option (ℕ × Bytes)

pub data CmdType : Type 0 where
  invalid get put delete snap prewrite delete_range ingest_sst read_index : CmdType

pub record Request : Type 0 where
  pub cmd_type : CmdType
  pub delete_range : Option (Bytes × Bytes)
  pub ingest_sst : Option Bytes

pub record RequestHeader : Type 0 where
  pub region_id : ℕ
  pub peer : Option Peer
  pub read_quorum : Bool
  pub region_epoch : Option RegionEpoch
  pub term : ℕ
  pub sync_log : Bool

pub record RaftCmdRequest : Type 0 where
  pub header : Option RequestHeader
  pub requests : List Request
  pub admin_request : Option AdminRequest

-- Which parts of the epoch `CheckRegionEpoch` checks for a command: the version and the conf
-- version.
unfoldable pub epoch_checks : Option AdminCmdType → Bool × Bool
epoch_checks none = (true, false)
epoch_checks (some compact_log) = (false, false)
epoch_checks (some invalid_admin) = (false, false)
epoch_checks (some compute_hash) = (false, false)
epoch_checks (some verify_hash) = (false, false)
epoch_checks (some change_peer) = (false, true)
epoch_checks (some split) = (true, true)
epoch_checks (some batch_split) = (true, true)
epoch_checks (some prepare_merge) = (true, true)
epoch_checks (some commit_merge) = (true, true)
epoch_checks (some rollback_merge) = (true, true)
epoch_checks (some transfer_leader) = (true, true)

abbrev pub admin_cmd_type : Option AdminRequest → Option AdminCmdType
admin_cmd_type none = none
admin_cmd_type (some a) = some a.cmd_type

-- The part of the checks that compares the epochs; the region is in the error if asked for.
unfoldable pub compare_epochs : Bool × Bool → ℕ → ℕ → Region → Bool → Checked
compare_epochs (check_ver, check_conf_ver) version conf_ver region include_region =
    if (check_conf_ver && not (conf_ver == region.region_epoch.conf_ver))
      || (check_ver && not (version == region.region_epoch.version))
    then err (epoch_not_match (if include_region then region ∷ [] else []))
    else ok tt

unfoldable pub with_epoch : Bool × Bool → Option RegionEpoch → Region → Bool → Checked
unfolding compare_epochs
with_epoch checks none region include_region = err missing_epoch
with_epoch checks (some e) region include_region =
    compare_epochs checks e.version e.conf_ver region include_region

unfoldable pub with_header : Bool × Bool → Option RequestHeader → Region → Bool → Checked
unfolding with_epoch
with_header checks none region include_region = err missing_header
with_header checks (some h) region include_region =
    with_epoch checks h.region_epoch region include_region

-- `CheckRegionEpoch`, on a request.
unfoldable pub check_request_epoch : RaftCmdRequest → Region → Bool → Checked
unfolding epoch_checks with_header
check_request_epoch req region include_region =
    let checks = epoch_checks (admin_cmd_type req.admin_request) in
    if not checks.0 && not checks.1
    then ok tt
    else with_header checks req.header region include_region

-- A raft log is a request or one of the custom format.
pub data RaftLog : Type 0 where
  custom : CustomRaftLog → RaftLog
  request : RaftCmdRequest → RaftLog

unfoldable pub get_raft_cmd_request : RaftLog → Option RaftCmdRequest
get_raft_cmd_request (custom c) = none
get_raft_cmd_request (request r) = some r

abbrev epoch_or_zero : Option RegionEpoch → Epoch
epoch_or_zero none = record { ver = 0; conf_ver = 0 }
epoch_or_zero (some e) = new_epoch e.version e.conf_ver

abbrev request_epoch : Option RequestHeader → Option Epoch
request_epoch none = none
request_epoch (some h) = some (epoch_or_zero h.region_epoch)

-- The epoch of a raft log, in 32 bits each; `none` is the panic on a request with no header.
unfoldable pub epoch : RaftLog → Option Epoch
unfolding new_epoch
epoch (custom c) = some c.header.epoch
epoch (request r) = request_epoch r.header

abbrev pub log_admin : RaftLog → Option AdminRequest
log_admin (custom c) = none
log_admin (request r) = r.admin_request

against_epoch : Bool × Bool → Option Epoch → Region → Bool → Checked
unfolding compare_epochs
against_epoch checks none region include_region = panic
against_epoch checks (some e) region include_region =
    compare_epochs checks e.ver e.conf_ver region include_region

-- The parts that `checkRegionEpoch` checks, by a switch of its own.
unfoldable pub log_epoch_checks : Option AdminCmdType → Bool × Bool
log_epoch_checks none = (true, false)
log_epoch_checks (some compact_log) = (false, false)
log_epoch_checks (some invalid_admin) = (false, false)
log_epoch_checks (some compute_hash) = (false, false)
log_epoch_checks (some verify_hash) = (false, false)
log_epoch_checks (some change_peer) = (false, true)
log_epoch_checks (some split) = (true, true)
log_epoch_checks (some batch_split) = (true, true)
log_epoch_checks (some prepare_merge) = (true, true)
log_epoch_checks (some commit_merge) = (true, true)
log_epoch_checks (some rollback_merge) = (true, true)
log_epoch_checks (some transfer_leader) = (true, true)

-- `checkRegionEpoch`, on a raft log.
unfoldable pub check_region_epoch : RaftLog → Region → Bool → Checked
unfolding log_epoch_checks epoch against_epoch
check_region_epoch rlog region include_region =
    let checks = log_epoch_checks (admin_cmd_type (log_admin rlog)) in
    if not checks.0 && not checks.1
    then ok tt
    else against_epoch checks (epoch rlog) region include_region

abbrev header_term : Option RequestHeader → Option ℕ
header_term none = none
header_term (some h) = some h.term

unfoldable pub term : RaftLog → Option ℕ
term (custom c) = some c.header.term
term (request r) = header_term r.header

abbrev check_term_of : Option ℕ → ℕ → Checked
check_term_of none current = panic
check_term_of (some t) current =
    if t == 0 || leb current ((t + 1) % 2 ^ 64) then ok tt else err stale_command

unfoldable pub check_term : RaftLog → ℕ → Checked
unfolding term
check_term rlog current = check_term_of (term rlog) current

abbrev header_peer : Option RequestHeader → Option Peer
header_peer none = none
header_peer (some h) = h.peer

-- The peer that a raft log was proposed through: its store and its id.
unfoldable pub store_id : RaftLog → Option ℕ
store_id (custom c) = some c.header.store_id
store_id (request r) = elim (header_peer r.header) [ none ↦ none | some p ↦ some p.store_id ]

unfoldable pub peer_id : RaftLog → Option ℕ
peer_id (custom c) = some c.header.peer_id
peer_id (request r) = elim (header_peer r.header) [ none ↦ none | some p ↦ some p.id ]

unfoldable pub check_store_id : RaftLog → ℕ → Checked
unfolding store_id
check_store_id rlog expected = elim (store_id rlog) [
  | none ↦ panic
  | some s ↦ if s == expected then ok tt else err (store_not_match s expected)
]

unfoldable pub check_peer_id : RaftLog → ℕ → Checked
unfolding peer_id
check_peer_id rlog expected = elim (peer_id rlog) [
  | none ↦ panic
  | some p ↦ if p == expected then ok tt else err (mismatch_peer_id p expected)
]

-- Requests by what they do: raftstore/peer.go.
abbrev pub admin_change_peer : Option AdminRequest → Option ChangePeerRequest
admin_change_peer none = none
admin_change_peer (some a) = a.change_peer

abbrev pub admin_transfer_leader : Option AdminRequest → Option Peer
admin_transfer_leader none = none
admin_transfer_leader (some a) = a.transfer_leader

unfoldable pub is_urgent_admin : AdminCmdType → Bool
is_urgent_admin split = true
is_urgent_admin batch_split = true
is_urgent_admin change_peer = true
is_urgent_admin compute_hash = true
is_urgent_admin verify_hash = true
is_urgent_admin prepare_merge = true
is_urgent_admin commit_merge = true
is_urgent_admin rollback_merge = true
is_urgent_admin compact_log = false
is_urgent_admin transfer_leader = false
is_urgent_admin invalid_admin = false

unfoldable pub is_urgent_request : RaftLog → Bool
unfolding is_urgent_admin
is_urgent_request rlog = elim (log_admin rlog) [
  | none ↦ false
  | some a ↦ is_urgent_admin a.cmd_type
]
