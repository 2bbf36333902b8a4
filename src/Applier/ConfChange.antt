-- ===== src/Applier/ConfChange.antt =====
-- raftstore/applier.go: execChangePeer.
use unistore.Applier.{
  ExecError, Write, duplicated_learner, tombstone, missing_peer, unmatched_peer, normal,
  duplicated_peer, write_peer_state,
}
use unistore.Request.{ConfChangeType, ChangePeerRequest}
use unistore.Region.{peer_equal, Peer, Region, find_peer, voter, remove_peer, is_learner}
use unistore.Base.{
  ℕ, ◌+◌, ◌%◌, ◌^◌, ◌==◌, Bool, false, if◌then◌else◌, not, ◌||◌, List, [], ◌∷◌, ◌++◌, Outcome, ok,
  err, panic, Option, none, some,
}

pub record ChangePeerResult : Type 0 where
  pub region : Region
  pub peer : Peer
  -- The applier's own peer was removed.
  pub removed_self : Bool
  pub writes : List Write

abbrev pub next_conf_ver : Region → Region
next_conf_ver region = record region {
  region_epoch = record region.region_epoch {
    conf_ver = (region.region_epoch.conf_ver + 1) % 2 ^ 64;
  };
}

abbrev pub with_peers : Region → List Peer → Region
with_peers region peers = record region { peers = peers }

-- `findPeer` returns a pointer into the region: the role of the peer that is found is set.
unfoldable pub promote_peer : List Peer → ℕ → List Peer
promote_peer [] store_id = []
promote_peer (p ∷ ps) store_id =
    if p.store_id == store_id then record p { role = voter } ∷ ps else p ∷ promote_peer ps store_id

unfoldable pub add_node : Region → Peer → Option Peer → Outcome ExecError (List Peer)
unfolding promote_peer
add_node region peer none = ok (region.peers ++ (peer ∷ []))
add_node region peer (some p) =
    if not (is_learner p.role) || not (p.id == peer.id)
    then err duplicated_peer
    else ok (promote_peer region.peers peer.store_id)

unfoldable pub remove_node : Peer → List Peer × Option Peer → Outcome ExecError (List Peer)
unfolding peer_equal
remove_node peer (left, none) = err missing_peer
remove_node peer (left, some p) = if not (peer_equal p peer) then err unmatched_peer else ok left

unfoldable pub add_learner : Region → Peer → Option Peer → Outcome ExecError (List Peer)
add_learner region peer none = ok (region.peers ++ (peer ∷ []))
add_learner region peer (some p) = err duplicated_learner

unfoldable pub changed_peers : Region → ConfChangeType → Peer → Outcome ExecError (List Peer)
unfolding find_peer remove_peer add_node remove_node add_learner
changed_peers region ConfChangeType.add_node peer =
    add_node region peer (find_peer region.peers peer.store_id)
changed_peers region ConfChangeType.remove_node peer =
    remove_node peer (remove_peer region.peers peer.store_id)
changed_peers region ConfChangeType.add_learner_node peer =
    add_learner region peer (find_peer region.peers peer.store_id)

abbrev pub removes_self : ℕ → ConfChangeType → Peer → Bool
removes_self id ConfChangeType.remove_node peer = id == peer.id
removes_self id _ peer = false

-- `pending_remove` is the applier's flag, which the removal of its own peer sets.
abbrev pub changed : ℕ → Bool → Region → ChangePeerRequest → List Peer → ChangePeerResult
changed id pending_remove region req peers =
    let after = with_peers (next_conf_ver region) peers in
    let self = removes_self id req.change_type req.peer in
    let state = if pending_remove || self then tombstone else normal in
    record {
      region = after;
      peer = req.peer;
      removed_self = self;
      writes = write_peer_state after state ∷ [];
    }

abbrev pub change_result :
    ℕ
    → Bool
    → Region
    → ChangePeerRequest
    → Outcome ExecError (List Peer)
    → Outcome ExecError ChangePeerResult
change_result id pending_remove region req (err e) = err e
change_result id pending_remove region req panic = panic
change_result id pending_remove region req (ok peers) =
    ok (changed id pending_remove region req peers)

unfoldable pub exec_change_peer :
    ℕ → Bool → Region → ChangePeerRequest → Outcome ExecError ChangePeerResult
unfolding changed_peers
exec_change_peer id pending_remove region req =
    change_result id pending_remove region req (changed_peers region req.change_type req.peer)
