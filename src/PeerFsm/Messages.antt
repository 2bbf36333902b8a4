-- ===== src/PeerFsm/Messages.antt =====
-- raftstore/fsm_peer.go: the checks of a raft message before the raft library sees it.
use unistore.Base.{
  Bool, ◌==◌, Option, List, ◌&&◌, if◌then◌else◌, some, not, true, ◌++◌, none, ◌∷◌, ◌||◌, ltb, [],
  false,
}
use unistore.Region.{RegionEpoch, peer_equal, find_peer, is_epoch_stale}
use unistore.RaftMessage.{RaftMessage, is_vote_message, handle_stale_msg, is_none}
use unistore.Store.{MemStore, StoreMeta, is_some}
use unistore.Store.Create.{sends}
use unistore.Store.Effects.{Effect, to_store}
use unistore.PeerFsm.{PeerFsm, maybe_destroy, handle_destroy_peer, Bool}

unfoldable pub validate_raft_message : PeerFsm → RaftMessage → Bool
validate_raft_message p msg = msg.to_peer.store_id == p.meta.store_id && is_some msg.region_epoch

module _ {T : Type 0} (mem : MemStore T) (destroyed : Bool) where
  abbrev resend :
      RaftMessage
      → Option (Bool × StoreMeta T × PeerFsm × List Effect)
      → Option (Bool × StoreMeta T × PeerFsm × List Effect)
  resend msg none = none
  resend msg (some (true, m, p, es)) = some (true, m, p, es ++ (to_store msg ∷ []))
  resend msg (some (false, m, p, es)) = some (true, m, p, es)

  -- True if the message can be dropped; the epoch is the message's.
  unfoldable pub check_message :
      StoreMeta T
      → PeerFsm
      → RaftMessage
      → RegionEpoch
      → Option (Bool × StoreMeta T × PeerFsm × List Effect)
  unfolding maybe_destroy handle_destroy_peer
  check_message meta p msg from_epoch =
      if is_epoch_stale from_epoch p.region.region_epoch
        && is_none (find_peer p.region.peers msg.from_peer.store_id)
      then some (
        true,
        meta,
        p,
        sends (handle_stale_msg msg p.region.region_epoch (is_vote_message msg.message) none),
      )
      else if ltb msg.to_peer.id p.meta.id
      then some (true, meta, p, [])
      else if ltb p.meta.id msg.to_peer.id
      then (let (q, job) = maybe_destroy p in
          elim job [
            | none ↦ some (true, meta, q, [])
            | some j ↦ resend msg (handle_destroy_peer mem destroyed meta q j)
          ])
      else some (false, meta, p, [])

  abbrev without_answer :
      Option (Bool × StoreMeta T × PeerFsm × List Effect)
      → Option (StoreMeta T × PeerFsm × List Effect)
  without_answer none = none
  without_answer (some (b, m, p, es)) = some (m, p, es)

  unfoldable pub handle_gc_peer_msg :
      StoreMeta T
      → PeerFsm
      → RaftMessage
      → RegionEpoch
      → Option (StoreMeta T × PeerFsm × List Effect)
  unfolding maybe_destroy handle_destroy_peer
  handle_gc_peer_msg meta p msg from_epoch =
      if not (is_epoch_stale p.region.region_epoch from_epoch)
        || not (peer_equal p.meta msg.to_peer)
      then some (meta, p, [])
      else let (q, job) = maybe_destroy p in
        elim job [
          | none ↦ some (meta, q, [])
          | some j ↦ without_answer (handle_destroy_peer mem destroyed meta q j)
        ]
