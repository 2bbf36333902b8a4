-- ===== src/PeerFsm/Stale.antt =====
-- What stale peers and their messages lead to.
use unistore.Base.{Bool, ◌≡◌, true, none, false, arith, some, ◌∷◌, [], refl}
use unistore.Region.{RegionEpoch, is_epoch_stale, find_peer, peer_equal}
use unistore.RaftMessage.{RaftMessage, is_vote_message, handle_stale_msg, no_message}
use unistore.Store.{MemStore, StoreMeta}
use unistore.Store.Effects.{send}
use unistore.PeerFsm.{
  PeerFsm, maybe_destroy, handle_destroy_peer, destroy_peer, cancel_applying_snap, Bool,
}
use unistore.PeerFsm.Messages.{check_message, handle_gc_peer_msg}

-- A peer that is applying a snapshot and is not being removed panics on a message for it, with an
-- epoch for which the peer's is stale, that tells it to remove itself.
pub handle_gc_peer_msg_applying :
    {T : Type 0} (mem : MemStore T) (destroyed : Bool) (meta : StoreMeta T) (p : PeerFsm)
    (msg : RaftMessage) (epoch : RegionEpoch)
    → p.applying_snapshot ≡ true
    → p.pending_remove ≡ false
    → is_epoch_stale p.region.region_epoch epoch ≡ true
    → peer_equal p.meta msg.to_peer ≡ true
    → handle_gc_peer_msg mem destroyed meta p msg epoch ≡ none
unfolding handle_gc_peer_msg maybe_destroy handle_destroy_peer destroy_peer cancel_applying_snap
handle_gc_peer_msg_applying mem destroyed meta p msg epoch a r s q = ground arith

-- The answer to a stale message, which asks for a peer to be removed.
abbrev stale_answer : RaftMessage → RegionEpoch → RaftMessage
stale_answer msg epoch = record {
  region_id = msg.region_id;
  from_peer = msg.from_peer;
  to_peer = msg.to_peer;
  region_epoch = some epoch;
  message = no_message;
  is_tombstone = true;
  start_key = [];
  end_key = [];
  merge_target = none;
}

is_epoch_stale_refl : (e : RegionEpoch) → is_epoch_stale e e ≡ false
unfolding is_epoch_stale
is_epoch_stale_refl e = ground arith

-- The answer to a stale vote from a store that has no peer in the region is one tombstone message
-- with the region's epoch, which removes no peer: every peer other than the one that the vote was
-- sent to, its sender among them, ignores the message, and so does the peer that answered.
pub check_message_stale_vote :
    {T : Type 0} (mem : MemStore T) (destroyed : Bool) (meta meta' : StoreMeta T) (p q : PeerFsm)
    (msg : RaftMessage) (epoch : RegionEpoch)
    → is_epoch_stale epoch p.region.region_epoch ≡ true
    → find_peer p.region.peers msg.from_peer.store_id ≡ none
    → is_vote_message msg.message ≡ true
    → peer_equal q.meta msg.to_peer ≡ false
    → (answer : RaftMessage) × (check_message mem destroyed meta p msg epoch
        ≡ some (true, meta, p, send answer ∷ []))
      × (answer.is_tombstone ≡ true)
      × (answer.region_epoch ≡ some p.region.region_epoch)
      × (handle_gc_peer_msg mem destroyed meta' q answer p.region.region_epoch
          ≡ some (meta', q, []))
      × (handle_gc_peer_msg mem destroyed meta p answer p.region.region_epoch ≡ some (meta, p, []))
unfolding check_message handle_stale_msg handle_gc_peer_msg
check_message_stale_vote mem destroyed meta meta' p q msg epoch s f v other =
    let now = is_epoch_stale_refl p.region.region_epoch in
    (
      stale_answer msg p.region.region_epoch,
      rw (s, f, v) refl,
      refl,
      refl,
      ground (arith, other),
      ground (arith, now),
    )
