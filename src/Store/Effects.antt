-- ===== src/Store/Effects.antt =====
-- What the handlers of a store and of its peers send and tell, in order.
use unistore.Base.{ℕ, List, Bool}
use unistore.Region.{Peer, Region, RegionEpoch}
use unistore.RaftMessage.{RaftMessage}

pub data Effect : Type 0 where
  -- To other stores, to a peer of this one, and to the store itself.
  send : RaftMessage → Effect
  deliver : ℕ → RaftMessage → Effect
  to_store : RaftMessage → Effect
  -- The router learns of a new peer, starts it, or forgets a region.
  register : Region → Peer → Effect
  start_peer close : ℕ → Effect
  -- A source of a merge is told that it is stale, for the target peer.
  merge_stale : ℕ → Peer → Effect
  -- To the applier.
  activate : Region → Effect
  apply_destroy : ℕ → Effect
  -- To the placement driver.
  heartbeat_pd : Region → Effect
  report_split : List Region → Effect
  pd_destroy : ℕ → Effect
  -- To the observer of events.
  peer_created peer_snapshot : Region → Effect
  peer_destroyed : ℕ → Effect
  conf_changed : ℕ → RegionEpoch → Effect
  split_observed : Region → List Region → List ℕ → Effect
  -- To the raft library: a campaign of a new region's peer, and its snapshot's status.
  campaign : ℕ → Effect
  report_snapshot : ℕ → Bool → Effect
