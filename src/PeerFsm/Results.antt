-- ===== src/PeerFsm/Results.antt =====
-- raftstore/fsm_peer.go: what a peer does with the results of applied commands and snapshots.
use unistore.Base.{
  ℕ, List, Bool, some, [], if◌then◌else◌, true, Option, ltb, erase, lookup, length, ◌∷◌, ◌==◌, none,
  insert, false, ◌++◌, ◌&&◌, map,
}
use unistore.Base.Partial.{◌>>=◌}
use unistore.Region.{Peer, Region, peer_equal, find_peer, is_learner}
use unistore.RaftMessage.{RaftMessage}
use unistore.Request.{ConfChangeType, remove_node}
use unistore.Store.{MemStore, StoreMeta, is_some, region_id_to_bytes}
use unistore.Store.Effects.{
  Effect, deliver, register, start_peer, close, activate, heartbeat_pd, report_split,
  split_observed, peer_snapshot, conf_changed, campaign,
}
use unistore.PeerFsm.{
  PeerFsm, Changed, has_peers, set_region, insert_peer_cache, remove_peer_cache, remove_range,
  destroy_peer, ℕ, List, Bool,
}

-- The first message to a peer, and the messages without it.
unfoldable pub take_vote : Peer → List RaftMessage → Option RaftMessage × List RaftMessage
take_vote peer [] = (none, [])
take_vote peer (m ∷ ms) =
    let (found, rest) = take_vote peer ms in
    if peer_equal m.to_peer peer then (some m, ms) else (found, m ∷ rest)

abbrev delivered : ℕ → Option RaftMessage → List Effect
delivered id none = []
delivered id (some m) = deliver id m ∷ []

-- A region that the store has with its peers, not only with its id.
abbrev pub is_occupied : Option Region → Bool
is_occupied none = false
is_occupied (some r) = has_peers r

abbrev pub when : Bool → List Effect → List Effect
when true es = es
when false es = []

-- `MaybeCampaign`: a group of one has campaigned when it was created.
unfoldable pub maybe_campaign : Region → Bool → Bool
maybe_campaign region parent_is_leader = ltb 1 (length region.peers) && parent_is_leader

unfoldable pub last_region : List Region → Option Region
last_region [] = none
last_region (r ∷ []) = some r
last_region (r ∷ s ∷ rs) = last_region (s ∷ rs)

-- The caches of a peer after a change of a member, at a time.
unfoldable pub cache_change : ConfChangeType → Peer → ℕ → PeerFsm → PeerFsm
unfolding insert_peer_cache remove_peer_cache
cache_change remove_node peer now p =
    remove_peer_cache
      (record p {
        peer_heartbeats = erase peer.id p.peer_heartbeats;
        peers_start_pending_time =
            if p.is_leader
            then erase peer.id p.peers_start_pending_time
            else p.peers_start_pending_time;
      })
      peer.id
cache_change _ peer now p =
    insert_peer_cache
      (record p {
        meta = if p.meta.id == peer.id && is_learner p.meta.role then peer else p.meta;
        peer_heartbeats = insert peer.id now p.peer_heartbeats;
        peers_start_pending_time =
            if p.is_leader
            then insert peer.id now p.peers_start_pending_time
            else p.peers_start_pending_time;
        recent_added_peer = (peer.id, now);
      })
      peer

abbrev is_removal : ConfChangeType → Bool
is_removal remove_node = true
is_removal _ = false

module _ {T : Type 0} (mem : MemStore T) (store_id : ℕ) where
  -- The table with the end key of a region, which must be new.
  unfoldable pub add_range : StoreMeta T → Region → Option (StoreMeta T)
  add_range meta r =
      let (ranges, fresh) = mem.put meta.region_ranges r.end_key (region_id_to_bytes r.id) in
      if fresh then some (record meta { region_ranges = ranges }) else none

  -- A new region, for which there may be a peer that is not initialised. The router and the maps
  -- take the new peer, and a vote that waits for it is delivered.
  unfoldable pub add_new_region : Bool → StoreMeta T → Region → Option (StoreMeta T × List Effect)
  unfolding take_vote maybe_campaign
  add_new_region is_leader meta r =
      let known = lookup r.id meta.regions in
      elim (is_occupied known) [
        | true ↦ none
        | false ↦ elim (find_peer r.peers store_id) [
          | none ↦ none
          | some peer ↦
              let campaigned = maybe_campaign r is_leader in
              let (vote, votes) =
                if campaigned
                then (none, meta.pending_votes)
                else take_vote peer meta.pending_votes in
              some (
                record meta { regions = insert r.id r meta.regions; pending_votes = votes },
                when (is_some known) (close r.id ∷ [])
                    ++ when campaigned (campaign r.id ∷ [])
                    ++ when is_leader (heartbeat_pd r ∷ [])
                    ++ activate r ∷ register r peer ∷ start_peer r.id ∷ delivered r.id vote,
              )
        ]
      ]

  unfoldable pub split_regions :
      Bool → ℕ → StoreMeta T → List Region → Option (StoreMeta T × List Effect)
  unfolding add_range add_new_region
  split_regions is_leader region_id meta [] = some (meta, [])
  split_regions is_leader region_id meta (r ∷ rs) = do
    m ← add_range meta r
    (m', es) ← if r.id == region_id then some (m, []) else add_new_region is_leader m r
    (m'', es') ← split_regions is_leader region_id m' rs
    some (m'', es ++ es')

  unfoldable pub on_ready_split_region : StoreMeta T → PeerFsm → Region → List Region → Changed T
  unfolding split_regions last_region set_region remove_range
  on_ready_split_region meta p derived regions =
      let (m, q) = set_region meta derived p in
      (do
        last ← last_region regions
        m' ← remove_range mem m last.end_key
        (m'', es) ← split_regions p.is_leader derived.id m' regions
        some (
          m'',
          record q { size_diff_hint = 0; delete_keys_hint = 0; approximate_size = none },
          when p.is_leader (heartbeat_pd derived ∷ report_split regions ∷ [])
              ++ es
              ++ split_observed derived regions (map (λ r. r.id) regions) ∷ [],
        ))

  unfoldable pub on_ready_apply_snapshot :
      StoreMeta T → Region → Region → Option (StoreMeta T × List Effect)
  unfolding add_range
  on_ready_apply_snapshot meta prev_region region =
      let m =
        if has_peers prev_region
        then record meta { region_ranges = (mem.delete meta.region_ranges prev_region.end_key).0 }
        else meta in
      (do
        m' ← add_range m region
        some
            (record m' { regions = insert region.id region m'.regions }, peer_snapshot region ∷ []))

  -- A change that failed to apply has no node; the peer that is removed from this store must be
  -- the peer itself.
  unfoldable pub on_ready_change_peer :
      Bool → StoreMeta T → PeerFsm → ConfChangeType → ℕ → Region → Peer → ℕ → Changed T
  unfolding set_region cache_change destroy_peer
  on_ready_change_peer destroyed meta p change_type node_id region peer now =
      if node_id == 0
      then some (meta, p, [])
      else let (m, q) = set_region meta region p in
        let q' = cache_change change_type peer now q in
        let es =
          conf_changed p.region_id region.region_epoch
          ∷ when q'.is_leader (heartbeat_pd region ∷ []) in
        if is_removal change_type && peer.store_id == q'.meta.store_id
        then if q'.meta.id == peer.id
          then (do (m', r, es') ← destroy_peer mem destroyed m q' false; some (m', r, es ++ es'))
          else none
        else some (m, q', es)
