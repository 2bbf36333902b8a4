-- ===== src/PeerFsm.antt =====
-- raftstore/fsm_peer.go, raftstore/peer.go: a peer as its messages find it, its cache of peers,
-- and how it is destroyed.
pub mod Messages
pub mod Results
pub mod Consistent
pub mod Splitting
pub mod SplitConsistent
pub mod KeepsConsistent
pub mod Stale
use unistore.Base.{
  ◌&&◌, ℕ, Option, Bool, Bytes, List, insert, erase, lookup, true, if◌then◌else◌, not, some, none,
  Dict, ltb, ◌||◌, ◌∷◌, ◌==◌, [], false, ◌++◌,
}
use unistore.Base.Partial.{◌>>=◌}
use unistore.Region.{Peer, Region, RegionEpoch, peer_equal, find_peer}
use unistore.Store.{MemStore, StoreMeta, is_some}
use unistore.Store.Effects.{Effect, close, apply_destroy, pd_destroy, peer_destroyed}

-- The fields of the peer, its storage and its state machine that these handlers read and write.
pub record PeerFsm : Type 0 where
  pub meta : Peer
  pub region_id : ℕ
  pub region : Region
  pub stopped : Bool
  pub has_ready : Bool
  pub pending_remove : Bool
  pub is_leader : Bool
  pub applying_snapshot : Bool
  pub peer_cache : Dict Peer
  pub peer_heartbeats : Dict ℕ
  pub peers_start_pending_time : Dict ℕ
  pub recent_added_peer : ℕ × ℕ
  pub size_diff_hint : ℕ
  pub delete_keys_hint : ℕ
  pub approximate_size : Option ℕ
  -- The region and the state that the checker of local reads has.
  pub checker_region : Region
  pub checker_invalid : Bool
  pub remote_lease : Bool

abbrev pub is_nil : List Peer → Bool
is_nil [] = true
is_nil (p ∷ ps) = false

-- `isInitialized`.
abbrev pub has_peers : Region → Bool
has_peers r = not (is_nil r.peers)

unfoldable pub insert_peer_cache : PeerFsm → Peer → PeerFsm
insert_peer_cache p peer = record p { peer_cache = insert peer.id peer p.peer_cache }

unfoldable pub remove_peer_cache : PeerFsm → ℕ → PeerFsm
remove_peer_cache p id = record p { peer_cache = erase id p.peer_cache }

unfoldable pub peer_with_id : List Peer → ℕ → Option Peer
peer_with_id [] id = none
peer_with_id (q ∷ qs) id = if q.id == id then some q else peer_with_id qs id

abbrev cache_found : PeerFsm → Option Peer → PeerFsm × Option Peer
cache_found p none = (p, none)
cache_found p (some q) = (record p { peer_cache = insert q.id q p.peer_cache }, some q)

-- A peer that is found in the region is put into the cache.
unfoldable pub get_peer_from_cache : PeerFsm → ℕ → PeerFsm × Option Peer
unfolding peer_with_id
get_peer_from_cache p id = elim (lookup id p.peer_cache) [
  | some q ↦ (p, some q)
  | none ↦ cache_found p (peer_with_id p.region.peers id)
]

-- `Peer.SetRegion`: a newer version takes the remote lease away.
unfoldable pub set_peer_region : PeerFsm → Region → PeerFsm
set_peer_region p r = record p {
  remote_lease = p.remote_lease && not (ltb p.region.region_epoch.version r.region_epoch.version);
  region = r;
  checker_region = if p.pending_remove then p.checker_region else r;
}

unfoldable pub set_region : {T : Type 0} → StoreMeta T → Region → PeerFsm → StoreMeta T × PeerFsm
unfolding set_peer_region
set_region meta r p = (record meta { regions = insert r.id r meta.regions }, set_peer_region p r)

pub record DestroyPeerJob : Type 0 where
  pub initialized : Bool
  pub async_remove : Bool
  pub region_id : ℕ
  pub peer : Peer

-- `PeerStorage.CancelApplyingSnap`, a place holder.
unfoldable pub cancel_applying_snap : PeerFsm → Bool
cancel_applying_snap p = true

unfoldable pub maybe_destroy : PeerFsm → PeerFsm × Option DestroyPeerJob
unfolding cancel_applying_snap
maybe_destroy p =
    if p.pending_remove || (p.applying_snapshot && not (cancel_applying_snap p))
    then (p, none)
    else (
      record p { pending_remove = true; checker_invalid = true },
      some (record {
        initialized = has_peers p.region;
        async_remove = not p.applying_snapshot && has_peers p.region;
        region_id = p.region_id;
        peer = p.meta;
      }),
    )

abbrev is_empty_dict : Option (Dict RegionEpoch) → Bool
is_empty_dict none = true
is_empty_dict (some []) = true
is_empty_dict (some (e ∷ es)) = false

-- The merge maps without a region, whose target may be unknown to the store.
unfoldable pub clear_merges : {T : Type 0} → StoreMeta T → ℕ → StoreMeta T
clear_merges meta id =
    let m = record meta {
      pending_merge_targets = erase id meta.pending_merge_targets;
      merge_locks = erase id meta.merge_locks;
    } in
    elim (lookup id meta.targets_map) [
      | none ↦ m
      | some target_id ↦
          let m' = record m { targets_map = erase id m.targets_map } in
          elim (lookup target_id m.pending_merge_targets) [
            | none ↦ m'
            | some target ↦
                let rest = erase id target in
                if not (is_some (lookup target_id m.regions)) && is_empty_dict (some rest)
                then record m' { pending_merge_targets = erase target_id m.pending_merge_targets }
                else record m' {
                  pending_merge_targets = insert target_id rest m.pending_merge_targets;
                }
          ]
    ]

-- A handler that may panic returns `none`.
abbrev pub Changed : Type 0 → Type 0
Changed T = Option (StoreMeta T × PeerFsm × List Effect)

module _ {T : Type 0} (mem : MemStore T) where
  -- The table without the end key of the region, which must be there.
  unfoldable pub remove_range : StoreMeta T → Bytes → Option (StoreMeta T)
  remove_range meta end =
      let (ranges, was) = mem.delete meta.region_ranges end in
      if was then some (record meta { region_ranges = ranges }) else none

  -- The regions without one, which must be there unless its target destroys it.
  unfoldable pub remove_region : StoreMeta T → ℕ → Bool → Option (StoreMeta T)
  remove_region meta id merged_by_target =
      if is_some (lookup id meta.regions) || merged_by_target
      then some (record meta { regions = erase id meta.regions })
      else none

  -- The metadata after `destroyPeer`; whether the peer's own data can be destroyed is a parameter.
  unfoldable pub destroy_meta : Bool → StoreMeta T → PeerFsm → Bool → Option (StoreMeta T)
  unfolding clear_merges remove_range remove_region
  destroy_meta destroyed meta p merged_by_target =
      if not destroyed
      then none
      else let m = clear_merges meta p.region_id in
        if has_peers p.region && not merged_by_target
        then (do
          m' ← remove_range m p.region.end_key
          remove_region m' p.region_id merged_by_target)
        else remove_region m p.region_id merged_by_target

  unfoldable pub destroy_peer : Bool → StoreMeta T → PeerFsm → Bool → Changed T
  unfolding destroy_meta
  destroy_peer destroyed meta p merged_by_target = if p.applying_snapshot then none else (do
    m ← destroy_meta destroyed meta p merged_by_target
    some (
      m,
      record p { stopped = true },
      close p.region_id
          ∷ peer_destroyed p.region_id
          ∷ apply_destroy p.region_id
          ∷ pd_destroy p.region_id
          ∷ [],
    ))

  -- The Boolean says that the peer was destroyed at once.
  unfoldable pub handle_destroy_peer :
      Bool
      → StoreMeta T
      → PeerFsm
      → DestroyPeerJob
      → Option (Bool × StoreMeta T × PeerFsm × List Effect)
  unfolding destroy_peer
  handle_destroy_peer destroyed meta p job =
      let first = if job.initialized then apply_destroy job.region_id ∷ [] else [] in
      if job.async_remove
      then some (false, meta, p, first)
      else (do (m, q, es) ← destroy_peer destroyed meta p false; some (true, m, q, first ++ es))
