-- ===== src/Store/Create.antt =====
-- raftstore/fsm_store.go: what the store does with a raft message for a peer that it may not have.
-- Each handler returns the metadata, the messages that it sends in order, and its result.
use unistore.Store.Effects.{Effect, send, deliver, register, merge_stale, start_peer, peer_created}
use unistore.Base.{
  ℕ, Bool, Option, List, ok, if◌then◌else◌, true, Outcome, [], Bytes, map, ◌∷◌, ◌++◌, lookup, false,
  ◌&&◌, some, err, none, not, insert, ◌==◌, panic, ◌||◌, compare_bytes,
}
use unistore.Region.{Peer, Region, RegionEpoch, is_lt, is_epoch_stale, find_peer}
use unistore.RaftMessage.{
  RaftMessage, is_vote_message, is_first_vote_message, is_initial_msg, handle_stale_msg, is_none,
}
use unistore.Applier.{PeerState, tombstone}
use unistore.Store.{
  MemStore, StoreMeta, region_id_from_bytes, maybe_destroy_source, after_key, is_range_covered,
  is_some, ℕ, Bool, Option, List,
}

pub record MergeState : Type 0 where
  pub min_index : ℕ
  pub target : Region
  pub commit : ℕ

pub record RegionLocalState : Type 0 where
  pub state : PeerState
  pub region : Region
  pub merge_state : Option MergeState

-- What the engine has under the key of a region's state.
pub data StoredState : Type 0 where
  missing unreadable : StoredState
  stored : RegionLocalState → StoredState

pub data StoreError : Type 0 where
  cannot_read not_tombstone invalid_message cannot_create : StoreError

abbrev pub is_tombstone_state : PeerState → Bool
is_tombstone_state tombstone = true
is_tombstone_state _ = false

abbrev pub sends : List RaftMessage → List Effect
sends ms = map (λ m. send m) ms

abbrev pub destroy_regions : List ℕ → Peer → List Effect
destroy_regions ids to_peer = map (λ id. merge_stale id to_peer) ids

abbrev pub Handled : Type 0 → Type 0 → Type 0
Handled T A = StoreMeta T × List Effect × Outcome StoreError A

-- A message for a region whose peer was destroyed; the epoch is the message's.
unfoldable pub check_tombstone :
    {T : Type 0} → StoreMeta T → RaftMessage → RegionEpoch → RegionLocalState → Handled T Bool
check_tombstone meta msg from_epoch local =
    let region_epoch = local.region.region_epoch in
    if is_some local.merge_state
    then (meta, [], ok true)
    else if is_epoch_stale from_epoch region_epoch
    then (
      meta,
      sends (
          handle_stale_msg msg region_epoch
            (is_vote_message msg.message
              && is_none (find_peer local.region.peers msg.from_peer.store_id))
            none),
      ok true,
    )
    else if from_epoch.conf_ver == region_epoch.conf_ver
    then (meta, [], err invalid_message)
    else (meta, [], ok false)

-- A region that is not a tombstone may be split and not registered yet.
unfoldable pub check_not_tombstone : {T : Type 0} → StoreMeta T → RaftMessage → Handled T Bool
check_not_tombstone meta msg =
    if is_first_vote_message msg.message
    then if is_some (lookup msg.region_id meta.regions)
      then (meta, [], ok false)
      else (record meta { pending_votes = meta.pending_votes ++ (msg ∷ []) }, [], ok true)
    else (meta, [], err not_tombstone)

-- True if the message can be dropped.
unfoldable pub check_msg :
    {T : Type 0} → StoreMeta T → RaftMessage → RegionEpoch → StoredState → Handled T Bool
unfolding check_tombstone check_not_tombstone
check_msg meta msg from_epoch missing = (meta, [], ok false)
check_msg meta msg from_epoch unreadable = (meta, [], err cannot_read)
check_msg meta msg from_epoch (stored local) =
    if is_tombstone_state local.state
    then check_tombstone meta msg from_epoch local
    else check_not_tombstone meta msg

-- The region of a peer that knows only its ids.
abbrev pub replicate_region : ℕ → Region
replicate_region id = record {
  id = id;
  start_key = [];
  end_key = [];
  region_epoch = record { conf_ver = 0; version = 0 };
  peers = [];
}

module _ {T : Type 0} (mem : MemStore T) where
  -- The loop over the ranges that may overlap the message's, with the votes and the sources to
  -- destroy so far; it gives no sources if the peer is not to be created. Only the votes of the
  -- metadata change.
  unfoldable pub check_ranges :
      StoreMeta T
      → RaftMessage
      → RegionEpoch
      → List (Bytes × Bytes)
      → List RaftMessage
      → List ℕ
      → Outcome StoreError (List RaftMessage × Option (List ℕ))
  unfolding region_id_from_bytes is_range_covered
  check_ranges meta msg epoch [] votes destroy = ok (votes, some destroy)
  check_ranges meta msg epoch (e ∷ es) votes destroy = elim (region_id_from_bytes e.1) [
    | none ↦ panic
    | some id ↦ elim (lookup id meta.regions) [
      | none ↦ panic
      | some exist ↦ elim (is_lt (compare_bytes exist.start_key msg.end_key)) [
        | false ↦ ok (votes, some destroy)
        | true ↦
            let votes' = if is_first_vote_message msg.message then votes ++ (msg ∷ []) else votes in
            elim (is_range_covered mem meta msg.start_key msg.end_key) [
              | none ↦ panic
              | some covered ↦ elim (not covered && maybe_destroy_source meta id exist.id epoch) [
                | true ↦ check_ranges meta msg epoch es votes' (destroy ++ (exist.id ∷ []))
                | false ↦ ok (votes', none)
              ]
            ]
      ]
    ]
  ]

  -- Whether a peer can be made from the engines is a parameter.
  module _ (can_create : Region → Peer → Bool) where
    unfoldable pub create_checked :
        StoreMeta T
        → ℕ
        → RaftMessage
        → Outcome StoreError (List RaftMessage × Option (List ℕ))
        → Handled T Bool
    create_checked meta region_id msg panic = (meta, [], panic)
    create_checked meta region_id msg (err e) = (meta, [], err e)
    create_checked meta region_id msg (ok (votes, none)) =
        (record meta { pending_votes = votes }, [], ok false)
    create_checked meta region_id msg (ok (votes, some destroy)) =
        let region = replicate_region region_id in
        if can_create region msg.to_peer
        then (
          record meta { pending_votes = votes; regions = insert region_id region meta.regions },
          register region msg.to_peer
              ∷ start_peer region_id
              ∷ peer_created region
              ∷ destroy_regions destroy msg.to_peer,
          ok true,
        )
        else (
          record meta { pending_votes = votes },
          destroy_regions destroy msg.to_peer,
          err cannot_create,
        )

    unfoldable pub maybe_create_peer : StoreMeta T → ℕ → RaftMessage → RegionEpoch → Handled T Bool
    unfolding check_ranges create_checked after_key
    maybe_create_peer meta region_id msg epoch =
        if is_some (lookup region_id meta.regions)
        then (meta, [], ok true)
        else if not (is_initial_msg msg.message)
        then (meta, [], ok false)
        else create_checked meta region_id msg (
            check_ranges meta msg epoch (after_key mem meta.region_ranges msg.start_key)
              meta.pending_votes [])

    abbrev pub deliver_created : RaftMessage → Handled T Bool → Handled T (Unit {0})
    deliver_created msg (meta, es, ok true) = (meta, es ++ (deliver msg.region_id msg ∷ []), ok tt)
    deliver_created msg (meta, es, ok false) = (meta, es, ok tt)
    deliver_created msg (meta, es, err e) = (meta, es, err e)
    deliver_created msg (meta, es, panic) = (meta, es, panic)

    unfoldable pub create_unless : RaftMessage → RegionEpoch → Handled T Bool → Handled T (Unit {0})
    unfolding maybe_create_peer
    create_unless msg epoch (meta, es, ok true) = (meta, es, ok tt)
    create_unless msg epoch (meta, es, ok false) =
        let (meta', es', r) =
          deliver_created msg (maybe_create_peer meta msg.region_id msg epoch) in
        (meta', es ++ es', r)
    create_unless msg epoch (meta, es, err e) = (meta, es, err e)
    create_unless msg epoch (meta, es, panic) = (meta, es, panic)

    -- `has_peer` says that the router knows the region, and takes the message.
    unfoldable pub on_raft_message :
        Bool → ℕ → StoreMeta T → RaftMessage → StoredState → Handled T (Unit {0})
    unfolding check_msg create_unless
    on_raft_message has_peer store_id meta msg local =
        if has_peer
        then (meta, deliver msg.region_id msg ∷ [], ok tt)
        else if not (msg.to_peer.store_id == store_id)
        then (meta, [], ok tt)
        else elim msg.region_epoch [
          | none ↦ (meta, [], ok tt)
          | some epoch ↦
              if msg.is_tombstone || is_some msg.merge_target
              then (meta, [], ok tt)
              else create_unless msg epoch (check_msg meta msg epoch local)
        ]
