-- ===== src/PeerStorage.antt =====
-- raftstore/peer_storage.go: how the raft library reads the log of a peer.
-- The raft engine is a parameter: the entries that it stores under the region's raft log keys, by
-- index. So is the size of an entry's protobuf form. Reads of the engine do not fail otherwise.
pub mod Limit
pub mod Fetch
pub mod Entries
pub mod Term
pub mod Ready
pub mod ReadyLog
pub mod ReadySaved
pub mod ReadyIsLog
pub mod StaleCache
use unistore.Base.{
  ℕ, zero, suc, ◌+◌, ◌-◌, ◌^◌, ◌%◌, ltb, leb, ◌==◌, Bool, true, false, if◌then◌else◌, not, ◌&&◌,
  ◌||◌, List, [], ◌∷◌, ◌++◌, length, Outcome, ok, err, panic, Option, none, some,
}
use unistore.State.{ApplyState, RaftState}
use unistore.Region.{Region, Peer, is_learner}
use unistore.EntryCache.{Entry, front, fetch_entries_to, compact_to}

abbrev pub raft_init_log_term : ℕ
raft_init_log_term = 5

abbrev pub raft_init_log_index : ℕ
raft_init_log_index = 5

abbrev pub raft_log_multi_get_cnt : ℕ
raft_log_multi_get_cnt = 8

pub data StorageError : Type 0 where
  compacted unavailable low_above_high out_of_bound : StorageError

pub record PeerStorage : Type 0 where
  pub region : Region
  pub raft_state : RaftState
  pub apply_state : ApplyState
  pub last_term : ℕ
  pub cache : List Entry
  pub hit : ℕ
  pub miss : ℕ

pub record HardState : Type 0 where
  pub term : ℕ
  pub vote : ℕ
  pub commit : ℕ

pub record ConfState : Type 0 where
  pub voters : List ℕ
  pub learners : List ℕ

abbrev pub Engine : Type 0
Engine = ℕ → Option Entry

unfoldable pub first_index : ApplyState → ℕ
first_index s = s.truncated_index + 1

unfoldable pub check_range : PeerStorage → ℕ → ℕ → Outcome StorageError (Unit {0})
check_range ps low high =
    if ltb high low
    then err low_above_high
    else if leb low ps.apply_state.truncated_index
    then err compacted
    else if ltb (ps.raft_state.last_index + 1) high
    then err out_of_bound
    else ok tt

-- The ids of the voters and of the learners, in the order of the region's peers.
unfoldable pub conf_state_from : List Peer → ConfState
conf_state_from [] = record { voters = []; learners = [] }
conf_state_from (p ∷ ps) =
    let rest = conf_state_from ps in
    if is_learner p.role
    then record rest { learners = p.id ∷ rest.learners }
    else record rest { voters = p.id ∷ rest.voters }

abbrev pub is_initialized : Region → Bool
is_initialized region = elim region.peers [ [] ↦ false | p ∷ ps ↦ true ]

-- `none` is the failed assertion that an initialized peer has a hard state.
unfoldable pub initial_state : PeerStorage → Option (HardState × ConfState)
unfolding conf_state_from
initial_state ps =
    let s = ps.raft_state in
    if s.commit == 0 && s.term == 0 && s.vote == 0
    then (if is_initialized ps.region
        then none
        else some
            (record { term = 0; vote = 0; commit = 0 }, record { voters = []; learners = [] }))
    else some (
      record { term = s.term; vote = s.vote; commit = s.commit },
      conf_state_from ps.region.peers,
    )

abbrev pub is_nil : List Entry → Bool
is_nil [] = true
is_nil (e ∷ es) = false

-- `cacheLow`: the largest uint64 if the cache is empty.
abbrev pub cache_low_of : Option Entry → ℕ
cache_low_of none = 2 ^ 64 - 1
cache_low_of (some e) = e.index

-- An entry is taken if it is the first or the limit holds.
abbrev pub push : ℕ → List Entry → ℕ → Entry → List Entry
push max_size buf total e = if is_nil buf || leb total max_size then buf ++ (e ∷ []) else buf

module _ (size : Entry → ℕ) (engine : Engine) (max_size : ℕ) where
  -- The reads by key, from index `i` on, for `k` indexes.
  unfoldable pub fetch_few : ℕ → ℕ → ℕ → List Entry → Outcome StorageError (List Entry × ℕ)
  fetch_few i zero total buf = ok (buf, total)
  fetch_few i (suc k) total buf = elim (engine i) [
    | none ↦ err unavailable
    | some e ↦
        let total' = total + size e in
        let buf' = push max_size buf total' e in
        let rest = fetch_few (suc i) k total' buf' in
        if not (e.index == i)
        then panic
        else if ltb max_size total'
        then ok (buf', total')
        else rest
  ]

  -- The iterator over the keys of the same indexes: it passes over those that are not stored. The
  -- last part of the result says that the limit was exceeded.
  unfoldable pub fetch_many : ℕ → ℕ → ℕ → ℕ → List Entry → List Entry × ℕ × Bool
  fetch_many i zero next_index total buf = (buf, total, false)
  fetch_many i (suc k) next_index total buf = elim (engine i) [
    | none ↦ fetch_many (suc i) k next_index total buf
    | some e ↦
        let total' = total + size e in
        let buf' = push max_size buf total' e in
        let rest = fetch_many (suc i) k (suc next_index) total' buf' in
        if not (e.index == next_index)
        then (buf, total, false)
        else if ltb max_size total'
        then (buf', total', true)
        else rest
  ]

  abbrev pub enough : ℕ → List Entry × ℕ × Bool → Outcome StorageError (List Entry × ℕ)
  enough count (buf, total, exceeded) =
      if length buf == count || exceeded then ok (buf, total) else err unavailable

  -- `fetchEntriesTo` of the engine, for an empty buffer.
  unfoldable pub fetch_engine : ℕ → ℕ → Outcome StorageError (List Entry × ℕ)
  unfolding fetch_few fetch_many
  fetch_engine low high =
      if leb (high - low) raft_log_multi_get_cnt
      then fetch_few low (high - low) 0 []
      else enough (high - low) (fetch_many low (high - low) low 0 [])

  abbrev pub count_miss : PeerStorage → PeerStorage
  count_miss ps = record ps { miss = ps.miss + 1 }

  abbrev pub count_hit : PeerStorage → PeerStorage
  count_hit ps = record ps { hit = ps.hit + 1 }

  abbrev pub only_entries :
      Outcome StorageError (List Entry × ℕ) → Outcome StorageError (List Entry)
  only_entries (ok (ents, total)) = ok ents
  only_entries (err e) = err e
  only_entries panic = panic

  abbrev pub cached_entries : Option (List Entry × ℕ) → Outcome StorageError (List Entry)
  cached_entries none = panic
  cached_entries (some (ents, total)) = ok ents

  -- The part from the cache.
  abbrev pub from_cache :
      PeerStorage → ℕ → ℕ → ℕ → List Entry → PeerStorage × Outcome StorageError (List Entry)
  from_cache ps begin high fetched ents = (
    count_hit ps,
    cached_entries (fetch_entries_to size ps.cache begin high max_size fetched ents),
  )

  -- The part from the engine, and then the part from the cache if the limit allows.
  abbrev pub from_both :
      PeerStorage
      → ℕ
      → ℕ
      → Outcome StorageError (List Entry × ℕ)
      → PeerStorage × Outcome StorageError (List Entry)
  from_both ps cache_low high (ok (ents, fetched)) =
      if ltb max_size fetched
      then (count_miss ps, ok ents)
      else from_cache (count_miss ps) cache_low high fetched ents
  from_both ps cache_low high (err e) = (count_miss ps, err e)
  from_both ps cache_low high panic = (count_miss ps, panic)

  abbrev pub in_range : PeerStorage → ℕ → ℕ → PeerStorage × Outcome StorageError (List Entry)
  in_range ps low high =
      let cache_low = cache_low_of (front ps.cache) in
      if low == high
      then (ps, ok [])
      else if leb high cache_low
      then (count_miss ps, only_entries (fetch_engine low high))
      else if ltb low cache_low
      then from_both ps cache_low high (fetch_engine low cache_low)
      else from_cache ps low high 0 []

  abbrev pub if_checked :
      Outcome StorageError (Unit {0})
      → PeerStorage
      → ℕ
      → ℕ
      → PeerStorage × Outcome StorageError (List Entry)
  if_checked (ok _) ps low high = in_range ps low high
  if_checked (err e) ps low high = (ps, err e)
  if_checked panic ps low high = (ps, panic)

  -- `Entries`.
  unfoldable pub entries : PeerStorage → ℕ → ℕ → PeerStorage × Outcome StorageError (List Entry)
  unfolding check_range
  entries ps low high = if_checked (check_range ps low high) ps low high

abbrev pub first_term : Outcome StorageError (List Entry) → Outcome StorageError ℕ
first_term (ok []) = panic
first_term (ok (e ∷ es)) = ok e.term
first_term (err e) = err e
first_term panic = panic

module _ (size : Entry → ℕ) (engine : Engine) where
  abbrev pub term_checked :
      Outcome StorageError (Unit {0}) → PeerStorage → ℕ → PeerStorage × Outcome StorageError ℕ
  term_checked (ok _) ps idx =
      if ps.apply_state.truncated_term == ps.last_term || idx == ps.raft_state.last_index
      then (ps, ok ps.last_term)
      else let (ps', found) = entries size engine (2 ^ 64 - 1) ps idx ((idx + 1) % 2 ^ 64) in
        (ps', first_term found)
  term_checked (err e) ps idx = (ps, err e)
  term_checked panic ps idx = (ps, panic)

  -- `Term`.
  unfoldable pub term : PeerStorage → ℕ → PeerStorage × Outcome StorageError ℕ
  unfolding check_range
  term ps idx =
      if idx == ps.apply_state.truncated_index
      then (ps, ok ps.apply_state.truncated_term)
      else term_checked (check_range ps idx ((idx + 1) % 2 ^ 64)) ps idx

-- `MaybeGCCache`.
unfoldable pub maybe_gc_cache : PeerStorage → ℕ → ℕ → PeerStorage
unfolding compact_to front
maybe_gc_cache ps replicated_idx applied_idx =
    if replicated_idx == applied_idx
    then record ps { cache = compact_to ps.cache (applied_idx + 1) }
    else elim (front ps.cache) [
      | none ↦ ps
      | some e ↦
          if ltb (replicated_idx + 1) e.index
          then record ps { cache = compact_to ps.cache (applied_idx + 1) }
          else ps
    ]
