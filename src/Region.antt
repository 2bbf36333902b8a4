-- ===== src/Region.antt =====
-- raftstore/util.go: regions, their key ranges, epochs and peers.
-- The fields are those of kvproto's metapb messages that the store reads. A region's epoch is a
-- pointer in Go; here it is never nil.
pub mod Range
pub mod Peers
use unistore.Base.{
  ℕ, ltb, ◌==◌, Bool, true, false, if◌then◌else◌, not, ◌&&◌, ◌||◌, List, [], ◌∷◌, Bytes,
  compare_bytes, Ordering, Outcome, ok, err, panic, Option, none, some, assert,
}
use unistore.Keys.{min_data_key, max_data_key}

pub data PeerRole : Type 0 where
  voter learner : PeerRole

pub record Peer : Type 0 where
  pub id : ℕ
  pub store_id : ℕ
  pub role : PeerRole

pub record RegionEpoch : Type 0 where
  pub conf_ver : ℕ
  pub version : ℕ

-- An empty end key stands for no end.
pub record Region : Type 0 where
  pub id : ℕ
  pub start_key : Bytes
  pub end_key : Bytes
  pub region_epoch : RegionEpoch
  pub peers : List Peer

abbrev pub is_learner : PeerRole → Bool
is_learner voter = false
is_learner learner = true

abbrev pub same_role : PeerRole → PeerRole → Bool
same_role voter voter = true
same_role learner learner = true
same_role _ _ = false

-- `PeerEqual` compares the messages as a whole.
unfoldable pub peer_equal : Peer → Peer → Bool
peer_equal p q = p.id == q.id && p.store_id == q.store_id && same_role p.role q.role

-- The tests on `bytes.Compare`.
abbrev pub is_lt : Ordering → Bool
is_lt Ordering.lt = true
is_lt _ = false

abbrev pub is_gt : Ordering → Bool
is_gt Ordering.gt = true
is_gt _ = false

abbrev pub is_empty : Bytes → Bool
is_empty [] = true
is_empty (b ∷ bs) = false

pub data RaftError : Type 0 where
  key_not_in_region : Bytes → Region → RaftError
  epoch_not_match : List Region → RaftError
  stale_command : RaftError
  missing_header missing_epoch : RaftError
  store_not_match mismatch_peer_id : ℕ → ℕ → RaftError

abbrev pub Checked : Type 0
Checked = Outcome RaftError (Unit {0})

unfoldable pub check_key_in_region : Bytes → Region → Checked
check_key_in_region key region =
    if not (is_lt (compare_bytes key region.start_key))
      && (is_empty region.end_key || is_lt (compare_bytes key region.end_key))
    then ok tt
    else err (key_not_in_region key region)

unfoldable pub check_key_in_region_exclusive : Bytes → Region → Checked
check_key_in_region_exclusive key region =
    if is_lt (compare_bytes region.start_key key)
      && (is_empty region.end_key || is_lt (compare_bytes key region.end_key))
    then ok tt
    else err (key_not_in_region key region)

unfoldable pub check_key_in_region_inclusive : Bytes → Region → Checked
check_key_in_region_inclusive key region =
    if not (is_lt (compare_bytes key region.start_key))
      && (is_empty region.end_key || not (is_gt (compare_bytes key region.end_key)))
    then ok tt
    else err (key_not_in_region key region)

unfoldable pub is_epoch_stale : RegionEpoch → RegionEpoch → Bool
is_epoch_stale epoch check_epoch =
    ltb epoch.version check_epoch.version || ltb epoch.conf_ver check_epoch.conf_ver

unfoldable pub find_peer : List Peer → ℕ → Option Peer
find_peer [] store_id = none
find_peer (p ∷ ps) store_id = if p.store_id == store_id then some p else find_peer ps store_id

-- The peers that are left, and the one that was removed.
unfoldable pub remove_peer : List Peer → ℕ → List Peer × Option Peer
remove_peer [] store_id = ([], none)
remove_peer (p ∷ ps) store_id =
    if p.store_id == store_id
    then (ps, some p)
    else let (qs, found) = remove_peer ps store_id in (p ∷ qs, found)

-- The key codec of TiDB is a parameter: it decodes a key, or fails.
module _ (decode_bytes : Bytes → Option Bytes) where
  -- `none` is a failed assertion.
  unfoldable pub raw_start_key : Region → Option Bytes
  raw_start_key region = elim region.peers [
    | [] ↦ none
    | p ∷ ps ↦
        if is_empty region.start_key then some min_data_key else decode_bytes region.start_key
  ]

  unfoldable pub raw_end_key : Region → Option Bytes
  raw_end_key region = elim region.peers [
    | [] ↦ none
    | p ∷ ps ↦ if is_empty region.end_key then some max_data_key else decode_bytes region.end_key
  ]
