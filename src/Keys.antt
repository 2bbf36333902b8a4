-- ===== src/Keys.antt =====
-- raftstore/keys.go: the keys under which a store keeps region metadata and raft data.
pub mod Codec
pub mod Order
use unistore.Base.{
  ℕ, ◌+◌, ◌-◌, ◌==◌, if◌then◌else◌, Bool, true, false, not, ◌&&◌, List, [], ◌∷◌, ◌++◌, length, drop,
  get_last_or, Bytes, put_be, get_be, Outcome, ok, err, panic, Option, none, some,
}

abbrev pub local_prefix : ℕ
local_prefix = 1

abbrev pub region_raft_prefix : ℕ
region_raft_prefix = 2

abbrev pub region_meta_prefix : ℕ
region_meta_prefix = 3

abbrev pub region_raft_log_len : ℕ
region_raft_log_len = 19

abbrev pub raft_log_suffix : ℕ
raft_log_suffix = 1

abbrev pub raft_state_suffix : ℕ
raft_state_suffix = 2

abbrev pub apply_state_suffix : ℕ
apply_state_suffix = 3

abbrev pub snapshot_raft_state_suffix : ℕ
snapshot_raft_state_suffix = 4

abbrev pub region_state_suffix : ℕ
region_state_suffix = 1

abbrev pub min_data_key : Bytes
min_data_key = b'm' ∷ []

abbrev pub max_data_key : Bytes
max_data_key = b'v' ∷ []

abbrev pub region_meta_min_key : Bytes
region_meta_min_key = local_prefix ∷ region_meta_prefix ∷ []

abbrev pub region_meta_max_key : Bytes
region_meta_max_key = local_prefix ∷ (region_meta_prefix + 1) ∷ []

unfoldable pub make_raft_region_prefix : ℕ → ℕ → Bytes
make_raft_region_prefix region_id suffix =
    local_prefix ∷ region_raft_prefix ∷ put_be 8 region_id (suffix ∷ [])

unfoldable pub make_raft_region_key : ℕ → ℕ → ℕ → Bytes
make_raft_region_key region_id suffix sub_id =
    local_prefix ∷ region_raft_prefix ∷ put_be 8 region_id (suffix ∷ put_be 8 sub_id [])

unfoldable pub region_raft_prefix_key : ℕ → Bytes
region_raft_prefix_key region_id = local_prefix ∷ region_raft_prefix ∷ put_be 8 region_id []

unfoldable pub raft_log_key : ℕ → ℕ → Bytes
unfolding make_raft_region_key
raft_log_key region_id index = make_raft_region_key region_id raft_log_suffix index

unfoldable pub raft_state_key : ℕ → Bytes
unfolding make_raft_region_prefix
raft_state_key region_id = make_raft_region_prefix region_id raft_state_suffix

unfoldable pub apply_state_key : ℕ → Bytes
unfolding make_raft_region_prefix
apply_state_key region_id = make_raft_region_prefix region_id apply_state_suffix

unfoldable pub snapshot_raft_state_key : ℕ → Bytes
unfolding make_raft_region_prefix
snapshot_raft_state_key region_id = make_raft_region_prefix region_id snapshot_raft_state_suffix

unfoldable pub region_meta_prefix_key : ℕ → Bytes
region_meta_prefix_key region_id = local_prefix ∷ region_meta_prefix ∷ put_be 8 region_id []

unfoldable pub region_state_key : ℕ → Bytes
region_state_key region_id =
    local_prefix ∷ region_meta_prefix ∷ put_be 8 region_id (region_state_suffix ∷ [])

pub data KeyError : Type 0 where
  invalid_length invalid_prefix : KeyError

-- `bytes.HasPrefix`.
unfoldable pub has_prefix : Bytes → Bytes → Bool
has_prefix key [] = true
has_prefix [] (p ∷ ps) = false
has_prefix (b ∷ key) (p ∷ ps) = b == p && has_prefix key ps

unfoldable pub decode_region_meta_key : Bytes → Outcome KeyError (ℕ × ℕ)
unfolding has_prefix get_be
decode_region_meta_key key =
    if not (length region_meta_min_key + 8 + 1 == length key)
    then err invalid_length
    else if not (has_prefix key region_meta_min_key)
    then err invalid_prefix
    else elim (get_be 8 0 (drop (length region_meta_min_key) key)) [
      | none ↦ panic
      | some (region_id, rest) ↦ ok (region_id, get_last_or 0 key)
    ]

unfoldable pub raft_log_index : Bytes → Outcome KeyError ℕ
unfolding get_be
raft_log_index key =
    if not (length key == region_raft_log_len)
    then err invalid_length
    else elim (get_be 8 0 (drop (region_raft_log_len - 8) key)) [
      | none ↦ panic
      | some (index, rest) ↦ ok index
    ]
