-- ===== src/Store.antt =====
-- raftstore/fsm_store.go: the metadata of a store, and the searches in its table of key ranges.
-- The table is lockstore's MemStore, a parameter: an ordered map from the end key of a region to
-- its id in eight bytes, whose iterator is the list of the entries that it passes.
pub mod KeyOrder
pub mod Table
pub mod Covered
pub mod Overlap
pub mod OverlapEnds
pub mod Effects
pub mod Create
pub mod CreateSafe
use unistore.Base.{
  ℕ, ◌≡◌, ◌≢◌, Bool, true, false, if◌then◌else◌, not, ◌&&◌, List, [], ◌∷◌, ◌++◌, Bytes, put_le,
  get_le, compare_bytes, Ordering, Option, none, some, Dict, lookup, insert, erase, All, ltb, ◌⊎◌,
}
use unistore.Region.{Region, RegionEpoch, is_lt, is_gt, is_empty}
use unistore.RaftMessage.{RaftMessage, is_none}

-- Every entry of an iterator is after those before it.
abbrev pub Ascending : Bytes → List (Bytes × Bytes) → Type 0
Ascending k [] = Unit {0}
Ascending k (e ∷ es) = (compare_bytes k e.0 ≡ Ordering.lt) × Ascending e.0 es

abbrev pub Sorted : List (Bytes × Bytes) → Type 0
Sorted [] = Unit {0}
Sorted (e ∷ es) = Ascending e.0 es

abbrev pub Among : Bytes × Bytes → List (Bytes × Bytes) → Type 0
Among a [] = ⊥
Among a (x ∷ xs) = (a ≡ x) ⊎ Among a xs

abbrev pub is_some {ℓ} : {A : Type ℓ} → Option A → Bool
is_some o = not (is_none o)

-- `Put` reports that the key was not there, and `Delete` that it was.
pub record MemStore (T : Type 0) : Type 0 where
  pub get : T → Bytes → Option Bytes
  pub put : T → Bytes → Bytes → T × Bool
  pub delete : T → Bytes → T × Bool
  pub seek : T → Bytes → List (Bytes × Bytes)
  pub get-put : (t : T) (k v : Bytes) → get (put t k v).0 k ≡ some v
  pub get-put_ne : (t : T) (k v j : Bytes) → j ≢ k → get (put t k v).0 j ≡ get t j
  pub put-reports : (t : T) (k v : Bytes) → (put t k v).1 ≡ is_none (get t k)
  pub get-delete : (t : T) (k : Bytes) → get (delete t k).0 k ≡ none
  pub get-delete_ne : (t : T) (k j : Bytes) → j ≢ k → get (delete t k).0 j ≡ get t j
  pub delete-reports : (t : T) (k : Bytes) → (delete t k).1 ≡ is_some (get t k)
  pub seek-Sorted : (t : T) (k : Bytes) → Sorted (seek t k)
  pub seek-holds :
      (t : T) (k : Bytes)
      → All (λ e. (get t e.0 ≡ some e.1) × (compare_bytes e.0 k ≢ Ordering.lt)) (seek t k)
  pub seek-all :
      (t : T) (k j v : Bytes)
      → get t j ≡ some v
      → compare_bytes j k ≢ Ordering.lt
      → Among (j, v) (seek t k)

-- The maps of a store's metadata; a merge lock has no content.
pub record StoreMeta (T : Type 0) : Type 0 where
  pub region_ranges : T
  pub regions : Dict Region
  pub pending_votes : List RaftMessage
  pub pending_snapshot_regions : List Region
  pub pending_merge_targets : Dict (Dict RegionEpoch)
  pub targets_map : Dict ℕ
  pub merge_locks : Dict (Unit {0})

unfoldable pub region_id_to_bytes : ℕ → Bytes
region_id_to_bytes id = put_le 8 id []

-- `none` is the panic on a value that is too short.
unfoldable pub region_id_from_bytes : Bytes → Option ℕ
region_id_from_bytes b = elim (get_le 8 b) [ none ↦ none | some (id, rest) ↦ some id ]

-- The region of a table entry; `none` is a read through a nil region.
unfoldable pub region_at : Dict Region → Bytes → Option Region
unfolding region_id_from_bytes
region_at regions b = elim (region_id_from_bytes b) [ none ↦ none | some id ↦ lookup id regions ]

unfoldable pub maybe_destroy_source : {T : Type 0} → StoreMeta T → ℕ → ℕ → RegionEpoch → Bool
maybe_destroy_source meta target_id source_id epoch =
    elim (lookup target_id meta.pending_merge_targets) [
      | none ↦ false
      | some targets ↦ elim (lookup source_id targets) [
        | none ↦ false
        | some target_epoch ↦ ltb target_epoch.version epoch.version
      ]
    ]

abbrev pub skip_equal : Bytes → List (Bytes × Bytes) → List (Bytes × Bytes)
skip_equal k [] = []
skip_equal k (e ∷ es) = elim (compare_bytes k e.0) [ Ordering.eq ↦ es | _ ↦ e ∷ es ]

-- The round of the loop that follows the ranges: `start` is where the covered part ends so far.
unfoldable pub cover_from : Dict Region → Bytes → Bytes → List (Bytes × Bytes) → Option Bool
unfolding region_at
cover_from regions end start [] = some false
cover_from regions end start (e ∷ es) = elim (is_gt (compare_bytes e.0 end)) [
  | true ↦ some false
  | false ↦ elim (region_at regions e.1) [
    | none ↦ none
    | some r ↦ elim (is_lt (compare_bytes start r.start_key)) [
      | true ↦ some false
      | false ↦ elim (is_lt (compare_bytes r.end_key end)) [
        | true ↦ cover_from regions end r.end_key es
        | false ↦ some true
      ]
    ]
  ]
]

-- The entries up to the end key, each with its region, if the store knows it.
unfoldable pub regions_to :
    Dict Region → Bytes → List (Bytes × Bytes) → Option (List (Option Region))
unfolding region_id_from_bytes
regions_to regions end [] = some []
regions_to regions end (e ∷ es) =
    let rest = regions_to regions end es in
    if is_gt (compare_bytes e.0 end) then some [] else elim (region_id_from_bytes e.1) [
      | none ↦ none
      | some id ↦ elim rest [ none ↦ none | some rs ↦ some (lookup id regions ∷ rs) ]
    ]

module _ {T : Type 0} (mem : MemStore T) where
  -- The entries after a key: `Seek`, and `Next` if the key itself is there.
  unfoldable pub after_key : T → Bytes → List (Bytes × Bytes)
  after_key t k = skip_equal k (mem.seek t k)

  unfoldable pub is_range_covered : StoreMeta T → Bytes → Bytes → Option Bool
  unfolding after_key cover_from
  is_range_covered meta start end =
      cover_from meta.regions end start (after_key meta.region_ranges start)

  unfoldable pub find_regions_in_range : StoreMeta T → Bytes → Bytes → Option (List (Option Region))
  unfolding after_key regions_to
  find_regions_in_range meta start end =
      regions_to meta.regions end (after_key meta.region_ranges start)
