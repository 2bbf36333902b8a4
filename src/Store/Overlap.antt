-- ===== src/Store/Overlap.antt =====
-- raftstore/fsm_peer.go: the searches for the regions that overlap a snapshot's, and for the
-- sibling of a region.
use unistore.Region.{Region, is_lt}
use unistore.Base.{
  Bool, ℕ, Dict, compare_bytes, Bytes, Option, List, Outcome, [], false, err, ok, some, suc, lookup,
  ◌∷◌, ◌==◌, zero, if◌then◌else◌, Ordering, none, true, drop, panic, ◌||◌, ◌++◌,
}
use unistore.Store.{
  MemStore, StoreMeta, region_id_from_bytes, Region, Bool, ℕ, Dict, compare_bytes, Bytes,
}

pub data SearchError : Type 0 where
  out_of_fuel : SearchError

abbrev pub is_equal : Bytes → Bytes → Bool
is_equal a b = elim (compare_bytes a b) [ Ordering.eq ↦ true | _ ↦ false ]

-- The loop over the iterator, which moves on only past an entry that it skips.
unfoldable pub overlaps :
    ℕ
    → Dict Region
    → Region
    → List (Bytes × Bytes)
    → List Region
    → Outcome SearchError (List Region)
unfolding region_id_from_bytes
overlaps zero regions snap es found = err out_of_fuel
overlaps (suc f) regions snap [] found = ok found
overlaps (suc f) regions snap (e ∷ es) found = elim (region_id_from_bytes e.1) [
  | none ↦ panic
  | some id ↦ elim (is_equal e.0 snap.start_key || id == snap.id) [
    | true ↦ overlaps f regions snap es found
    | false ↦ elim (lookup id regions) [
      | none ↦ panic
      | some r ↦ elim (is_lt (compare_bytes r.start_key snap.end_key)) [
        | true ↦ overlaps f regions snap (e ∷ es) (found ++ (r ∷ []))
        | false ↦ ok found
      ]
    ]
  ]
]

module _ {T : Type 0} (mem : MemStore T) where
  unfoldable pub find_overlap_regions : ℕ → StoreMeta T → Region → Outcome SearchError (List Region)
  unfolding overlaps
  find_overlap_regions fuel meta snap =
      overlaps fuel meta.regions snap (mem.seek meta.region_ranges snap.start_key) []

  -- `none` is a panic, and an inner `none` the nil region.
  unfoldable pub find_sibling_region : Bool → StoreMeta T → Region → Option (Option Region)
  unfolding region_id_from_bytes
  find_sibling_region right_derive meta region =
      let es =
        if right_derive
        then mem.seek meta.region_ranges region.start_key
        else drop 1 (mem.seek meta.region_ranges region.end_key) in
      elim es [
        | [] ↦ some none
        | e ∷ rest ↦ elim (region_id_from_bytes e.1) [
          | none ↦ none
          | some id ↦ some (lookup id meta.regions)
        ]
      ]
