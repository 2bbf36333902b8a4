-- ===== src/PeerFsm/Consistent.antt =====
-- The table of key ranges and the map of regions of a store fit each other, and the handlers that
-- change one entry keep them so.
use unistore.Base.{
  ℕ, ◌≡◌, Bytes, IsU64, none, some, ◌⊎◌, lookup, ◌≢◌, inl, get_le-put_le, true, arith, [], ap,
  subst, inr, ◌∙◌, sym, refl,
}
use unistore.Region.{Region}
use unistore.Store.{MemStore, StoreMeta, region_id_to_bytes, region_id_from_bytes}
use unistore.Store.KeyOrder.{eq_or_ne}
use unistore.PeerFsm.{has_peers, ℕ, Bytes}
use unistore.PeerFsm.Results.{add_range}

-- Each entry of the table leads to a region with peers that ends at its key, and each region with
-- peers has an entry; ids have 64 bits.
pub record IsConsistent {T : Type 0} (mem : MemStore T) (meta : StoreMeta T) : Type 0 where
  pub tabled :
      (k b : Bytes)
      → mem.get meta.region_ranges k ≡ some b
      → (id : ℕ) × (r : Region) × (region_id_from_bytes b ≡ some id)
        × (lookup id meta.regions ≡ some r)
        × (r.end_key ≡ k)
        × (has_peers r ≡ true)
  pub listed :
      (id : ℕ) (r : Region)
      → lookup id meta.regions ≡ some r
      → IsU64 id
        × (r.id ≡ id)
        × (has_peers r ≡ true → mem.get meta.region_ranges r.end_key ≡ some (region_id_to_bytes id))

pub region_id_from_bytes-to_bytes :
    (id : ℕ) → IsU64 id → region_id_from_bytes (region_id_to_bytes id) ≡ some id
unfolding region_id_from_bytes region_id_to_bytes
region_id_from_bytes-to_bytes id h = ground (arith, get_le-put_le 8 id [] h)

-- What changes when a range is added.
pub record Added {T : Type 0} (mem : MemStore T) (meta : StoreMeta T) (r : Region) (m : StoreMeta T)
    : Type 0 where
  pub was_free : mem.get meta.region_ranges r.end_key ≡ none
  pub is_there : mem.get m.region_ranges r.end_key ≡ some (region_id_to_bytes r.id)
  pub others :
      (j : Bytes) → j ≢ r.end_key → mem.get m.region_ranges j ≡ mem.get meta.region_ranges j
  pub same_regions : m.regions ≡ meta.regions

pub add_range-Added :
    {T : Type 0} (mem : MemStore T) (store : ℕ) (meta : StoreMeta T) (r : Region) (m : StoreMeta T)
    → add_range mem store meta r ≡ some m
    → Added mem meta r m
unfolding add_range
add_range-Added mem store meta r m e =
    let k = r.end_key in
    let v = region_id_to_bytes r.id in
    let reports = mem.put-reports meta.region_ranges k v in
    let m' = record meta { region_ranges = (mem.put meta.region_ranges k v).0 } in
    let fresh : (mem.put meta.region_ranges k v).1 ≡ true = ground arith in
    let same : m' ≡ m = ground arith in
    record {
      was_free = ground arith;
      is_there =
          subst (λ (x : StoreMeta _). mem.get x.region_ranges k ≡ some v) same
            (mem.get-put meta.region_ranges k v);
      others = λ j n.
          subst (λ (x : StoreMeta _). mem.get x.region_ranges j ≡ mem.get meta.region_ranges j) same
            (mem.get-put_ne meta.region_ranges k v j n);
      same_regions = subst (λ (x : StoreMeta _). x.regions ≡ meta.regions) same refl;
    }

module _ {T : Type 0} (mem : MemStore T) (meta : StoreMeta T) (r : Region) (m : StoreMeta T)
    (a : Added mem meta r m) where
  -- Old entries stay.
  pub Added-keeps :
      (j b : Bytes) → mem.get meta.region_ranges j ≡ some b → mem.get m.region_ranges j ≡ some b
  Added-keeps j b e = elim (eq_or_ne j r.end_key) [
    | inl same ↦ absurd (ground (arith, a.was_free, ap (λ k. mem.get meta.region_ranges k) same))
    | inr ne ↦ a.others j ne ∙ e
  ]

  -- And every entry is the new one or an old one.
  pub Added-cases :
      (j b : Bytes)
      → mem.get m.region_ranges j ≡ some b
      → ((j ≡ r.end_key) × (b ≡ region_id_to_bytes r.id))
        ⊎ ((j ≢ r.end_key) × (mem.get meta.region_ranges j ≡ some b))
  Added-cases j b e = elim (eq_or_ne j r.end_key) [
    | inl same ↦ inl (same, cc (a.is_there, ap (λ k. mem.get m.region_ranges k) same))
    | inr ne ↦ inr (ne, sym (a.others j ne) ∙ e)
  ]
