-- ===== src/Tests/StoreRuns.antt =====
-- Runs of the store's and the peers' handlers, and their theorems at concrete inputs.
use unistore.Base.{
  ℕ, Dict, compare_bytes, Bytes, put_le, ◌∷◌, [], ◌≡◌, get_le, inl, ok, subst, ◌+◌, lookup, some,
  err, refl, false, ◌↔◌, sym, true, ◌⊎◌, List, ap, inr, subst₂, ◌∙◌, arith,
}
use unistore.Region.{Peer, Region, voter}
use unistore.Store.{StoreMeta, region_id_to_bytes, region_at, is_range_covered}
use unistore.Store.KeyOrder.{Lt, Le, eq_or_ne}
use unistore.Store.Table.{IsTable}
use unistore.Store.Covered.{IsCovered, is_range_covered-IsCovered}
use unistore.Store.Overlap.{find_overlap_regions, out_of_fuel}
use unistore.Store.OverlapEnds.{NoOverlap, find_overlap_regions-ends}
use unistore.Tests.MemTable.{Entries, mem_table, get, get-cons, get-cons_ne, seek, place}

abbrev pub peer_on : ℕ → ℕ → Peer
peer_on id store = record { id = id; store_id = store; role = voter }

abbrev pub region_of : ℕ → ℕ → ℕ → Region
region_of id a b = record {
  id = id;
  start_key = a ∷ [];
  end_key = b ∷ [];
  region_epoch = record { conf_ver = 1; version = 3 };
  peers = peer_on (id + 10) 1 ∷ peer_on (id + 20) 2 ∷ [];
}

-- Two regions that meet: one up to the key 30, and one from there up to 50.
abbrev pub ranges : Entries
ranges = (50 ∷ [], region_id_to_bytes 2) ∷ (30 ∷ [], region_id_to_bytes 1) ∷ []

abbrev pub meta_of : Entries → Dict Region → StoreMeta Entries
meta_of t rs = record {
  region_ranges = t;
  regions = rs;
  pending_votes = [];
  pending_snapshot_regions = [];
  pending_merge_targets = [];
  targets_map = [];
  merge_locks = [];
}

abbrev pub two_regions : StoreMeta Entries
two_regions = meta_of ranges ((1, region_of 1 10 30) ∷ (2, region_of 2 30 50) ∷ [])

pub entry_cases :
    (k b : Bytes)
    → get ranges k ≡ some b
    → ((k ≡ 50 ∷ []) × (region_id_to_bytes 2 ≡ b)) ⊎ ((k ≡ 30 ∷ []) × (region_id_to_bytes 1 ≡ b))
unfolding get
entry_cases k b e = elim (eq_or_ne k (50 ∷ [])) [
  | inl q ↦
      inl (
        q,
        cc (get-cons (50 ∷ [], region_id_to_bytes 2) ((30 ∷ [], region_id_to_bytes 1) ∷ []) k q),
      )
  | inr n ↦
      let e' =
        sym (get-cons_ne (50 ∷ [], region_id_to_bytes 2) ((30 ∷ [], region_id_to_bytes 1) ∷ []) k n)
        ∙ e in
      elim (eq_or_ne k (30 ∷ [])) [
        | inl q ↦ inr (q, cc (get-cons (30 ∷ [], region_id_to_bytes 1) [] k q))
        | inr m ↦ absurd (ground (arith, get-cons_ne (30 ∷ [], region_id_to_bytes 1) [] k m))
      ]
]

pub at_two : region_at two_regions.regions (region_id_to_bytes 2) ≡ some (region_of 2 30 50)
unfolding region_at region_id_to_bytes put_le get_le lookup
at_two = refl

pub at_one : region_at two_regions.regions (region_id_to_bytes 1) ≡ some (region_of 1 10 30)
unfolding region_at region_id_to_bytes put_le get_le lookup
at_one = refl

found :
    (k b : Bytes) (r : Region)
    → get ranges k ≡ some b
    → region_at two_regions.regions b ≡ some r
    → ((k ≡ 50 ∷ []) × (r ≡ region_of 2 30 50)) ⊎ ((k ≡ 30 ∷ []) × (r ≡ region_of 1 10 30))
found k b r g e = elim (entry_cases k b g) [
  | inl (q, v) ↦ inl (q, cc (at_two, ap (λ x. region_at two_regions.regions x) v))
  | inr (q, v) ↦ inr (q, cc (at_one, ap (λ x. region_at two_regions.regions x) v))
]

pub two_regions-IsTable : IsTable mem_table two_regions
unfolding compare_bytes
two_regions-IsTable = record {
  holds = λ k b g. elim (entry_cases k b g) [
    | inl (q, v) ↦ (
      region_of 2 30 50,
      subst (λ x. region_at two_regions.regions x ≡ some (region_of 2 30 50)) v at_two,
      sym q,
    )
    | inr (q, v) ↦ (
      region_of 1 10 30,
      subst (λ x. region_at two_regions.regions x ≡ some (region_of 1 10 30)) v at_one,
      sym q,
    )
  ];
  proper = λ k b r g e n. elim (found k b r g e) [
    | inl (q, s) ↦ subst₂ (λ (x : Region) y. Lt x.start_key y) (sym s) (sym q) refl
    | inr (q, s) ↦ subst₂ (λ (x : Region) y. Lt x.start_key y) (sym s) (sym q) refl
  ];
  apart = λ k b r j c s g e h f l. elim (found j c s h f) [
    | inl (q, u) ↦ elim (found k b r g e) [
      | inl (p, t) ↦ absurd (cc (subst₂ (λ x y. Lt x y) p q l))
      | inr (p, t) ↦ subst₂ (λ x (y : Region). Le x y.start_key) (sym p) (sym u) (λ m. cc)
    ]
    | inr (q, u) ↦ elim (found k b r g e) [
      | inl (p, t) ↦ absurd (cc (subst₂ (λ x y. Lt x y) p q l))
      | inr (p, t) ↦ absurd (cc (subst₂ (λ x y. Lt x y) p q l))
    ]
  ];
}

is_range_covered-IsCovered_example :
    (is_range_covered mem_table two_regions (20 ∷ []) (50 ∷ []) ≡ some true)
    ↔ IsCovered mem_table two_regions (20 ∷ []) (50 ∷ [])
is_range_covered-IsCovered_example =
    is_range_covered-IsCovered mem_table two_regions (20 ∷ []) (50 ∷ []) two_regions-IsTable
      (unfold compare_bytes in refl)

find_overlap_regions-ends_example :
    (((fuel : ℕ) × (find_overlap_regions mem_table fuel two_regions (region_of 3 20 40) ≡ ok []))
      ↔ NoOverlap mem_table two_regions (region_of 3 20 40) (20 ∷ []))
    × ((fuel : ℕ) (rs : List Region)
        → find_overlap_regions mem_table fuel two_regions (region_of 3 20 40) ≡ ok rs
        → rs ≡ [])
find_overlap_regions-ends_example =
    find_overlap_regions-ends mem_table two_regions (region_of 3 20 40) two_regions-IsTable

-- The search for the regions that overlap a snapshot's has no end.
overlap_test : find_overlap_regions mem_table 9 two_regions (region_of 3 20 40) ≡ err out_of_fuel
unfolding find_overlap_regions seek place compare_bytes region_id_to_bytes put_le get_le lookup
overlap_test = refl

covered_test : is_range_covered mem_table two_regions (20 ∷ []) (50 ∷ []) ≡ some true
unfolding is_range_covered seek place compare_bytes region_id_to_bytes put_le get_le lookup
covered_test = refl

-- A range that ends within a region is not found to be covered.
inside_test : is_range_covered mem_table two_regions (15 ∷ []) (20 ∷ []) ≡ some false
unfolding is_range_covered seek place compare_bytes region_id_to_bytes put_le get_le lookup
inside_test = refl
