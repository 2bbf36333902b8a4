-- ===== src/PeerFsm/Splitting.antt =====
-- The steps of a split: a store whose derived region is known and may not be in the table.
use unistore.Base.{
  ℕ, IsU64, Bytes, List, ◌≡◌, Bool, some, ◌∷◌, lookup, ◌⊎◌, [], true, false, ◌≢◌, insert, inl,
  Bool-cases, if◌then◌else◌, not, Dict, ap, ◌==◌, arith, ==_iff, ◌∙◌, refl, inr, Option-cases, sym,
  lookup-insert, ==_refl, subst, subst₂,
}
use unistore.Region.{Peer, Region, find_peer}
use unistore.Store.{MemStore, StoreMeta, region_id_to_bytes, region_id_from_bytes}
use unistore.Store.KeyOrder.{eq_or_ne}
use unistore.Store.Effects.{Effect}
use unistore.PeerFsm.{has_peers, remove_range, ℕ, Bytes, List, is_nil}
use unistore.PeerFsm.Results.{add_new_region, is_occupied}
use unistore.PeerFsm.Consistent.{
  IsConsistent, Added, Added-keeps, Added-cases, region_id_from_bytes-to_bytes,
}

-- The state of a store during a split: the derived region is known, and may not be in the table.
pub record IsSplitting {T : Type 0} (mem : MemStore T) (derived : Region) (meta : StoreMeta T)
    : Type 0 where
  pub tabled :
      (k b : Bytes)
      → mem.get meta.region_ranges k ≡ some b
      → (id : ℕ) × (r : Region) × (region_id_from_bytes b ≡ some id)
        × (lookup id meta.regions ≡ some r)
        × (r.end_key ≡ k)
        × (has_peers r ≡ true)
  pub listed :
      (id : ℕ) (r : Region)
      → lookup id meta.regions ≡ some r
      → IsU64 id
        × (r.id ≡ id)
        × (has_peers r ≡ true
            → id ≢ derived.id
            → mem.get meta.region_ranges r.end_key ≡ some (region_id_to_bytes id))
  pub own : lookup derived.id meta.regions ≡ some derived

abbrev pub IsPlaced : {T : Type 0} → MemStore T → Region → StoreMeta T → Type 0
IsPlaced mem derived meta =
    mem.get meta.region_ranges derived.end_key ≡ some (region_id_to_bytes derived.id)

-- The ids are words, and the derived region is the only one with its id.
abbrev pub FitsSplit : Region → Region → Type 0
FitsSplit derived r = IsU64 r.id × (r.id ≡ derived.id → r ≡ derived)

abbrev pub Includes : Region → List Region → Type 0
Includes derived [] = ⊥
Includes derived (r ∷ rs) = (r.id ≡ derived.id) ⊎ Includes derived rs

find_peer-has_peers :
    (ps : List Peer) (store : ℕ) (p : Peer) → find_peer ps store ≡ some p → not (is_nil ps) ≡ true
unfolding find_peer
find_peer-has_peers [] store p e = absurd (ground arith)
find_peer-has_peers (q ∷ ps) store p e = refl

-- What a new region needs and changes.
pub new_region_parts :
    {T : Type 0} (mem : MemStore T) (store : ℕ) (is_leader : Bool) (meta m : StoreMeta T)
    (r : Region) (es : List Effect)
    → add_new_region mem store is_leader meta r ≡ some (m, es)
    → (is_occupied (lookup r.id meta.regions) ≡ false)
      × (has_peers r ≡ true)
      × (m.regions ≡ insert r.id r meta.regions)
      × (m.region_ranges ≡ meta.region_ranges)
unfolding add_new_region
new_region_parts mem store is_leader meta m r es e =
    elim (Bool-cases (is_occupied (lookup r.id meta.regions))) [
      | inl full ↦ absurd (ground arith)
      | inr free ↦ elim (Option-cases (find_peer r.peers store)) [
        | inl q ↦ absurd (ground arith)
        | inr (peer, q) ↦
            (free, find_peer-has_peers r.peers store peer q, ground arith, ground arith)
      ]
    ]

pub other_id :
    (r : Region) (id : ℕ) (d : Dict Region)
    → r.id ≢ id
    → (if r.id == id then some r else lookup id d) ≡ lookup id d
other_id r id d n = ground arith

-- A region with peers is not the one that is free.
pub other_region :
    (r : Region) (id : ℕ) (q : Region) (d : Dict Region)
    → is_occupied (lookup r.id d) ≡ false
    → lookup id d ≡ some q
    → has_peers q ≡ true
    → (if r.id == id then some r else lookup id d) ≡ some q
other_region r id q d free l h = elim (Bool-cases (r.id == id)) [
  | inl same ↦ absurd (let e = ap (λ i. lookup i d) ((==_iff r.id id).0 same) in ground arith)
  | inr other ↦ rw other l
]

module _ {T : Type 0} (mem : MemStore T) (derived : Region) (has : has_peers derived ≡ true) where
  -- The range of the derived region is added.
  pub place_derived :
      (meta m : StoreMeta T)
      → IsSplitting mem derived meta
      → Added mem meta derived m
      → IsSplitting mem derived m
  place_derived meta m s a = record {
    tabled = λ k b g. elim (Added-cases mem meta derived m a k b g) [
      | inl (ke, be) ↦ (
        derived.id,
        derived,
        ap region_id_from_bytes be
            ∙ region_id_from_bytes-to_bytes derived.id (s.listed derived.id derived s.own).0,
        ap (λ d. lookup derived.id d) a.same_regions ∙ s.own,
        sym ke,
        has,
      )
      | inr (n, g') ↦
          let (id, q, i, l, x, h) = s.tabled k b g' in
          (id, q, i, ap (λ d. lookup id d) a.same_regions ∙ l, x, h)
    ];
    listed = λ id q l.
        let (w, i, there) = s.listed id q (ap (λ d. lookup id d) (sym a.same_regions) ∙ l) in
        (
          w,
          i,
          λ h n. Added-keeps mem meta derived m a q.end_key (region_id_to_bytes id) (there h n),
        );
    own = ap (λ d. lookup derived.id d) a.same_regions ∙ s.own;
  }

  pub place_new :
      (meta m m' : StoreMeta T) (r : Region)
      → IsSplitting mem derived meta
      → Added mem meta r m
      → r.id ≢ derived.id
      → IsU64 r.id
      → is_occupied (lookup r.id m.regions) ≡ false
      → has_peers r ≡ true
      → m'.regions ≡ insert r.id r m.regions
      → m'.region_ranges ≡ m.region_ranges
      → IsSplitting mem derived m'
  place_new meta m m' r s a ne word free peers er et =
      let find : (id : ℕ)
          → lookup id m'.regions ≡ (if r.id == id then some r else lookup id meta.regions) =
        λ id.
          ap (λ d. lookup id d) er
          ∙ lookup-insert r.id id r m.regions
          ∙ ap (λ d. if r.id == id then some r else lookup id d) a.same_regions in
      let free' : is_occupied (lookup r.id meta.regions) ≡ false =
        ap (λ d. is_occupied (lookup r.id d)) (sym a.same_regions) ∙ free in
      let here : lookup r.id m'.regions ≡ some r = find r.id ∙ rw (==_refl r.id) refl in
      let kept : (j b : Bytes)
          → mem.get m.region_ranges j ≡ some b
          → mem.get m'.region_ranges j ≡ some b =
        λ j b g. ap (λ t. mem.get t j) et ∙ g in
      record {
        tabled = λ k b g.
            elim (Added-cases mem meta r m a k b (ap (λ t. mem.get t k) (sym et) ∙ g)) [
              | inl (ke, be) ↦ (
                r.id,
                r,
                ap region_id_from_bytes be ∙ region_id_from_bytes-to_bytes r.id word,
                here,
                sym ke,
                peers,
              )
              | inr (n, g') ↦
                  let (id, q, i, l, x, h) = s.tabled k b g' in
                  (id, q, i, find id ∙ other_region r id q meta.regions free' l h, x, h)
            ];
        listed = λ id q l. elim (Bool-cases (r.id == id)) [
          | inl same ↦
              let ids : r.id ≡ id = (==_iff r.id id).0 same in
              let qs : r ≡ q = cc (here, ap (λ i. lookup i m'.regions) ids) in
              (
                subst IsU64 ids word,
                ap (λ (x : Region). x.id) (sym qs) ∙ ids,
                λ h n. kept q.end_key (region_id_to_bytes id) (
                    subst₂
                      (λ (x : Region) i.
                        mem.get m.region_ranges x.end_key ≡ some (region_id_to_bytes i))
                      qs ids a.is_there),
              )
          | inr other ↦
              let (w, i, there) =
                s.listed id q (subst (λ t. t ≡ some q) (find id ∙ rw other refl) l) in
              (
                w,
                i,
                λ h n.
                    kept q.end_key (region_id_to_bytes id)
                      (Added-keeps mem meta r m a q.end_key (region_id_to_bytes id) (there h n)),
              )
        ];
        own = find derived.id ∙ other_id r derived.id meta.regions ne ∙ s.own;
      }

pub remove_range_parts :
    {T : Type 0} (mem : MemStore T) (meta m : StoreMeta T) (k : Bytes)
    → remove_range mem meta k ≡ some m
    → m ≡ record meta { region_ranges = (mem.delete meta.region_ranges k).0 }
unfolding remove_range
remove_range_parts mem meta m k e = ground arith

pub deleted-keeps :
    {T : Type 0} (mem : MemStore T) (t : T) (k j b : Bytes)
    → mem.get (mem.delete t k).0 j ≡ some b
    → (j ≢ k) × (mem.get t j ≡ some b)
deleted-keeps mem t k j b g = elim (eq_or_ne j k) [
  | inl same ↦
      absurd (ground (arith, mem.get-delete t k, ap (λ x. mem.get (mem.delete t k).0 x) same))
  | inr ne ↦ (ne, sym (mem.get-delete_ne t k j ne) ∙ g)
]

-- Ids with one value in the table are one id.
pub same_end :
    {T : Type 0} (mem : MemStore T) (meta : StoreMeta T) (i j : ℕ)
    → IsU64 i
    → IsU64 j
    → some (region_id_to_bytes i) ≡ some (region_id_to_bytes j)
    → i ≡ j
same_end mem meta i j wi wj e =
    let b : region_id_to_bytes i ≡ region_id_to_bytes j = cc in
    cc (
      region_id_from_bytes-to_bytes i wi,
      region_id_from_bytes-to_bytes j wj,
      ap region_id_from_bytes b,
    )

pub end_split :
    {T : Type 0} (mem : MemStore T) (derived : Region) (meta : StoreMeta T)
    → IsSplitting mem derived meta
    → IsPlaced mem derived meta
    → IsConsistent mem meta
end_split mem derived meta s placed = record {
  tabled = s.tabled;
  listed = λ id r l.
      let (w, i, there) = s.listed id r l in
      (
        w,
        i,
        λ h. elim (Bool-cases (id == derived.id)) [
          | inl d ↦
              let ids : id ≡ derived.id = (==_iff id derived.id).0 d in
              let rs : derived ≡ r = cc (s.own, ap (λ j. lookup j meta.regions) ids) in
              subst₂
                (λ (x : Region) j.
                  mem.get meta.region_ranges x.end_key ≡ some (region_id_to_bytes j))
                rs (sym ids) placed
          | inr d ↦ there h (λ j. ground arith)
        ],
      );
}

-- The derived region takes the place of the old one, which leaves the table.
pub start_split :
    {T : Type 0} (mem : MemStore T) (meta : StoreMeta T) (derived old : Region)
    → IsConsistent mem meta
    → lookup derived.id meta.regions ≡ some old
    → has_peers old ≡ true
    → IsSplitting mem derived (record meta {
      regions = insert derived.id derived meta.regions;
      region_ranges = (mem.delete meta.region_ranges old.end_key).0;
    })
start_split mem meta derived old c known had =
    let (word, is_id, there) = c.listed derived.id old known in
    let find = λ (id : ℕ). lookup-insert derived.id id derived meta.regions in
    record {
      tabled = λ k b g.
          let (ne, g') = deleted-keeps mem meta.region_ranges old.end_key k b g in
          let (id, q, i, l, x, h) = c.tabled k b g' in
          let other : derived.id ≢ id = λ d. ne (
            sym x
            ∙ ap (λ (z : Region). z.end_key)
                (let s : q ≡ old = cc (ap (λ j. lookup j meta.regions) d) in s)) in
          (id, q, i, find id ∙ other_id derived id meta.regions other ∙ l, x, h);
      listed = λ id q l. elim (Bool-cases (derived.id == id)) [
        | inl d ↦
            let ids : derived.id ≡ id = (==_iff derived.id id).0 d in
            let qs : derived ≡ q = ground (arith, find id) in
            (
              subst IsU64 ids word,
              ap (λ (z : Region). z.id) (sym qs) ∙ ids,
              λ h n. absurd (n (sym ids)),
            )
        | inr d ↦
            let l' : lookup id meta.regions ≡ some q = ground (arith, find id) in
            let (w, i, t) = c.listed id q l' in
            (
              w,
              i,
              λ h n.
                  mem.get-delete_ne meta.region_ranges old.end_key q.end_key (λ z. n (
                    same_end mem meta id derived.id w word
                      (sym (t h) ∙ ap (λ k. mem.get meta.region_ranges k) z ∙ there had)))
                  ∙ t h,
            )
      ];
      own = find derived.id ∙ rw (==_refl derived.id) refl;
    }
