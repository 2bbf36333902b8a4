-- ===== src/PeerFsm/SplitConsistent.antt =====
-- A split keeps the table and the regions of a store consistent.
use unistore.Base.{
  ℕ, List, ◌≡◌, Bool, some, ◌∷◌, lookup, ◌⊎◌, [], true, ◌≢◌, insert, inl, Bool-cases, ap, ◌==◌,
  arith, ==_iff, ◌∙◌, inr, Option-cases, sym, subst, All,
}
use unistore.Region.{Region}
use unistore.Store.{MemStore, StoreMeta, region_id_to_bytes}
use unistore.Store.Effects.{Effect}
use unistore.PeerFsm.{PeerFsm, has_peers, remove_range, ℕ, List}
use unistore.PeerFsm.Results.{
  add_range, add_new_region, split_regions, on_ready_split_region, last_region,
}
use unistore.PeerFsm.Consistent.{IsConsistent, Added, add_range-Added, Added-keeps}
use unistore.PeerFsm.Splitting.{
  IsSplitting, IsPlaced, FitsSplit, Includes, new_region_parts, place_derived, place_new, end_split,
  remove_range_parts, start_split,
}

module _ {T : Type 0} (mem : MemStore T) (derived : Region) (has : has_peers derived ≡ true)
    (store : ℕ) (is_leader : Bool) where
  split_regions-kept :
      (rs : List Region) (meta meta' : StoreMeta T) (es : List Effect)
      → IsSplitting mem derived meta
      → All (FitsSplit derived) rs
      → split_regions mem store is_leader derived.id meta rs ≡ some (meta', es)
      → IsSplitting mem derived meta'
        × (IsPlaced mem derived meta ⊎ Includes derived rs → IsPlaced mem derived meta')
  unfolding split_regions
  split_regions-kept [] meta meta' es s f e =
      let same : meta ≡ meta' = ground arith in
      (
        subst (IsSplitting mem derived) same s,
        λ w. elim w [
          | inl placed ↦ subst (IsPlaced mem derived) same placed
          | inr none_left ↦ absurd none_left
        ],
      )
  split_regions-kept (r ∷ rs) meta meta' es s f e =
      elim (Option-cases (add_range mem store meta r)) [
        | inl q ↦ absurd (ground arith)
        | inr (m, q) ↦
            let a = add_range-Added mem store meta r m q in
            elim (Bool-cases (r.id == derived.id)) [
              | inl own ↦
                  let same : r ≡ derived = f.0.1 ((==_iff r.id derived.id).0 own) in
                  let a' : Added mem meta derived m = subst (λ x. Added mem meta x m) same a in
                  elim (Option-cases (split_regions mem store is_leader derived.id m rs)) [
                    | inl z ↦ absurd (ground arith)
                    | inr ((m', es'), z) ↦
                        let e' : m' ≡ meta' = ground arith in
                        let (s', placed) =
                          split_regions-kept rs m m' es' (place_derived mem derived has meta m s a')
                            f.1 z in
                        (
                          subst (IsSplitting mem derived) e' s',
                          λ w. subst (IsPlaced mem derived) e' (placed (inl a'.is_there)),
                        )
                  ]
              | inr other ↦ elim (Option-cases (add_new_region mem store is_leader m r)) [
                | inl z ↦ absurd (ground arith)
                | inr ((m1, es1), z) ↦
                    let (free, peers, er, et) = new_region_parts mem store is_leader m m1 r es1 z in
                    let ne : r.id ≢ derived.id = λ i. ground arith in
                    let s1 = place_new mem derived has meta m m1 r s a ne f.0.0 free peers er et in
                    elim (Option-cases (split_regions mem store is_leader derived.id m1 rs)) [
                      | inl y ↦ absurd (ground arith)
                      | inr ((m', es'), y) ↦
                          let e' : m' ≡ meta' = ground arith in
                          let (s', placed) = split_regions-kept rs m1 m' es' s1 f.1 y in
                          (
                            subst (IsSplitting mem derived) e' s',
                            λ w. subst (IsPlaced mem derived) e' (
                                placed (elim w [
                                  | inl there ↦ inl (
                                      ap (λ t. mem.get t derived.end_key) et
                                      ∙ Added-keeps mem meta r m a derived.end_key
                                          (region_id_to_bytes derived.id) there)
                                  | inr within ↦ elim within [
                                    | inl i ↦ absurd (ne i)
                                    | inr later ↦ inr later
                                  ]
                                ])),
                          )
                    ]
              ]
            ]
      ]

-- When a peer handles the split of its region in a store whose table of end keys and map of
-- regions fit each other, the derived region, which is among the new ones, keeps the old id, all
-- ids are words and the last region ends where the old one did, then the table and the map fit
-- each other again, unless the handler panics.
pub on_ready_split_region-IsConsistent :
    {T : Type 0} (mem : MemStore T) (store : ℕ) (meta : StoreMeta T) (p : PeerFsm)
    (derived old last : Region) (regions : List Region) (meta' : StoreMeta T) (p' : PeerFsm)
    (es : List Effect)
    → IsConsistent mem meta
    → lookup derived.id meta.regions ≡ some old
    → has_peers old ≡ true
    → has_peers derived ≡ true
    → last_region regions ≡ some last
    → last.end_key ≡ old.end_key
    → All (FitsSplit derived) regions
    → Includes derived regions
    → on_ready_split_region mem store meta p derived regions ≡ some (meta', p', es)
    → IsConsistent mem meta'
unfolding on_ready_split_region
on_ready_split_region-IsConsistent mem store meta p derived old last regions meta' p' es c known had
      has l le f inc e =
    let m0 = record meta { regions = insert derived.id derived meta.regions } in
    elim (Option-cases (remove_range mem m0 last.end_key)) [
      | inl q ↦ absurd (ground arith)
      | inr (m, q) ↦
          let q' =
            remove_range_parts mem m0 m old.end_key
              (ap (λ k. remove_range mem m0 k) (sym le) ∙ q) in
          let s =
            subst (IsSplitting mem derived) (sym q')
              (start_split mem meta derived old c known had) in
          elim (Option-cases (split_regions mem store p.is_leader derived.id m regions)) [
            | inl z ↦ absurd (ground arith)
            | inr ((m', es'), z) ↦
                let same : m' ≡ meta' = ground arith in
                let (s', placed) =
                  split_regions-kept mem derived has store p.is_leader regions m m' es' s f z in
                subst (IsConsistent mem) same (end_split mem derived m' s' (placed (inr inc)))
          ]
    ]
