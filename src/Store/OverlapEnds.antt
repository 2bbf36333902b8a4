-- ===== src/Store/OverlapEnds.antt =====
-- When the search for overlapping regions ends.
use unistore.Region.Range.{compare_bytes-swap}
use unistore.Region.{Region}
use unistore.Base.{
  ℕ, compare_bytes, Bytes, ◌≢◌, ◌≡◌, List, [], false, ok, some, suc, length, lookup, ◌∷◌, arith,
  Bool-cases, Option-cases, inl, ◌==◌, inr, refl, zero, ap, Ordering, true, ◌∙◌, ==_iff, ◌++◌,
  subst, sym, ◌↔◌, All, ◌⊎◌,
}
use unistore.Store.{
  MemStore, StoreMeta, region_id_from_bytes, skip_equal, Region, ℕ, compare_bytes, Bytes,
}
use unistore.Store.KeyOrder.{
  Lt, Le, lt_irrefl, lt_trans, le_of_lt, lt_or_le, lt_or_eq, is_lt_of_lt, is_lt_of_le, le_trans,
  lt_of_le_of_lt,
}
use unistore.Store.Table.{
  IsTable, IsAfter, IsAfter-tail, first-Le, skip_equal_eq, seek-IsAfter, region_at_parts,
  ne-nil_of_lt, region_at_of,
}
use unistore.Store.Overlap.{overlaps, is_equal, find_overlap_regions}

-- The regions of the table that end after a key, but for the snapshot's own, begin at or after the
-- end of the snapshot's region.
abbrev pub NoOverlap : {T : Type 0} → MemStore T → StoreMeta T → Region → Bytes → Type 0
NoOverlap mem meta snap p =
    (k b : Bytes) (id : ℕ) (r : Region)
    → mem.get meta.region_ranges k ≡ some b
    → region_id_from_bytes b ≡ some id
    → lookup id meta.regions ≡ some r
    → Lt p k
    → id ≢ snap.id
    → Le snap.end_key r.start_key

not_equal : (a b : Bytes) → Lt b a → is_equal a b ≡ false
not_equal a b h = ground (arith, compare_bytes-swap b a)

skip_equal_ne :
    (k : Bytes) (e : Bytes × Bytes) (es : List (Bytes × Bytes))
    → is_equal e.0 k ≡ false
    → skip_equal k (e ∷ es) ≡ e ∷ es
skip_equal_ne k e es h = ground (arith, compare_bytes-swap e.0 k)

module _ {T : Type 0} (mem : MemStore T) (meta : StoreMeta T) (table : IsTable mem meta)
    (snap : Region) where
  -- An entry is found with one value, which reads as one id.
  same_id :
      (k j b c : Bytes) (id id' : ℕ)
      → mem.get meta.region_ranges k ≡ some b
      → mem.get meta.region_ranges j ≡ some c
      → k ≡ j
      → region_id_from_bytes b ≡ some id
      → region_id_from_bytes c ≡ some id'
      → id ≡ id'
  same_id k j b c id id' g h e p q =
      let same : b ≡ c = cc (ap (λ t. mem.get meta.region_ranges t) e) in
      cc (ap region_id_from_bytes same)

  overlaps_sound :
      (f : ℕ) (p : Bytes) (es : List (Bytes × Bytes)) (found rs : List Region)
      → IsAfter mem meta.region_ranges p es
      → Le snap.start_key p
      → overlaps f meta.regions snap es found ≡ ok rs
      → NoOverlap mem meta snap p × (rs ≡ found)
  unfolding overlaps
  overlaps_sound zero p es found rs w s e = absurd (ground arith)
  overlaps_sound (suc f) p [] found rs w s e =
      (λ k b id r g i l lt ne. absurd (w.2 k b g lt), ground arith)
  overlaps_sound (suc f) p (x ∷ es) found rs w s e =
      let (r, at, ends) = table.holds x.0 x.1 w.1.0 in
      let (id, i, l) = region_at_parts meta.regions x.1 r at in
      elim (Bool-cases (id == snap.id)) [
        | inl own ↦
            let (n, same) =
              overlaps_sound f x.0 es found rs (IsAfter-tail mem meta.region_ranges p x es w)
                (le_trans snap.start_key p x.0 s (le_of_lt p x.0 w.0.0)) (ground arith) in
            (
              λ k b j t g q m a ne.
                  elim (lt_or_eq x.0 k (first-Le mem meta.region_ranges p x es k b w g a)) [
                    | inl later ↦ n k b j t g q m later ne
                    | inr here ↦ absurd (
                        ne (
                          sym (same_id x.0 k x.1 b id j w.1.0 g here i q)
                          ∙ (==_iff id snap.id).0 own))
                  ],
              same,
            )
        | inr other ↦
            let unequal =
              not_equal x.0 snap.start_key (lt_of_le_of_lt snap.start_key p x.0 s w.0.0) in
            let ne_id : id ≢ snap.id = λ q. ground arith in
            elim (lt_or_le r.start_key snap.end_key) [
              | inl m ↦
                  let (n, same) =
                    overlaps_sound f p (x ∷ es) (found ++ (r ∷ [])) rs w s
                      (ground (arith, unequal, is_lt_of_lt r.start_key snap.end_key m)) in
                  absurd (n x.0 x.1 id r w.1.0 i l w.0.0 ne_id m)
              | inr m ↦ (
                λ k b j t g q u a ne.
                    elim (lt_or_eq x.0 k (first-Le mem meta.region_ranges p x es k b w g a)) [
                      | inl later ↦ le_trans snap.end_key r.start_key t.start_key m (
                          le_trans r.start_key x.0 t.start_key
                            (le_of_lt r.start_key x.0
                              (table.proper x.0 x.1 r w.1.0 at (ne-nil_of_lt p x.0 w.0.0)))
                            (table.apart x.0 x.1 r k b t w.1.0 at g
                              (region_at_of meta.regions b j t q u) later))
                      | inr here ↦
                          let j_id : id ≡ j = same_id x.0 k x.1 b id j w.1.0 g here i q in
                          let same : r ≡ t = cc (ap (λ v. lookup v meta.regions) j_id) in
                          subst (λ v. Le snap.end_key v.start_key) same m
                    ],
                ground (arith, unequal, is_lt_of_le r.start_key snap.end_key m),
              )
            ]
      ]

  overlaps_complete :
      (p : Bytes) (es : List (Bytes × Bytes)) (found : List Region)
      → IsAfter mem meta.region_ranges p es
      → Le snap.start_key p
      → NoOverlap mem meta snap p
      → overlaps (suc (length es)) meta.regions snap es found ≡ ok found
  unfolding overlaps
  overlaps_complete p [] found w s n = refl
  overlaps_complete p (x ∷ es) found w s n =
      let (r, at, ends) = table.holds x.0 x.1 w.1.0 in
      let (id, i, l) = region_at_parts meta.regions x.1 r at in
      elim (Bool-cases (id == snap.id)) [
        | inl own ↦
            let rest =
              overlaps_complete x.0 es found (IsAfter-tail mem meta.region_ranges p x es w)
                (le_trans snap.start_key p x.0 s (le_of_lt p x.0 w.0.0))
                (λ k b j t g q m a ne. n k b j t g q m (lt_trans p x.0 k w.0.0 a) ne) in
            ground arith
        | inr other ↦ ground (
          arith,
          not_equal x.0 snap.start_key (lt_of_le_of_lt snap.start_key p x.0 s w.0.0),
          is_lt_of_le r.start_key snap.end_key (n x.0 x.1 id r w.1.0 i l w.0.0 (λ q. ground arith)),
        )
      ]

  is_equal_cases :
      (a b : Bytes)
      → ((is_equal a b ≡ true) × (compare_bytes b a ≡ Ordering.eq)) ⊎ (is_equal a b ≡ false)
  is_equal_cases a b = elim (Bool-cases (is_equal a b)) [
    | inl e ↦ inl (e, ground (arith, compare_bytes-swap a b))
    | inr e ↦ inr e
  ]

  skips :
      (f : ℕ) (es : List (Bytes × Bytes)) (rs : List Region)
      → overlaps f meta.regions snap es [] ≡ ok rs
      → (g : ℕ) × (overlaps g meta.regions snap (skip_equal snap.start_key es) [] ≡ ok rs)
  unfolding overlaps
  skips zero es rs e = absurd (ground arith)
  skips (suc f) [] rs e = (suc f, e)
  skips (suc f) (x ∷ es) rs e = elim (is_equal_cases x.0 snap.start_key) [
    | inr q ↦ (suc f, rw (skip_equal_ne snap.start_key x es q) e)
    | inl (q, c) ↦ elim (Option-cases (region_id_from_bytes x.1)) [
      | inl n ↦ absurd (ground arith)
      | inr (id, n) ↦ (f, rw (skip_equal_eq snap.start_key x es c) (ground arith))
    ]
  ]

  unskips :
      (f : ℕ) (es : List (Bytes × Bytes)) (rs : List Region)
      → All
          (λ x.
            (mem.get meta.region_ranges x.0 ≡ some x.1)
            × (compare_bytes x.0 snap.start_key ≢ Ordering.lt))
          es
      → overlaps f meta.regions snap (skip_equal snap.start_key es) [] ≡ ok rs
      → (g : ℕ) × (overlaps g meta.regions snap es [] ≡ ok rs)
  unfolding overlaps
  unskips f [] rs h e = (f, e)
  unskips f (x ∷ es) rs h e = elim (is_equal_cases x.0 snap.start_key) [
    | inr q ↦ (f, rw (skip_equal_ne snap.start_key x es q) at e)
    | inl (q, c) ↦
        let (r, at, ends) = table.holds x.0 x.1 h.0.0 in
        let (id, i, l) = region_at_parts meta.regions x.1 r at in
        let e' = rw (skip_equal_eq snap.start_key x es c) at e in (suc f, ground arith)
  ]

-- Over a table of regions that lie apart, the search for the regions that overlap a snapshot's
-- ends, with some fuel, exactly if every region that ends after the snapshot's start key and is
-- not the snapshot's own begins at or after the snapshot's end key, and it finds none.
pub find_overlap_regions-ends :
    {T : Type 0} (mem : MemStore T) (meta : StoreMeta T) (snap : Region)
    → IsTable mem meta
    → (((fuel : ℕ) × (find_overlap_regions mem fuel meta snap ≡ ok []))
        ↔ NoOverlap mem meta snap snap.start_key)
      × ((fuel : ℕ) (rs : List Region) → find_overlap_regions mem fuel meta snap ≡ ok rs → rs ≡ [])
unfolding find_overlap_regions
find_overlap_regions-ends mem meta snap table =
    let start = snap.start_key in
    let es = mem.seek meta.region_ranges start in
    let after = seek-IsAfter mem meta.region_ranges start in
    let ends =
      λ (fuel : ℕ) (rs : List Region) (e : find_overlap_regions mem fuel meta snap ≡ ok rs).
        let (g, q) = skips mem meta table snap fuel es rs e in
        overlaps_sound mem meta table snap g start (skip_equal start es) [] rs after
          (lt_irrefl start) q in
    (
      (
        λ done. (ends done.0 [] done.1).0,
        λ n.
            unskips mem meta table snap (suc (length (skip_equal start es))) es []
              (mem.seek-holds meta.region_ranges start)
              (overlaps_complete mem meta table snap start (skip_equal start es) [] after
                (lt_irrefl start) n),
      ),
      λ fuel rs e. (ends fuel rs e).1,
    )
