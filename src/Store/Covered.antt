-- ===== src/Store/Covered.antt =====
-- What isRangeCovered decides.
use unistore.Base.{Bytes, List, ◌≡◌, some, true, arith, ◌∷◌, inl, inr, ◌↔◌, subst, sym, [], ap}
use unistore.Store.KeyOrder.{
  Lt, Le, lt_irrefl, le_of_lt, lt_or_le, lt_or_eq, le_trans, is_gt_of_lt, is_gt_of_le, is_lt_of_lt,
  is_lt_of_le, le_antisymm,
}
use unistore.Store.Table.{IsTable, InTable, IsAfter, IsAfter-tail, first-Le, after_key-IsAfter}
use unistore.Store.{MemStore, StoreMeta, region_at, cover_from, is_range_covered, after_key, Bytes}

abbrev pub IsCovered : {T : Type 0} → MemStore T → StoreMeta T → Bytes → Bytes → Type 0
IsCovered mem meta start end =
    ((key : Bytes) → Le start key → Lt key end → InTable mem meta key)
    × ((b : Bytes) × (mem.get meta.region_ranges end ≡ some b))

module _ {T : Type 0} (mem : MemStore T) (meta : StoreMeta T) (table : IsTable mem meta)
    (end : Bytes) where
  cover_from_sound :
      (start : Bytes) (es : List (Bytes × Bytes))
      → IsAfter mem meta.region_ranges start es
      → cover_from meta.regions end start es ≡ some true
      → IsCovered mem meta start end
  unfolding cover_from
  cover_from_sound start [] w e = absurd (ground arith)
  cover_from_sound start (x ∷ es) w e =
      let (r, at, ends) = table.holds x.0 x.1 w.1.0 in
      elim (lt_or_le end x.0) [
        | inl l ↦ absurd (ground (arith, is_gt_of_lt x.0 end l))
        | inr l ↦ elim (lt_or_le start r.start_key) [
          | inl q ↦ absurd (ground (arith, is_gt_of_le x.0 end l, is_lt_of_lt start r.start_key q))
          | inr q ↦ elim (lt_or_le r.end_key end) [
            | inl m ↦
                let after : IsAfter mem meta.region_ranges r.end_key es =
                  subst (λ k. IsAfter mem meta.region_ranges k es) (sym ends)
                    (IsAfter-tail mem meta.region_ranges start x es w) in
                let rest =
                  cover_from_sound r.end_key es after
                    (ground (arith, is_gt_of_le x.0 end l, is_lt_of_le start r.start_key q)) in
                (
                  λ key lo hi. elim (lt_or_le key r.end_key) [
                    | inl n ↦ (
                      x.0,
                      x.1,
                      r,
                      w.1.0,
                      at,
                      le_trans r.start_key start key q lo,
                      subst (λ k. Lt key k) ends n,
                    )
                    | inr n ↦ rest.0 key n hi
                  ],
                  rest.1,
                )
            | inr m ↦
                let same : x.0 ≡ end = le_antisymm x.0 end l (subst (λ k. Le end k) ends m) in
                (
                  λ key lo hi. (
                    x.0,
                    x.1,
                    r,
                    w.1.0,
                    at,
                    le_trans r.start_key start key q lo,
                    subst (λ k. Lt key k) (sym same) hi,
                  ),
                  (x.1, subst (λ k. mem.get meta.region_ranges k ≡ some x.1) same w.1.0),
                )
          ]
        ]
      ]

  cover_from_complete :
      (start : Bytes) (es : List (Bytes × Bytes))
      → IsAfter mem meta.region_ranges start es
      → Lt start end
      → IsCovered mem meta start end
      → cover_from meta.regions end start es ≡ some true
  unfolding cover_from
  cover_from_complete start [] w l c =
      let (k, b, r, g, at, lo, hi) = c.0 start (lt_irrefl start) l in absurd (w.2 k b g hi)
  cover_from_complete start (x ∷ es) w l c =
      let (k, b, r, g, at, lo, hi) = c.0 start (lt_irrefl start) l in
      let (s, at', ends) = table.holds x.0 x.1 w.1.0 in
      let to_end : Le x.0 end = first-Le mem meta.region_ranges start x es end c.1.0 w c.1.1 l in
      let reaches : Le s.start_key start =
        elim (lt_or_eq x.0 k (first-Le mem meta.region_ranges start x es k b w g hi)) [
          | inl n ↦ λ m.
              le_trans x.0 r.start_key start (table.apart x.0 x.1 s k b r w.1.0 at' g at n) lo w.0.0
          | inr same ↦
              let same_id : x.1 ≡ b = cc (ap (λ t. mem.get meta.region_ranges t) same) in
              let same_region : s ≡ r = cc (ap (λ t. region_at meta.regions t) same_id) in
              subst (λ t. Le t.start_key start) (sym same_region) lo
        ] in
      elim (lt_or_le s.end_key end) [
        | inl m ↦
            let after : IsAfter mem meta.region_ranges s.end_key es =
              subst (λ t. IsAfter mem meta.region_ranges t es) (sym ends)
                (IsAfter-tail mem meta.region_ranges start x es w) in
            let later : Lt start s.end_key = subst (λ t. Lt start t) (sym ends) w.0.0 in
            let rest = cover_from_complete s.end_key es after m (
              λ key a z.
                  c.0 key (le_trans start s.end_key key (le_of_lt start s.end_key later) a) z,
              c.1,
            ) in
            ground (
              arith,
              is_gt_of_le x.0 end to_end,
              is_lt_of_le start s.start_key reaches,
              is_lt_of_lt s.end_key end m,
            )
        | inr m ↦ ground (
          arith,
          is_gt_of_le x.0 end to_end,
          is_lt_of_le start s.start_key reaches,
          is_lt_of_le s.end_key end m,
        )
      ]

-- Over a table of regions that lie apart, isRangeCovered says that a range that is not empty is
-- covered exactly if each of its keys lies in a region of the table and its end is the end key of
-- a region.
pub is_range_covered-IsCovered :
    {T : Type 0} (mem : MemStore T) (meta : StoreMeta T) (start end : Bytes)
    → IsTable mem meta
    → Lt start end
    → (is_range_covered mem meta start end ≡ some true) ↔ IsCovered mem meta start end
unfolding is_range_covered
is_range_covered-IsCovered mem meta start end table l = (
  λ e.
      cover_from_sound mem meta table end start (after_key mem meta.region_ranges start)
        (after_key-IsAfter mem meta.region_ranges start) e,
  λ c.
      cover_from_complete mem meta table end start (after_key mem meta.region_ranges start)
        (after_key-IsAfter mem meta.region_ranges start) l c,
)
