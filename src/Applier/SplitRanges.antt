-- ===== src/Applier/SplitRanges.antt =====
-- The regions of a split tile the range of the region that was split.
use unistore.Region.Range.{compare_bytes_trans}
use unistore.Region.{check_key_in_region, is_empty, Region, is_lt}
use unistore.Base.{
  ℕ, ◌+◌, ◌≡◌, ◌≢◌, ◌⊎◌, inl, inr, Bool, true, false, if◌then◌else◌, not, List, [], ◌∷◌, Bytes,
  compare_bytes, ok, err, panic, Ordering, arith, ◌&&◌, Bool-cases,
}

-- Each region starts where the one before it ends, from `a` to `b`, and none but the last may be
-- without an end.
abbrev pub Tiles : Bytes → Bytes → List Region → Type 0
Tiles a b [] = ⊥
Tiles a b (r ∷ []) =
    (r.start_key ≡ a) × (r.end_key ≡ b) × ((b ≡ []) ⊎ (compare_bytes a b ≡ Ordering.lt))
Tiles a b (r ∷ s ∷ rs) =
    (r.start_key ≡ a)
    × (r.end_key ≢ [])
    × (compare_bytes a r.end_key ≡ Ordering.lt)
    × Tiles r.end_key b (s ∷ rs)

abbrev pub in_region : Bytes → Region → Bool
in_region key region = elim (check_key_in_region key region) [
  | ok _ ↦ true
  | err e ↦ false
  | panic ↦ false
]

-- How many of the regions accept a key.
unfoldable pub owners : Bytes → List Region → ℕ
owners key [] = 0
owners key (r ∷ rs) = (if in_region key r then 1 else 0) + owners key rs

below_Tiles :
    (key a b : Bytes) (rs : List Region)
    → Tiles a b rs
    → compare_bytes key a ≡ Ordering.lt
    → owners key rs ≡ 0
unfolding owners check_key_in_region
below_Tiles key a b [] t h = absurd t
below_Tiles key a b (r ∷ []) t h = ground arith
below_Tiles key a b (r ∷ s ∷ rs) t h =
    ground
      (arith, below_Tiles key r.end_key b (s ∷ rs) t.3, compare_bytes_trans key a r.end_key h t.2)

Tiles-order :
    (a b : Bytes) (rs : List Region) → Tiles a b rs → (b ≡ []) ⊎ (compare_bytes a b ≡ Ordering.lt)
Tiles-order a b [] t = absurd t
Tiles-order a b (r ∷ []) t = t.2
Tiles-order a b (r ∷ s ∷ rs) t = elim (Tiles-order r.end_key b (s ∷ rs) t.3) [
  | inl e ↦ inl e
  | inr o ↦ inr (compare_bytes_trans a r.end_key b t.2 o)
]

abbrev pub ends_before : Bytes → Bytes → Bool
ends_before key b = if is_empty b then true else is_lt (compare_bytes key b)

pub owners-Tiles :
    (key a b : Bytes) (rs : List Region)
    → Tiles a b rs
    → owners key rs ≡ (if not (is_lt (compare_bytes key a)) && ends_before key b then 1 else 0)
unfolding owners check_key_in_region
owners-Tiles key a b [] t = absurd t
owners-Tiles key a b (r ∷ []) t = ground arith
owners-Tiles key a b (r ∷ s ∷ rs) t =
    let m = r.end_key in
    let order = Tiles-order m b (s ∷ rs) t.3 in
    let tail = owners-Tiles key m b (s ∷ rs) t.3 in
    elim (Bool-cases (is_lt (compare_bytes key m))) [
      | inl p ↦
          let below = below_Tiles key m b (s ∷ rs) t.3 (ground arith) in
          ground (arith, below, order, compare_bytes_trans key m b)
      | inr p ↦ ground (arith, tail, compare_bytes_trans key a m)
    ]
