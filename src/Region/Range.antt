-- ===== src/Region/Range.antt =====
-- The order of keys, and the three range checks.
use unistore.Base.{
  ◌≡◌, ◌≢◌, refl, ◌↔◌, ◌⊎◌, inl, inr, [], ◌∷◌, Bytes, compare_bytes, Ordering, ok, err, arith,
  Bool-cases, subst, not, ◌&&◌, ◌||◌,
}
use unistore.Region.{
  Region, is_lt, is_empty, key_not_in_region, check_key_in_region, check_key_in_region_exclusive,
  check_key_in_region_inclusive,
}

abbrev pub swap_order : Ordering → Ordering
swap_order Ordering.lt = Ordering.gt
swap_order Ordering.eq = Ordering.eq
swap_order Ordering.gt = Ordering.lt

pub compare_bytes-swap : (a b : Bytes) → compare_bytes b a ≡ swap_order (compare_bytes a b)
unfolding compare_bytes
compare_bytes-swap [] [] = refl
compare_bytes-swap [] (b ∷ bs) = refl
compare_bytes-swap (a ∷ as') [] = refl
compare_bytes-swap (a ∷ as') (b ∷ bs) = ground (arith, compare_bytes-swap as' bs)

pub eq_of_compare_bytes : (a b : Bytes) → compare_bytes a b ≡ Ordering.eq → a ≡ b
unfolding compare_bytes
eq_of_compare_bytes [] [] h = refl
eq_of_compare_bytes [] (b ∷ bs) h = ground arith
eq_of_compare_bytes (a ∷ as') [] h = ground arith
eq_of_compare_bytes (a ∷ as') (b ∷ bs) h = ground (arith, eq_of_compare_bytes as' bs)

pub compare_bytes_refl : (a : Bytes) → compare_bytes a a ≡ Ordering.eq
unfolding compare_bytes
compare_bytes_refl [] = refl
compare_bytes_refl (a ∷ as') = ground (arith, compare_bytes_refl as')

pub compare_bytes_trans :
    (a b c : Bytes)
    → compare_bytes a b ≡ Ordering.lt
    → compare_bytes b c ≡ Ordering.lt
    → compare_bytes a c ≡ Ordering.lt
unfolding compare_bytes
compare_bytes_trans [] [] c h k = cc
compare_bytes_trans [] (b ∷ bs) [] h k = cc
compare_bytes_trans [] (b ∷ bs) (c ∷ cs) h k = refl
compare_bytes_trans (a ∷ as') [] c h k = cc
compare_bytes_trans (a ∷ as') (b ∷ bs) [] h k = cc
compare_bytes_trans (a ∷ as') (b ∷ bs) (c ∷ cs) h k = ground (arith, compare_bytes_trans as' bs cs)

-- A key of a region by the half-open range, with no end for an empty end key.
abbrev pub InRange : Bytes → Region → Type 0
InRange key region =
    (compare_bytes region.start_key key ≢ Ordering.gt)
    × ((region.end_key ≡ []) ⊎ (compare_bytes key region.end_key ≡ Ordering.lt))

abbrev OrderFacts : Bytes → Region → Type 0
OrderFacts key region =
    (compare_bytes key region.start_key ≡ swap_order (compare_bytes region.start_key key))
    × (compare_bytes key region.start_key ≡ Ordering.eq → key ≡ region.start_key)
    × (key ≡ region.start_key → compare_bytes key region.start_key ≡ Ordering.eq)
    × (compare_bytes key region.end_key ≡ Ordering.eq → key ≡ region.end_key)
    × (key ≡ region.end_key → compare_bytes key region.end_key ≡ Ordering.eq)

orders : (key : Bytes) (region : Region) → OrderFacts key region
orders key region = (
  compare_bytes-swap region.start_key key,
  eq_of_compare_bytes key region.start_key,
  λ e. subst (λ k. compare_bytes key k ≡ Ordering.eq) e (compare_bytes_refl key),
  eq_of_compare_bytes key region.end_key,
  λ e. subst (λ k. compare_bytes key k ≡ Ordering.eq) e (compare_bytes_refl key),
)

-- CheckKeyInRegion accepts exactly the keys from the start key to before the end key, with no end
-- for an empty end key, and answers others with the error for the key and region.
pub check_key_in_region-InRange :
    (key : Bytes) (region : Region)
    → ((check_key_in_region key region ≡ ok tt) ↔ InRange key region)
      × (¬ InRange key region → check_key_in_region key region ≡ err (key_not_in_region key region))
unfolding check_key_in_region
check_key_in_region-InRange key region = (
  (λ e. ground (arith, orders key region), λ r. ground (arith, orders key region)),
  λ n.
      elim (Bool-cases (
        not (is_lt (compare_bytes key region.start_key))
        && (is_empty region.end_key || is_lt (compare_bytes key region.end_key)))) [
          | inl p ↦ absurd (n (ground (arith, orders key region)))
          | inr p ↦ rw p refl
        ],
)

-- The exclusive check accepts the keys of the range but the start key, and the inclusive check
-- those of the range and the end key if it is not before the start key.
check_key_in_region_ends :
    (key : Bytes) (region : Region)
    → ((check_key_in_region_exclusive key region ≡ ok tt)
        ↔ (InRange key region × (key ≢ region.start_key)))
      × ((check_key_in_region_inclusive key region ≡ ok tt) ↔ (
          InRange key region
          ⊎ ((key ≡ region.end_key) × (compare_bytes region.start_key key ≢ Ordering.gt))))
unfolding check_key_in_region_exclusive check_key_in_region_inclusive
check_key_in_region_ends key region = (
  (λ e. ground (arith, orders key region), λ r. ground (arith, orders key region)),
  (λ e. ground (arith, orders key region), λ r. ground (arith, orders key region)),
)
