-- ===== src/Store/Table.antt =====
-- What the table of key ranges holds for the regions of a store.
use unistore.Region.Range.{compare_bytes_refl}
use unistore.Region.{Region}
use unistore.Base.{
  Bytes, List, ◌≡◌, ◌∷◌, some, All, inl, ◌≢◌, compare_bytes, subst, Ordering, [], sym, ap, inr, ◌∙◌,
  arith, Dict, ℕ, lookup, Option-cases,
}
use unistore.Store.{
  MemStore, StoreMeta, Sorted, Ascending, Among, region_at, skip_equal, after_key, Bytes, Region,
  region_id_from_bytes,
}
use unistore.Store.KeyOrder.{Lt, Le, lt_trans, lt_irrefl, lt_or_eq, le_of_lt}

-- Each entry leads to a region that ends at its key. The regions are not empty and lie apart; a
-- region with no end has the empty key, which is before all others.
pub record IsTable {T : Type 0} (mem : MemStore T) (meta : StoreMeta T) : Type 0 where
  pub holds :
      (k b : Bytes)
      → mem.get meta.region_ranges k ≡ some b
      → (r : Region) × (region_at meta.regions b ≡ some r) × (r.end_key ≡ k)
  pub proper :
      (k b : Bytes) (r : Region)
      → mem.get meta.region_ranges k ≡ some b
      → region_at meta.regions b ≡ some r
      → k ≢ []
      → Lt r.start_key k
  pub apart :
      (k b : Bytes) (r : Region) (j c : Bytes) (s : Region)
      → mem.get meta.region_ranges k ≡ some b
      → region_at meta.regions b ≡ some r
      → mem.get meta.region_ranges j ≡ some c
      → region_at meta.regions c ≡ some s
      → Lt k j
      → Le k s.start_key

-- A key lies in the range of a region of the table, which has an end.
abbrev pub InTable : {T : Type 0} → MemStore T → StoreMeta T → Bytes → Type 0
InTable mem meta key =
    (k : Bytes) × (b : Bytes) × (r : Region) × (mem.get meta.region_ranges k ≡ some b)
    × (region_at meta.regions b ≡ some r)
    × Le r.start_key key
    × Lt key k

-- What a list of entries is that holds all entries after a key, in order.
abbrev pub IsAfter : {T : Type 0} → MemStore T → T → Bytes → List (Bytes × Bytes) → Type 0
IsAfter mem t k es =
    Ascending k es
    × All (λ e. mem.get t e.0 ≡ some e.1) es
    × ((j v : Bytes) → mem.get t j ≡ some v → Lt k j → Among (j, v) es)

All-held :
    {T : Type 0} (mem : MemStore T) (t : T) (k : Bytes) (es : List (Bytes × Bytes))
    → All (λ e. (mem.get t e.0 ≡ some e.1) × (compare_bytes e.0 k ≢ Ordering.lt)) es
    → All (λ e. mem.get t e.0 ≡ some e.1) es
All-held mem t k [] h = tt
All-held mem t k (e ∷ es) h = (h.0.0, All-held mem t k es h.1)

skip_equal_lt :
    (k : Bytes) (e : Bytes × Bytes) (es : List (Bytes × Bytes))
    → Lt k e.0
    → skip_equal k (e ∷ es) ≡ e ∷ es
skip_equal_lt k e es h = ground arith

pub skip_equal_eq :
    (k : Bytes) (e : Bytes × Bytes) (es : List (Bytes × Bytes))
    → compare_bytes k e.0 ≡ Ordering.eq
    → skip_equal k (e ∷ es) ≡ es
skip_equal_eq k e es h = ground arith

skip_equal-IsAfter :
    {T : Type 0} (mem : MemStore T) (t : T) (k : Bytes) (es : List (Bytes × Bytes))
    → Sorted es
    → All (λ e. (mem.get t e.0 ≡ some e.1) × (compare_bytes e.0 k ≢ Ordering.lt)) es
    → ((j v : Bytes) → mem.get t j ≡ some v → compare_bytes j k ≢ Ordering.lt → Among (j, v) es)
    → IsAfter mem t k (skip_equal k es)
skip_equal-IsAfter mem t k [] s h a =
    (tt, tt, λ j v e l. a j v e (λ m. lt_irrefl j (lt_trans j k j m l)))
skip_equal-IsAfter mem t k (e ∷ es) s h a = elim (lt_or_eq k e.0 h.0.1) [
  | inl l ↦
      rw (skip_equal_lt k e es l)
        ((l, s), All-held mem t k (e ∷ es) h, λ j v g m. a j v g (le_of_lt k j m))
  | inr q ↦
      let c : compare_bytes k e.0 ≡ Ordering.eq =
        subst (λ x. compare_bytes k x ≡ Ordering.eq) q (compare_bytes_refl k) in
      rw (skip_equal_eq k e es c) (
        subst (λ x. Ascending x es) (sym q) s,
        All-held mem t k es h.1,
        λ j v g m. elim (a j v g (le_of_lt k j m)) [
          | inl same ↦
              absurd
                (lt_irrefl k (subst (λ x. Lt k x) (ap (λ (p : Bytes × Bytes). p.0) same ∙ sym q) m))
          | inr later ↦ later
        ],
      )
]

pub seek-IsAfter :
    {T : Type 0} (mem : MemStore T) (t : T) (k : Bytes)
    → IsAfter mem t k (skip_equal k (mem.seek t k))
seek-IsAfter mem t k =
    skip_equal-IsAfter mem t k (mem.seek t k) (mem.seek-Sorted t k) (mem.seek-holds t k)
      (mem.seek-all t k)

pub after_key-IsAfter :
    {T : Type 0} (mem : MemStore T) (t : T) (k : Bytes) → IsAfter mem t k (after_key mem t k)
unfolding after_key
after_key-IsAfter mem t k = seek-IsAfter mem t k

-- Without its first entry, a list holds what is after that.
pub IsAfter-tail :
    {T : Type 0} (mem : MemStore T) (t : T) (k : Bytes) (e : Bytes × Bytes)
    (es : List (Bytes × Bytes))
    → IsAfter mem t k (e ∷ es)
    → IsAfter mem t e.0 es
IsAfter-tail mem t k e es (s, h, a) = (
  s.1,
  h.1,
  λ j v g m. elim (a j v g (lt_trans k e.0 j s.0 m)) [
    | inl same ↦
        absurd (lt_irrefl e.0 (subst (λ x. Lt e.0 x) (ap (λ (p : Bytes × Bytes). p.0) same) m))
    | inr later ↦ later
  ],
)

Among-le :
    (k : Bytes) (a : Bytes × Bytes) (es : List (Bytes × Bytes))
    → Ascending k es
    → Among a es
    → Lt k a.0
Among-le k a [] s m = absurd m
Among-le k a (e ∷ es) s m = elim m [
  | inl same ↦ subst (λ x. Lt k x) (ap (λ (p : Bytes × Bytes). p.0) (sym same)) s.0
  | inr later ↦ lt_trans k e.0 a.0 s.0 (Among-le e.0 a es s.1 later)
]

-- The first entry is the least.
pub first-Le :
    {T : Type 0} (mem : MemStore T) (t : T) (k : Bytes) (e : Bytes × Bytes)
    (es : List (Bytes × Bytes)) (j v : Bytes)
    → IsAfter mem t k (e ∷ es)
    → mem.get t j ≡ some v
    → Lt k j
    → Le e.0 j
first-Le mem t k e es j v (s, h, a) g l = elim (a j v g l) [
  | inl same ↦ λ m. lt_irrefl j (subst (λ x. Lt j x) (sym (ap (λ (p : Bytes × Bytes). p.0) same)) m)
  | inr later ↦ le_of_lt e.0 j (Among-le e.0 (j, v) es s.1 later)
]

pub region_at_parts :
    (regions : Dict Region) (b : Bytes) (r : Region)
    → region_at regions b ≡ some r
    → (id : ℕ) × (region_id_from_bytes b ≡ some id) × (lookup id regions ≡ some r)
unfolding region_at
region_at_parts regions b r e = elim (Option-cases (region_id_from_bytes b)) [
  | inl q ↦ absurd (ground arith)
  | inr (id, q) ↦ (id, q, ground arith)
]

pub region_at_of :
    (regions : Dict Region) (b : Bytes) (id : ℕ) (r : Region)
    → region_id_from_bytes b ≡ some id
    → lookup id regions ≡ some r
    → region_at regions b ≡ some r
unfolding region_at
region_at_of regions b id r p q = ground arith

pub ne-nil_of_lt : (a b : Bytes) → Lt a b → b ≢ []
unfolding compare_bytes
ne-nil_of_lt [] [] h e = ground arith
ne-nil_of_lt (x ∷ xs) [] h e = ground arith
ne-nil_of_lt a (x ∷ xs) h e = cc
