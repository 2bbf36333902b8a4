-- ===== src/Store/KeyOrder.antt =====
-- The order of keys as relations.
use unistore.Region.{is_lt, is_gt}
use unistore.Base.{
  Bytes, arith, compare_bytes, ◌⊎◌, inl, ◌≡◌, Ordering, inr, Bool-cases, ◌≢◌, subst, sym, true,
  false,
}
use unistore.Region.Range.{
  compare_bytes-swap, eq_of_compare_bytes, compare_bytes_refl, compare_bytes_trans,
}

abbrev pub Lt : Bytes → Bytes → Type 0
Lt a b = compare_bytes a b ≡ Ordering.lt

abbrev pub Le : Bytes → Bytes → Type 0
Le a b = compare_bytes b a ≢ Ordering.lt

pub lt_irrefl : (a : Bytes) → ¬ (Lt a a)
lt_irrefl a h = ground (arith, compare_bytes_refl a)

pub lt_trans : (a b c : Bytes) → Lt a b → Lt b c → Lt a c
lt_trans a b c h k = compare_bytes_trans a b c h k

pub le_of_lt : (a b : Bytes) → Lt a b → Le a b
le_of_lt a b h k = lt_irrefl a (lt_trans a b a h k)

pub lt_or_le : (a b : Bytes) → Lt a b ⊎ Le b a
lt_or_le a b = elim (Bool-cases (is_lt (compare_bytes a b))) [
  | inl e ↦ inl (ground arith)
  | inr e ↦ inr (λ k. ground arith)
]

pub eq_of_le : (a b : Bytes) → Le a b → ¬ (Lt a b) → a ≡ b
eq_of_le a b h k = eq_of_compare_bytes a b (ground (arith, compare_bytes-swap a b))

pub lt_of_lt_of_le : (a b c : Bytes) → Lt a b → Le b c → Lt a c
lt_of_lt_of_le a b c h k = elim (lt_or_le b c) [
  | inl l ↦ lt_trans a b c h l
  | inr l ↦ subst (λ x. Lt a x) (eq_of_le b c k (λ m. l m)) h
]

pub lt_of_le_of_lt : (a b c : Bytes) → Le a b → Lt b c → Lt a c
lt_of_le_of_lt a b c h k = elim (lt_or_le a b) [
  | inl l ↦ lt_trans a b c l k
  | inr l ↦ subst (λ x. Lt x c) (sym (eq_of_le a b h (λ m. l m))) k
]

pub le_trans : (a b c : Bytes) → Le a b → Le b c → Le a c
le_trans a b c h k m = lt_irrefl c (lt_of_lt_of_le c a c m (λ n. h (lt_of_le_of_lt b c a k n)))

pub lt_or_eq : (a b : Bytes) → Le a b → Lt a b ⊎ (a ≡ b)
lt_or_eq a b h = elim (lt_or_le a b) [ inl l ↦ inl l | inr l ↦ inr (eq_of_le a b h (λ m. l m)) ]

-- The tests of the code.
pub is_gt_of_lt : (a b : Bytes) → Lt b a → is_gt (compare_bytes a b) ≡ true
is_gt_of_lt a b h = ground (arith, compare_bytes-swap b a)

pub is_gt_of_le : (a b : Bytes) → Le a b → is_gt (compare_bytes a b) ≡ false
is_gt_of_le a b h = ground (arith, compare_bytes-swap b a)

pub is_lt_of_lt : (a b : Bytes) → Lt a b → is_lt (compare_bytes a b) ≡ true
is_lt_of_lt a b h = ground arith

pub is_lt_of_le : (a b : Bytes) → Le b a → is_lt (compare_bytes a b) ≡ false
is_lt_of_le a b h = ground arith

pub le_antisymm : (a b : Bytes) → Le a b → Le b a → a ≡ b
le_antisymm a b h k = eq_of_le a b h k

pub eq_or_ne : (a b : Bytes) → (a ≡ b) ⊎ (a ≢ b)
eq_or_ne a b = elim (lt_or_le a b) [
  | inl l ↦ inr (λ e. lt_irrefl b (subst (λ x. Lt x b) e l))
  | inr l ↦ elim (lt_or_eq b a l) [
    | inl m ↦ inr (λ e. lt_irrefl b (subst (λ x. Lt b x) e m))
    | inr e ↦ inl (sym e)
  ]
]
