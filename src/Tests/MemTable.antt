-- ===== src/Tests/MemTable.antt =====
-- A concrete ordered map, which meets what the store asks of its table: a list of entries, of which
-- the first with a key counts.
use unistore.Base.{
  Ordering, List, ◌∷◌, Bytes, compare_bytes, Option, ◌≢◌, All, inl, [], ◌≡◌, arith, ◌⊎◌, subst, inr,
  some, none, ap₂, ap, sym, refl, ◌∙◌,
}
use unistore.Region.Range.{compare_bytes-swap, eq_of_compare_bytes, compare_bytes_refl}
use unistore.Store.{MemStore, Ascending, Sorted, Among, is_some}
use unistore.Store.KeyOrder.{Lt, Le, lt_irrefl, lt_trans, eq_or_ne, lt_or_le}
use unistore.RaftMessage.{is_none}

abbrev pub Entries : Type 0
Entries = List (Bytes × Bytes)

order_cases : (o : Ordering) → (o ≡ Ordering.lt) ⊎ ((o ≡ Ordering.eq) ⊎ (o ≡ Ordering.gt))
order_cases Ordering.lt = inl refl
order_cases Ordering.eq = inr (inl refl)
order_cases Ordering.gt = inr (inr refl)

-- `same` for an equal key, and the other for another.
abbrev pub by_key {ℓ} : {A : Type ℓ} → Bytes → Bytes → A → A → A
by_key k j same other = elim (compare_bytes k j) [ Ordering.eq ↦ same | _ ↦ other ]

unfoldable pub get : Entries → Bytes → Option Bytes
get [] k = none
get (e ∷ es) k = by_key k e.0 (some e.1) (get es k)

unfoldable pub erase_key : Entries → Bytes → Entries
erase_key [] k = []
erase_key (e ∷ es) k = let rest = erase_key es k in by_key k e.0 rest (e ∷ rest)

unfoldable pub place : Bytes × Bytes → Entries → Entries
place x [] = x ∷ []
place x (e ∷ es) = elim (compare_bytes x.0 e.0) [
  | Ordering.lt ↦ x ∷ e ∷ es
  | Ordering.eq ↦ x ∷ es
  | Ordering.gt ↦ e ∷ place x es
]

unfoldable pub seek : Entries → Bytes → Entries
unfolding place
seek [] k = []
seek (e ∷ es) k =
    let rest = seek es k in elim (compare_bytes e.0 k) [ Ordering.lt ↦ rest | _ ↦ place e rest ]

not_eq : (k j : Bytes) → k ≢ j → compare_bytes k j ≢ Ordering.eq
not_eq k j n e = n (eq_of_compare_bytes k j e)

pub get-cons : (e : Bytes × Bytes) (es : Entries) (k : Bytes) → k ≡ e.0 → get (e ∷ es) k ≡ some e.1
unfolding get
get-cons e es k h = ground (arith, compare_bytes_refl k, ap (λ j. compare_bytes k j) h)

pub get-cons_ne :
    (e : Bytes × Bytes) (es : Entries) (k : Bytes) → k ≢ e.0 → get (e ∷ es) k ≡ get es k
unfolding get
get-cons_ne e es k h = ground (arith, not_eq k e.0 h)

pub get-erase_key : (es : Entries) (k : Bytes) → get (erase_key es k) k ≡ none
unfolding get erase_key
get-erase_key [] k = refl
get-erase_key (e ∷ es) k = elim (eq_or_ne k e.0) [
  | inl h ↦ ground (arith, get-erase_key es k, compare_bytes_refl k, ap (λ j. compare_bytes k j) h)
  | inr h ↦ ground (arith, get-erase_key es k, not_eq k e.0 h)
]

pub get-erase_key_ne : (es : Entries) (k j : Bytes) → j ≢ k → get (erase_key es k) j ≡ get es j
unfolding get erase_key
get-erase_key_ne [] k j n = refl
get-erase_key_ne (e ∷ es) k j n = elim (eq_or_ne k e.0) [
  | inl h ↦ ground (
    arith,
    get-erase_key_ne es k j n,
    compare_bytes_refl k,
    ap (λ i. compare_bytes k i) h,
    not_eq j k n,
    ap (λ i. compare_bytes j i) h,
  )
  | inr h ↦ ground (arith, get-erase_key_ne es k j n, not_eq k e.0 h)
]

place_lt :
    (x e : Bytes × Bytes) (es : Entries)
    → compare_bytes x.0 e.0 ≡ Ordering.lt
    → place x (e ∷ es) ≡ x ∷ e ∷ es
unfolding place
place_lt x e es o = ground arith

place_eq :
    (x e : Bytes × Bytes) (es : Entries)
    → compare_bytes x.0 e.0 ≡ Ordering.eq
    → place x (e ∷ es) ≡ x ∷ es
unfolding place
place_eq x e es o = ground arith

place_gt :
    (x e : Bytes × Bytes) (es : Entries)
    → compare_bytes x.0 e.0 ≡ Ordering.gt
    → place x (e ∷ es) ≡ e ∷ place x es
unfolding place
place_gt x e es o = ground arith

seek_lt : (e : Bytes × Bytes) (es : Entries) (k : Bytes) → Lt e.0 k → seek (e ∷ es) k ≡ seek es k
unfolding seek
seek_lt e es k l = ground arith

place-Ascending :
    (k : Bytes) (x : Bytes × Bytes) (es : Entries)
    → Lt k x.0
    → Ascending k es
    → Ascending k (place x es)
unfolding place
place-Ascending k x [] l s = (l, tt)
place-Ascending k x (e ∷ es) l s = elim (order_cases (compare_bytes x.0 e.0)) [
  | inl o ↦ rw (place_lt x e es o) (l, (o, s.1))
  | inr (inl o) ↦
      rw (place_eq x e es o)
        (l, subst (λ j. Ascending j es) (sym (eq_of_compare_bytes x.0 e.0 o)) s.1)
  | inr (inr o) ↦
      rw (place_gt x e es o)
        (s.0, place-Ascending e.0 x es (ground (arith, compare_bytes-swap x.0 e.0)) s.1)
]

place-Sorted : (x : Bytes × Bytes) (es : Entries) → Sorted es → Sorted (place x es)
unfolding place
place-Sorted x [] s = tt
place-Sorted x (e ∷ es) s = elim (order_cases (compare_bytes x.0 e.0)) [
  | inl o ↦ rw (place_lt x e es o) (o, s)
  | inr (inl o) ↦
      rw (place_eq x e es o) (subst (λ j. Ascending j es) (sym (eq_of_compare_bytes x.0 e.0 o)) s)
  | inr (inr o) ↦
      rw (place_gt x e es o)
        (place-Ascending e.0 x es (ground (arith, compare_bytes-swap x.0 e.0)) s)
]

seek_le :
    (e : Bytes × Bytes) (es : Entries) (k : Bytes)
    → Le k e.0
    → seek (e ∷ es) k ≡ place e (seek es k)
unfolding seek
seek_le e es k l = ground arith

pub seek-Sorted : (es : Entries) (k : Bytes) → Sorted (seek es k)
unfolding seek
seek-Sorted [] k = tt
seek-Sorted (e ∷ es) k = elim (lt_or_le e.0 k) [
  | inl l ↦ rw (seek_lt e es k l) (seek-Sorted es k)
  | inr l ↦ rw (seek_le e es k l) (place-Sorted e (seek es k) (seek-Sorted es k))
]

Ascending-Sorted : (k : Bytes) (es : Entries) → Ascending k es → Sorted es
Ascending-Sorted k [] s = tt
Ascending-Sorted k (e ∷ es) s = s.1

module _ (P : Bytes × Bytes → Type 0) where
  All-later :
      (k j : Bytes) (es : Entries)
      → Le j k
      → Ascending k es
      → All (λ e. e.0 ≢ j → P e) es
      → All P es
  All-later k j [] l s h = tt
  All-later k j (e ∷ es) l s h = (
    h.0 (λ q. l (subst (λ i. Lt k i) q s.0)),
    All-later e.0 j es (λ m. l (lt_trans k e.0 j s.0 m)) s.1 h.1,
  )

  All-place :
      (x : Bytes × Bytes) (es : Entries)
      → P x
      → Sorted es
      → All (λ e. e.0 ≢ x.0 → P e) es
      → All P (place x es)
  unfolding place
  All-place x [] p s h = (p, tt)
  All-place x (e ∷ es) p s h = elim (order_cases (compare_bytes x.0 e.0)) [
    | inl o ↦ rw (place_lt x e es o) (p, All-later x.0 x.0 (e ∷ es) (lt_irrefl x.0) (o, s) h)
    | inr (inl o) ↦ rw (place_eq x e es o) (
      p,
      All-later e.0 x.0 es
          (λ m. lt_irrefl e.0 (subst (λ i. Lt e.0 i) (eq_of_compare_bytes x.0 e.0 o) m)) s h.1,
    )
    | inr (inr o) ↦ rw (place_gt x e es o) (
      h.0 (λ q. ground (arith, compare_bytes_refl x.0, ap (λ i. compare_bytes x.0 i) q)),
      All-place x es p (Ascending-Sorted e.0 es s) h.1,
    )
  ]

All-weaken :
    (P Q : Bytes × Bytes → Type 0) (es : Entries)
    → ((e : Bytes × Bytes) → P e → Q e)
    → All P es
    → All Q es
All-weaken P Q [] f h = tt
All-weaken P Q (e ∷ es) f h = (f e h.0, All-weaken P Q es f h.1)

-- What an iterator has of a table.
abbrev pub Held : Entries → Bytes → Bytes × Bytes → Type 0
Held t k e = (get t e.0 ≡ some e.1) × (compare_bytes e.0 k ≢ Ordering.lt)

pub seek-holds : (t : Entries) (k : Bytes) → All (Held t k) (seek t k)
unfolding seek
seek-holds [] k = tt
seek-holds (e ∷ es) k = elim (lt_or_le e.0 k) [
  | inl l ↦ rw (seek_lt e es k l) (
      All-weaken (Held es k) (Held (e ∷ es) k) (seek es k)
        (λ x h. (get-cons_ne e es x.0 (λ q. h.1 (subst (λ i. Lt i k) (sym q) l)) ∙ h.0, h.1))
        (seek-holds es k))
  | inr l ↦ rw (seek_le e es k l) (
      All-place (Held (e ∷ es) k) e (seek es k) (get-cons e es e.0 refl, l) (seek-Sorted es k)
        (All-weaken (Held es k) (λ x. x.0 ≢ e.0 → Held (e ∷ es) k x) (seek es k)
          (λ x h n. (get-cons_ne e es x.0 n ∙ h.0, h.1)) (seek-holds es k)))
]

Among-place : (x : Bytes × Bytes) (es : Entries) → Among x (place x es)
unfolding place
Among-place x [] = inl refl
Among-place x (e ∷ es) = elim (order_cases (compare_bytes x.0 e.0)) [
  | inl o ↦ rw (place_lt x e es o) (inl refl)
  | inr (inl o) ↦ rw (place_eq x e es o) (inl refl)
  | inr (inr o) ↦ rw (place_gt x e es o) (inr (Among-place x es))
]

Among-place_ne :
    (x a : Bytes × Bytes) (es : Entries) → a.0 ≢ x.0 → Among a es → Among a (place x es)
unfolding place
Among-place_ne x a [] n h = absurd h
Among-place_ne x a (e ∷ es) n h = elim (order_cases (compare_bytes x.0 e.0)) [
  | inl o ↦ rw (place_lt x e es o) (inr h)
  | inr (inl o) ↦ rw (place_eq x e es o) (elim h [
    | inl same ↦
        absurd (n (ap (λ (p : Bytes × Bytes). p.0) same ∙ sym (eq_of_compare_bytes x.0 e.0 o)))
    | inr later ↦ inr later
  ])
  | inr (inr o) ↦
      rw (place_gt x e es o)
        (elim h [ inl same ↦ inl same | inr later ↦ inr (Among-place_ne x a es n later) ])
]

pub seek-all :
    (t : Entries) (k j v : Bytes)
    → get t j ≡ some v
    → compare_bytes j k ≢ Ordering.lt
    → Among (j, v) (seek t k)
unfolding seek
seek-all [] k j v g h = absurd (unfold get in ground arith)
seek-all (e ∷ es) k j v g h = elim (eq_or_ne j e.0) [
  | inl q ↦
      let vs : e.1 ≡ v = cc (get-cons e es j q) in
      let l : Le k e.0 = subst (λ i. Le k i) q h in
      let pair : e ≡ (j, v) = ap₂ (λ a b. (a, b)) (sym q) vs in
      rw (seek_le e es k l)
        (subst (λ a. Among a (place e (seek es k))) pair (Among-place e (seek es k)))
  | inr n ↦
      let rest = seek-all es k j v (sym (get-cons_ne e es j n) ∙ g) h in
      elim (lt_or_le e.0 k) [
        | inl l ↦ rw (seek_lt e es k l) rest
        | inr l ↦ rw (seek_le e es k l) (Among-place_ne e (j, v) (seek es k) n rest)
      ]
]

abbrev pub mem_table : MemStore Entries
mem_table = record {
  get = get;
  put = λ t k v. ((k, v) ∷ t, is_none (get t k));
  delete = λ t k. (erase_key t k, is_some (get t k));
  seek = seek;
  get-put = λ t k v. get-cons (k, v) t k refl;
  get-put_ne = λ t k v j n. get-cons_ne (k, v) t j n;
  put-reports = λ t k v. refl;
  get-delete = get-erase_key;
  get-delete_ne = get-erase_key_ne;
  delete-reports = λ t k. refl;
  seek-Sorted = seek-Sorted;
  seek-holds = seek-holds;
  seek-all = seek-all;
}
