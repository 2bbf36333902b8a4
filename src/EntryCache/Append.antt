-- ===== src/EntryCache/Append.antt =====
-- What the cache holds after new entries came in, and after it is compacted.
use native.Mathlib.Decide.{dec_lt}
use unistore.Base.{
  ℕ, ◌+◌, ◌-◌, ◌≤◌, ◌<◌, ◌≡◌, ◌≢◌, refl, ltb, if◌then◌else◌, List, [], ◌∷◌, ◌++◌, length, take,
  drop, get_last_or, none, some, arith, subst, sym, ◌⊎◌, ◌↔◌, min, length-take, ◌∙◌, ap,
  length-drop, length-append,
}
use unistore.EntryCache.{Entry, append_entries, compact_to, max_cache_capacity, cut_cache, trim}
use unistore.EntryCache.Indexed.{
  From, entry_at, From-last, entry_at_above, entry_at_below, From-take, entry_at-take, From-append,
  From-drop, entry_at-drop, entry_at-append,
}

-- Consecutive entries from some index on, no more than the capacity.
pub record IsCache (cache : List Entry) : Type 0 where
  pub low : ℕ
  pub indexed : From low cache
  pub bounded : length cache ≤ max_cache_capacity

cut_some :
    (n first : ℕ) (e : Entry) (es : List Entry)
    → From n (e ∷ es)
    → n < first
    → ¬ (n + length es < first)
    → cut_cache (e ∷ es) first ≡ some (take (first - n) (e ∷ es))
unfolding cut_cache
cut_some n first e es h k l =
    let last = From-last n e es h in
    let count : length (e ∷ es) - ((get_last_or e es).index - first + 1) ≡ first - n =
      omega (arith, last) in
    rw (← count) (ground (arith, last))

-- What `cut_cache` keeps is below the new entries, and they follow on it.
cut_cache_lem :
    (n first : ℕ) (cache : List Entry)
    → From n cache
    → (cache ≡ []) ⊎ (first ≤ n + length cache)
    → (left : List Entry) × (m : ℕ) × (cut_cache cache first ≡ some left)
      × From m left
      × (m + length left ≡ first)
      × ((i : ℕ) → entry_at i left ≡ (if ltb i first then entry_at i cache else none))
unfolding cut_cache entry_at
cut_cache_lem n first [] h k = ([], first, refl, tt, omega arith, λ i. ground arith)
cut_cache_lem n first (e ∷ es) h k = elim (dec_lt (n + length es) first) [
  | yes above ↦ (
    e ∷ es,
    n,
    ground (arith, From-last n e es h),
    h,
    ground arith,
    λ i. ground (arith, entry_at_above n i (e ∷ es) h),
  )
  | no within ↦ elim (dec_lt n first) [
    | no all ↦ (
      [],
      first,
      ground (arith, From-last n e es h),
      tt,
      omega arith,
      λ i. ground (arith, entry_at_below n i (e ∷ es) h),
    )
    | yes some_left ↦ (
      take (first - n) (e ∷ es),
      n,
      cut_some n first e es h some_left within,
      From-take n (first - n) (e ∷ es) h,
      omega (arith, length-take (first - n) (e ∷ es)),
      λ i.
          entry_at-take n (first - n) i (e ∷ es) h
          ∙ ap (λ b. if ltb i b then entry_at i (e ∷ es) else none) (omega arith),
    )
  ]
]

trim_lem :
    (n : ℕ) (cache : List Entry)
    → From n cache
    → From (n + (length cache - max_cache_capacity)) (trim cache)
      × (length (trim cache) ≡ min (length cache) max_cache_capacity)
      × ((i : ℕ)
          → entry_at i (trim cache)
            ≡ (if ltb (i + max_cache_capacity) (n + length cache) then none else entry_at i cache))
unfolding trim
trim_lem n cache h = elim (dec_lt max_cache_capacity (length cache)) [
  | yes over ↦
      let count = length cache - max_cache_capacity in
      let e : trim cache ≡ drop count cache = unfold trim in ground arith in
      rw e (
        From-drop n count cache h,
        omega (arith, length-drop count cache),
        λ i. ground (arith, entry_at-drop n count i cache h),
      )
  | no fits ↦
      let e : trim cache ≡ cache = unfold trim in ground arith in
      rw e (
        subst (λ m. From m cache) (omega arith) h,
        omega arith,
        λ i. ground (arith, entry_at_below n i cache h),
      )
]

-- For consecutive entries that leave no gap to a cache of consecutive entries, append returns a
-- cache of at most 1023 consecutive entries that looks up, above the capacity's bound, the new
-- entries from their first index on and the old ones before it.
pub append_entries-entry_at :
    (n : ℕ) (cache : List Entry) (e : Entry) (entries : List Entry)
    → From n cache
    → From e.index (e ∷ entries)
    → (cache ≡ []) ⊎ (e.index ≤ n + length cache)
    → (result : List Entry) × (append_entries cache (e ∷ entries) ≡ some result)
      × IsCache result
      × ((i : ℕ)
          → entry_at i result ≡ (
              if ltb (i + max_cache_capacity) (e.index + length (e ∷ entries))
              then none
              else if ltb i e.index
              then entry_at i cache
              else entry_at i (e ∷ entries)))
unfolding append_entries
append_entries-entry_at n cache e entries h k g =
    let (left, m, p, l, len, at_left) = cut_cache_lem n e.index cache h g in
    let k' : From (m + length left) (e ∷ entries) = subst (λ j. From j (e ∷ entries)) (sym len) k in
    let whole = left ++ (e ∷ entries) in
    let (indexed, count, at_trim) = trim_lem m whole (From-append m left (e ∷ entries) l k') in
    let total = length-append left (e ∷ entries) in
    (
      trim whole,
      rw p refl,
      record { low = _; indexed = indexed; bounded = omega arith },
      λ i. ground (arith, at_trim i, total, at_left i, entry_at-append m i left (e ∷ entries) l k'),
    )

-- Append to a cache of consecutive entries panics exactly if the cache is not empty and the new
-- entries leave a gap after it.
pub append_entries-eq-none_iff :
    (n : ℕ) (cache : List Entry) (e : Entry) (entries : List Entry)
    → From n cache
    → (append_entries cache (e ∷ entries) ≡ none) ↔ ((cache ≢ []) × (n + length cache < e.index))
unfolding append_entries
append_entries-eq-none_iff n [] e entries h = (λ p. ground arith, λ p. absurd (p.0 refl))
append_entries-eq-none_iff n (x ∷ cache) e entries h =
    (λ p. ground (arith, From-last n x cache h), λ p. ground (arith, From-last n x cache h))

-- CompactTo leaves a cache of consecutive entries that looks up the old entries from the index on
-- and nothing before it.
pub compact_to-entry_at :
    (n : ℕ) (cache : List Entry) (idx i : ℕ)
    → From n cache
    → (entry_at i (compact_to cache idx) ≡ (if ltb i idx then none else entry_at i cache))
      × ((m : ℕ) × From m (compact_to cache idx))
unfolding compact_to
compact_to-entry_at n [] idx i h = (unfold entry_at in ground arith, (n, tt))
compact_to-entry_at n (x ∷ cache) idx i h = elim (dec_lt idx x.index) [
  | yes before ↦
      let e : compact_to (x ∷ cache) idx ≡ x ∷ cache = ground arith in
      rw e (ground (arith, entry_at_below n i (x ∷ cache) h), (n, h))
  | no after ↦
      let count = min (idx - x.index) (length (x ∷ cache)) in
      let e : compact_to (x ∷ cache) idx ≡ drop count (x ∷ cache) = ground arith in
      rw e (
        ground
            (arith, entry_at-drop n count i (x ∷ cache) h, entry_at_above n i (x ∷ cache) h, h.0),
        (_, From-drop n count (x ∷ cache) h),
      )
]
