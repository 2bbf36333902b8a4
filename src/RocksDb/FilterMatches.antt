-- ===== src/RocksDb/FilterMatches.antt =====
-- The filter of a table matches the hash of each key that was added and of its prefix.
use native.Mathlib.Nat.{mul-le-mul_right}
use unistore.Base.{
  [], ◌∷◌, Option, some, none, ◌+◌, suc, ◌||◌, not, true, false, inl, inr, Bool, Bytes,
  if◌then◌else◌, ◌≡◌, ℕ, Bool-cases, ◌≢◌, ◌⊎◌, arith, subst, sym, ◌∙◌, ap, List, ◌<◌, ◌*◌, refl,
  length, ◌^◌, ◌-◌, subst₂, ◌≤◌,
}
use unistore.RocksDb.Bloom.{bloom_hash, finish_bits}
use unistore.RocksDb.BloomMatches.{may_match, finish_bits-may_match}
use unistore.RocksDb.Filter.{
  SliceTransform, FullFilterBlockBuilder, bytes_equal, add_key, add_whole_key, add_prefix,
  prefix_of, add_filter_key, add_filter_keys, finish_filter, new_full_filter_block_builder,
  after_whole, add_with_prefix,
}
use unistore.RocksDb.FilterKeys.{
  Holds, All-Holds, Step, IsRecorded, Adds, add_key-Adds, add_whole_key-Adds, Step_none, Step-trans,
  bytes_equal_lem, Holds-length, Holds-nil, Holds-cons,
}

-- A builder that takes the prefix as the last one, or has it as the last one.
add_prefix_lem :
    (b : FullFilterBlockBuilder) (p : Bytes)
    → IsRecorded b
    → Step b (add_prefix b p) 1
      × IsRecorded (add_prefix b p)
      × ((b.whole_key_filtering ≡ true → p ≢ [])
          → Holds (bloom_hash p) (add_prefix b p).bits_builder.hash_entries)
add_prefix_lem b p r = elim (Bool-cases b.whole_key_filtering) [
  | inr w ↦
      let (s, q, h) = add_key-Adds b p r in
      let e : add_prefix b p ≡ add_key b p = unfold add_prefix in ground (arith, w) in
      subst Goal (sym e) (s, q, λ n. h)
  | inl w ↦ elim (Bool-cases (not b.last_whole_key_recorded || not (bytes_equal b.last_prefix p))) [
    | inl t ↦
        let b' = record (add_key b p) { last_prefix_recorded = true; last_prefix = p } in
        let e : add_prefix b p ≡ b' = unfold add_prefix in ground (arith, w, t) in
        subst Goal (sym e) (anew (add_key-Adds b p r))
    | inr t ↦
        let same : b.last_prefix ≡ p = bytes_equal_lem b.last_prefix p (ground (arith, t)) in
        let e : add_prefix b p ≡ b = unfold add_prefix in ground (arith, w, t) in
        subst Goal (sym e) (
          Step_none b 1,
          r,
          λ n.
              subst (λ k. Holds (bloom_hash k) b.bits_builder.hash_entries) same
                (r.prefix (subst (λ k. k ≢ []) (sym same) (n w))),
        )
  ]
]
  where
    Goal : FullFilterBlockBuilder → Type 0
    Goal b' =
        Step b b' 1
        × IsRecorded b'
        × ((b.whole_key_filtering ≡ true → p ≢ [])
            → Holds (bloom_hash p) b'.bits_builder.hash_entries)

    anew :
        Adds b (add_key b p) p
        → Goal (record (add_key b p) { last_prefix_recorded = true; last_prefix = p })
    anew (s, q, h) = (
      record {
        keeps = s.keeps;
        count = s.count;
        same_bits = s.same_bits;
        same_probes = s.same_probes;
        same_extractor = s.same_extractor;
        same_filtering = s.same_filtering;
      },
      record { whole = q.whole; prefix = λ n. h; counted = q.counted },
      λ n. h,
    )

-- A hash that a reader of the table asks for when it looks for a key.
abbrev pub IsAsked : Option SliceTransform → Bool → Bytes → ℕ → Type 0
IsAsked extractor whole key hash =
    ((whole ≡ true) × (hash ≡ bloom_hash key))
    ⊎ ((p : Bytes) × (prefix_of extractor key ≡ some p)
        × (whole ≡ true → p ≢ [])
        × (hash ≡ bloom_hash p))

abbrev Asked : FullFilterBlockBuilder → FullFilterBlockBuilder → Bytes → Type 0
Asked b b' key =
    (hash : ℕ)
    → IsAsked b.prefix_extractor b.whole_key_filtering key hash
    → Holds hash b'.bits_builder.hash_entries

-- The whole key, where the builder takes whole keys.
take_whole :
    (b : FullFilterBlockBuilder) (with_prefix : Bool) (key : Bytes)
    → IsRecorded b
    → let b1 = after_whole b with_prefix key in
      Step b b1 1
      × IsRecorded b1
      × (b.whole_key_filtering ≡ true → Holds (bloom_hash key) b1.bits_builder.hash_entries)
take_whole b with_prefix key r = elim (Bool-cases b.whole_key_filtering) [
  | inl w ↦
      let (s, q, h) = add_whole_key-Adds b with_prefix key r in
      let e = ap (λ t. if t then add_whole_key b with_prefix key else b) w in
      subst Goal (sym e) (s, q, λ _. h)
  | inr w ↦
      let e = ap (λ t. if t then add_whole_key b with_prefix key else b) w in
      subst Goal (sym e) (Step_none b 1, r, λ t. absurd (cc))
]
  where
    Goal : FullFilterBlockBuilder → Type 0
    Goal b1 =
        Step b b1 1
        × IsRecorded b1
        × (b.whole_key_filtering ≡ true → Holds (bloom_hash key) b1.bits_builder.hash_entries)

add_filter_key_lem :
    (b : FullFilterBlockBuilder) (key : Bytes)
    → IsRecorded b
    → Step b (add_filter_key b key) 2
      × IsRecorded (add_filter_key b key)
      × Asked b (add_filter_key b key) key
add_filter_key_lem b key r = split (prefix_of b.prefix_extractor key) refl
  where
    Goal : FullFilterBlockBuilder → Type 0
    Goal b' = Step b b' 2 × IsRecorded b' × Asked b b' key

    split : (o : Option Bytes) → prefix_of b.prefix_extractor key ≡ o → Goal (add_filter_key b key)
    split none e =
        let (s, q, h) = take_whole b false key r in
        let b1 = after_whole b false key in
        let t : add_filter_key b key ≡ b1 =
          unfold add_filter_key add_with_prefix in ap (add_with_prefix b key) e in
        subst Goal (sym t) (
          Step-trans b b1 b1 1 1 s (Step_none b1 1),
          q,
          λ hash a. elim a [
            | inl (w, z) ↦ subst (λ v. Holds v b1.bits_builder.hash_entries) (sym z) (h w)
            | inr (p, f, n, z) ↦ absurd (cc)
          ],
        )
    split (some p) e =
        let (s, q, h) = take_whole b true key r in
        let b1 = after_whole b true key in
        let b2 = add_prefix b1 p in
        let (s2, q2, h2) = add_prefix_lem b1 p q in
        let t : add_filter_key b key ≡ b2 =
          unfold add_filter_key add_with_prefix in ap (add_with_prefix b key) e in
        subst Goal (sym t) (
          Step-trans b b1 b2 1 1 s s2,
          q2,
          λ hash a. elim a [
            | inl (w, z) ↦
                subst (λ v. Holds v b2.bits_builder.hash_entries) (sym z) (s2.keeps _ (h w))
            | inr (p', f, n, z) ↦
                let same : p' ≡ p = cc in
                let asks : b1.whole_key_filtering ≡ true → p ≢ [] =
                  λ w. subst (λ v. v ≢ []) same (n (sym s.same_filtering ∙ w)) in
                subst (λ v. Holds v b2.bits_builder.hash_entries) (sym (z ∙ ap bloom_hash same))
                  (h2 asks)
          ],
        )

add_filter_keys_lem :
    (b : FullFilterBlockBuilder) (keys : List Bytes)
    → IsRecorded b
    → let b' = add_filter_keys b keys in
      Step b b' (2 * length keys)
      × IsRecorded b'
      × ((key : Bytes) → Holds key keys → Asked b b' key)
unfolding add_filter_keys
add_filter_keys_lem b [] r = (Step_none b 0, r, λ key h. absurd (Holds-nil key h))
add_filter_keys_lem b (k ∷ keys) r =
    let (s, q, a) = add_filter_key_lem b k r in
    let b1 = add_filter_key b k in
    let b2 = add_filter_keys b1 keys in
    let (s2, q2, a2) = add_filter_keys_lem b1 keys q in
    let n : 2 + 2 * length keys ≡ 2 * suc (length keys) = omega arith in
    (
      subst (Step b b2) n (Step-trans b b1 b2 2 (2 * length keys) s s2),
      q2,
      λ key h hash asks. elim (Holds-cons key k keys h) [
        | inl e ↦
            s2.keeps hash
              (a hash (subst (λ x. IsAsked b.prefix_extractor b.whole_key_filtering x hash) e asks))
        | inr p ↦ a2 key p hash (
            subst₂ (λ x w. IsAsked x w key hash) (sym s.same_extractor) (sym s.same_filtering) asks)
      ],
    )

finish_filter_lem :
    (b : FullFilterBlockBuilder) (filter : Bytes)
    → 0 < b.num_added
    → finish_bits b.bits_builder ≡ some filter
    → finish_filter b ≡ some (record b { num_added = 0 }, filter)
unfolding finish_filter
finish_filter_lem b filter p e = ground (arith, e)

-- A filter that is built from keys, of which twice the number times the bits per key stays below
-- 2^32 - 1024, with less than 256 probes, is finished without a panic and matches the hash of
-- each key, if it takes whole keys, and of each key's prefix, if the key has one and it is not
-- empty or the filter takes no whole keys.
pub finish_filter-may_match :
    (extractor : Option SliceTransform) (whole : Bool) (bits_per_key num_probes : ℕ)
    (keys : List Bytes) (key : Bytes) (hash : ℕ)
    → 2 * length keys * bits_per_key < 2 ^ 32 - 1024
    → num_probes < 256
    → Holds key keys
    → IsAsked extractor whole key hash
    → (b : FullFilterBlockBuilder) × (filter : Bytes) × (finish_filter (
          add_filter_keys
            (new_full_filter_block_builder extractor whole bits_per_key num_probes)
            keys)
        ≡ some (b, filter))
      × (may_match filter hash ≡ true)
finish_filter-may_match extractor whole bits_per_key num_probes keys key hash small probes there
      asks =
    let b0 = new_full_filter_block_builder extractor whole bits_per_key num_probes in
    let b = add_filter_keys b0 keys in
    let fresh : IsRecorded b0 =
      unfold new_full_filter_block_builder in
      record {
        whole = λ e. absurd (cc);
        prefix = λ n. absurd (n refl);
        counted = λ e. absurd (omega arith);
      } in
    let (s, q, a) = add_filter_keys_lem b0 keys fresh in
    let entries = b.bits_builder.hash_entries in
    let held : Holds hash entries =
      a key there hash (unfold new_full_filter_block_builder in asks) in
    let some_entry = Holds-length hash entries held in
    let few : length entries ≤ 2 * length keys =
      unfold new_full_filter_block_builder in omega (arith, s.count) in
    let bits : b.bits_builder.bits_per_key ≡ bits_per_key =
      s.same_bits ∙ unfold new_full_filter_block_builder in refl in
    let np : b.bits_builder.num_probes ≡ num_probes =
      s.same_probes ∙ unfold new_full_filter_block_builder in refl in
    let room : length entries * b.bits_builder.bits_per_key < 2 ^ 32 - 1024 =
      rw bits (omega (arith, mul-le-mul_right bits_per_key few)) in
    let (filter, e, m) = finish_bits-may_match b.bits_builder some_entry room (omega (arith, np)) in
    let match = All-Holds (λ h. may_match filter h ≡ true) hash entries m held in
    let counted = q.counted some_entry in
    (record b { num_added = 0 }, filter, finish_filter_lem b filter counted e, match)
