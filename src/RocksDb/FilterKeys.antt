-- ===== src/RocksDb/FilterKeys.antt =====
-- A table's filter matches its keys and their prefixes.
use unistore.Region.Range.{eq_of_compare_bytes}
use unistore.Base.{
  [], ◌∷◌, ◌+◌, ◌||◌, ◌==◌, not, true, false, inl, inr, ◌≡◌, ℕ, Bytes, List, ◌≢◌, length, ◌++◌, All,
  ◌⊎◌, ◌<◌, ◌≤◌, get_last_or, subst, refl, arith, sym, length-append, Bool, Bool-cases, ◌∙◌,
}
use unistore.RocksDb.Bloom.{FullFilterBitsBuilder, add_key_hash, bloom_hash}
use unistore.RocksDb.Filter.{FullFilterBlockBuilder, bytes_equal, add_key, add_whole_key}

unfoldable pub Holds : {A : Type 0} → A → List A → Type 0
Holds h [] = ⊥
Holds h (x ∷ xs) = (h ≡ x) ⊎ Holds h xs

pub Holds-nil : {A : Type 0} → (h : A) → ¬ Holds h []
unfolding Holds
Holds-nil h p = p

pub Holds-cons : {A : Type 0} → (h x : A) (xs : List A) → Holds h (x ∷ xs) → (h ≡ x) ⊎ Holds h xs
unfolding Holds
Holds-cons h x xs p = p

Holds-append_left : (h : ℕ) (xs ys : List ℕ) → Holds h xs → Holds h (xs ++ ys)
unfolding Holds
Holds-append_left h [] ys p = absurd p
Holds-append_left h (x ∷ xs) ys (inl e) = inl e
Holds-append_left h (x ∷ xs) ys (inr p) = inr (Holds-append_left h xs ys p)

Holds-append_last : (h : ℕ) (xs : List ℕ) → Holds h (xs ++ (h ∷ []))
unfolding Holds
Holds-append_last h [] = inl refl
Holds-append_last h (x ∷ xs) = inr (Holds-append_last h xs)

Holds-get_last_or : (d : ℕ) (x : ℕ) (xs : List ℕ) → Holds (get_last_or d (x ∷ xs)) (x ∷ xs)
unfolding Holds
Holds-get_last_or d x [] = inl refl
Holds-get_last_or d x (y ∷ xs) = inr (Holds-get_last_or x y xs)

pub All-Holds : (P : ℕ → Type 0) (h : ℕ) (xs : List ℕ) → All P xs → Holds h xs → P h
unfolding Holds
All-Holds P h [] a p = absurd p
All-Holds P h (x ∷ xs) a (inl e) = subst P (sym e) a.0
All-Holds P h (x ∷ xs) a (inr p) = All-Holds P h xs a.1 p

pub Holds-length : (h : ℕ) (xs : List ℕ) → Holds h xs → 0 < length xs
unfolding Holds
Holds-length h [] p = absurd p
Holds-length h (x ∷ xs) p = omega arith

-- What a builder keeps while keys are added to it.
pub record Step (b b' : FullFilterBlockBuilder) (n : ℕ) : Type 0 where
  pub keeps : (h : ℕ) → Holds h b.bits_builder.hash_entries → Holds h b'.bits_builder.hash_entries
  pub count : length b'.bits_builder.hash_entries ≤ length b.bits_builder.hash_entries + n
  pub same_bits : b'.bits_builder.bits_per_key ≡ b.bits_builder.bits_per_key
  pub same_probes : b'.bits_builder.num_probes ≡ b.bits_builder.num_probes
  pub same_extractor : b'.prefix_extractor ≡ b.prefix_extractor
  pub same_filtering : b'.whole_key_filtering ≡ b.whole_key_filtering

-- What the last key and the last prefix stand for.
pub record IsRecorded (b : FullFilterBlockBuilder) : Type 0 where
  pub whole :
      b.last_whole_key_recorded ≡ true
      → Holds (bloom_hash b.last_whole_key) b.bits_builder.hash_entries
  pub prefix : b.last_prefix ≢ [] → Holds (bloom_hash b.last_prefix) b.bits_builder.hash_entries
  pub counted : 0 < length b.bits_builder.hash_entries → 0 < b.num_added

add_key_hash_cases :
    (b : FullFilterBitsBuilder) (key : Bytes)
    → (add_key_hash b key ≡ record b { hash_entries = b.hash_entries ++ (bloom_hash key ∷ []) })
      ⊎ ((add_key_hash b key ≡ b) × Holds (bloom_hash key) b.hash_entries)
unfolding add_key_hash
add_key_hash_cases b key = split b.hash_entries refl
  where
    split :
        (es : List ℕ)
        → es ≡ b.hash_entries
        → (add_key_hash b key ≡ record b { hash_entries = b.hash_entries ++ (bloom_hash key ∷ []) })
          ⊎ ((add_key_hash b key ≡ b) × Holds (bloom_hash key) b.hash_entries)
    split [] e = inl (ground (arith, e))
    split (x ∷ es) e = elim (Bool-cases (bloom_hash key == get_last_or 0 b.hash_entries)) [
      | inl t ↦
          let last : bloom_hash key ≡ get_last_or 0 b.hash_entries = ground (arith, t) in
          let h : Holds (get_last_or 0 b.hash_entries) b.hash_entries =
            subst (λ l. Holds (get_last_or 0 l) l) e (Holds-get_last_or 0 x es) in
          inr (ground (arith, e, t), subst (λ v. Holds v b.hash_entries) (sym last) h)
      | inr t ↦ inl (ground (arith, e, t))
    ]

Holds-add_key_hash :
    (b : FullFilterBitsBuilder) (key : Bytes)
    → Holds (bloom_hash key) (add_key_hash b key).hash_entries
Holds-add_key_hash b key = elim (add_key_hash_cases b key) [
  | inl e ↦ rw e (Holds-append_last (bloom_hash key) b.hash_entries)
  | inr (e, h) ↦ rw e h
]

keeps-add_key_hash :
    (b : FullFilterBitsBuilder) (key : Bytes) (h : ℕ)
    → Holds h b.hash_entries
    → Holds h (add_key_hash b key).hash_entries
keeps-add_key_hash b key h p = elim (add_key_hash_cases b key) [
  | inl e ↦ rw e (Holds-append_left h b.hash_entries (bloom_hash key ∷ []) p)
  | inr (e, q) ↦ rw e p
]

Step-add_key : (b : FullFilterBlockBuilder) (key : Bytes) → Step b (add_key b key) 1
unfolding add_key
Step-add_key b key = record {
  keeps = keeps-add_key_hash b.bits_builder key;
  count = elim (add_key_hash_cases b.bits_builder key) [
    | inl e ↦ rw e (omega (arith, length-append b.bits_builder.hash_entries (bloom_hash key ∷ [])))
    | inr (e, q) ↦ rw e (omega arith)
  ];
  same_bits = elim (add_key_hash_cases b.bits_builder key) [
    | inl e ↦ rw e refl
    | inr (e, q) ↦ rw e refl
  ];
  same_probes = elim (add_key_hash_cases b.bits_builder key) [
    | inl e ↦ rw e refl
    | inr (e, q) ↦ rw e refl
  ];
  same_extractor = refl;
  same_filtering = refl;
}

pub Step_none : (b : FullFilterBlockBuilder) (n : ℕ) → Step b b n
Step_none b n = record {
  keeps = λ h p. p;
  count = omega arith;
  same_bits = refl;
  same_probes = refl;
  same_extractor = refl;
  same_filtering = refl;
}

pub Step-trans :
    (a b c : FullFilterBlockBuilder) (n m : ℕ) → Step a b n → Step b c m → Step a c (n + m)
Step-trans a b c n m s t = record {
  keeps = λ h p. t.keeps h (s.keeps h p);
  count = omega (arith, s.count, t.count);
  same_bits = t.same_bits ∙ s.same_bits;
  same_probes = t.same_probes ∙ s.same_probes;
  same_extractor = t.same_extractor ∙ s.same_extractor;
  same_filtering = t.same_filtering ∙ s.same_filtering;
}

pub bytes_equal_lem : (a b : Bytes) → bytes_equal a b ≡ true → a ≡ b
unfolding bytes_equal
bytes_equal_lem a b e = eq_of_compare_bytes a b (ground arith)

-- The builder after an added hash, whichever key or prefix it takes as the last one.
abbrev pub Adds : FullFilterBlockBuilder → FullFilterBlockBuilder → Bytes → Type 0
Adds b b' key = Step b b' 1 × IsRecorded b' × Holds (bloom_hash key) b'.bits_builder.hash_entries

pub add_key-Adds :
    (b : FullFilterBlockBuilder) (key : Bytes) → IsRecorded b → Adds b (add_key b key) key
unfolding add_key
add_key-Adds b key r =
    let keep = keeps-add_key_hash b.bits_builder key in
    (
      Step-add_key b key,
      record {
        whole = λ e. keep _ (r.whole e);
        prefix = λ e. keep _ (r.prefix e);
        counted = λ e. omega arith;
      },
      Holds-add_key_hash b.bits_builder key,
    )

pub add_whole_key-Adds :
    (b : FullFilterBlockBuilder) (with_prefix : Bool) (key : Bytes)
    → IsRecorded b
    → Adds b (add_whole_key b with_prefix key) key
unfolding add_whole_key
add_whole_key-Adds b false key r = add_key-Adds b key r
add_whole_key-Adds b true key r =
    elim (Bool-cases (not b.last_whole_key_recorded || not (bytes_equal b.last_whole_key key))) [
      | inl e ↦ rw e (anew (add_key-Adds b key r))
      | inr e ↦
          let same : b.last_whole_key ≡ key =
            bytes_equal_lem b.last_whole_key key (ground (arith, e)) in
          let on : b.last_whole_key_recorded ≡ true = ground (arith, e) in
          rw e (
            Step_none b 1,
            r,
            subst (λ k. Holds (bloom_hash k) b.bits_builder.hash_entries) same (r.whole on),
          )
    ]
  where
    anew :
        Adds b (add_key b key) key
        → Adds b
            (record (add_key b key) { last_whole_key_recorded = true; last_whole_key = key })
            key
    anew (s, q, h) = (
      record {
        keeps = s.keeps;
        count = s.count;
        same_bits = s.same_bits;
        same_probes = s.same_probes;
        same_extractor = s.same_extractor;
        same_filtering = s.same_filtering;
      },
      record { whole = λ e. h; prefix = q.prefix; counted = q.counted },
      h,
    )
