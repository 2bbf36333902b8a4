-- ===== src/PeerStorage/Fetch.antt =====
-- Both ways of reading the engine return the entries of the range, as far as the limit allows.
use unistore.Base.{
  ℕ, zero, suc, ◌+◌, ◌-◌, ◌≤◌, ◌<◌, ◌≡◌, refl, sym, ap, ◌∙◌, ltb, leb, ◌==◌, false, List, [], ◌∷◌,
  ◌++◌, append-nil, append_assoc, length, ok, some, ◌⊎◌, inl, inr, arith, Bool-cases,
}
use native.Mathlib.Decide.{dec_lt}
use unistore.EntryCache.{Entry}
use unistore.PeerStorage.{
  Engine, fetch_few, fetch_many, fetch_engine, is_nil, push, enough, raft_log_multi_get_cnt,
}
use unistore.PeerStorage.Limit.{segment, length-segment, limited, limited_over}

-- The engine holds the entries of the log from index `i` on, `k` of them.
abbrev pub Holds : Engine → (ℕ → Entry) → ℕ → ℕ → Type 0
Holds engine log i k = (j : ℕ) → i ≤ j → j < i + k → engine j ≡ some (log j)

module _ (size : Entry → ℕ) (pos : (e : Entry) → 0 < size e) (max_size : ℕ) (log : ℕ → Entry)
    (indexed : (i : ℕ) → (log i).index ≡ i) where
  -- `total` bytes were read for `seg`, after `before` bytes: if the limit is exceeded nothing that
  -- follows is taken, and if it is not all of `seg` is.
  abbrev pub Read : ℕ → List Entry → ℕ → Type 0
  Read before seg total =
      (max_size < total
        → (ys : List Entry)
        → limited size max_size before (seg ++ ys) ≡ limited size max_size before seg)
      × (total ≤ max_size
          → (ys : List Entry)
          → limited size max_size before (seg ++ ys) ≡ seg ++ limited size max_size total ys)

  Read-nil : (total : ℕ) → (total ≡ 0) ⊎ (total ≤ max_size) → Read total [] total
  Read-nil total h = (λ k ys. absurd (omega arith), λ k ys. refl)

  -- The entry fits, and the rest is read after it.
  Read-cons :
      (before total : ℕ) (e : Entry) (seg : List Entry)
      → before + size e ≤ max_size
      → Read (before + size e) seg total
      → Read before (e ∷ seg) total
  unfolding limited
  Read-cons before total e seg h r =
      (λ k ys. ground (arith, r.0 k ys), λ k ys. ground (arith, r.1 k ys))

  -- The entry exceeds the limit.
  Read-over :
      (before : ℕ) (e : Entry) (seg : List Entry)
      → max_size < before + size e
      → Read before (e ∷ seg) (before + size e)
  unfolding limited
  Read-over before e seg h = (
    λ k ys. ground (
      arith,
      pos e,
      limited_over size max_size (before + size e) seg pos,
      limited_over size max_size (before + size e) (seg ++ ys) pos,
    ),
    λ k ys. absurd (omega arith),
  )

  -- What the first entry adds to the buffer, in each of the three cases.
  limited_fits :
      (before : ℕ) (e : Entry) (es : List Entry)
      → before + size e ≤ max_size
      → limited size max_size before (e ∷ es) ≡ e ∷ limited size max_size (before + size e) es
  unfolding limited
  limited_fits before e es h = ground arith

  limited_exceeds :
      (before : ℕ) (e : Entry) (es buf : List Entry)
      → is_nil buf ≡ (before == 0)
      → max_size < before + size e
      → push max_size buf (before + size e) e ≡ buf ++ limited size max_size before (e ∷ es)
  unfolding limited
  limited_exceeds before e es [] n h =
      ground (arith, pos e, limited_over size max_size (before + size e) es pos)
  limited_exceeds before e es (b ∷ buf) n h = ground (arith, append-nil buf)

  is_nil-push : (buf : List Entry) (e : Entry) → is_nil (buf ++ (e ∷ [])) ≡ false
  is_nil-push [] e = refl
  is_nil-push (b ∷ buf) e = refl

  -- The result of reading `k` entries into `buf`, by either loop.
  abbrev Result : ℕ → ℕ → ℕ → List Entry → List Entry → ℕ → Type 0
  Result i k before buf out total =
      (out ≡ buf ++ limited size max_size before (segment log i k))
      × Read before (segment log i k) total

  -- One round that fits, in front of the rounds that follow.
  Result-cons :
      (i k before total : ℕ) (buf out : List Entry)
      → before + size (log i) ≤ max_size
      → Result (suc i) k (before + size (log i)) (buf ++ (log i ∷ [])) out total
      → Result i (suc k) before buf out total
  Result-cons i k before total buf out h (e, r) = (
    e
        ∙ append_assoc buf (log i ∷ []) _
        ∙ ap (λ t. buf ++ t) (sym (limited_fits before (log i) (segment log (suc i) k) h)),
    Read-cons before total (log i) (segment log (suc i) k) h r,
  )

  Result-over :
      (i k before : ℕ) (buf : List Entry)
      → is_nil buf ≡ (before == 0)
      → max_size < before + size (log i)
      → Result i
          (suc k)
          before
          buf
          (push max_size buf (before + size (log i)) (log i))
          (before + size (log i))
  Result-over i k before buf n h = (
    limited_exceeds before (log i) (segment log (suc i) k) buf n h,
    Read-over before (log i) (segment log (suc i) k) h,
  )

  -- The engine's next entry, and those after it.
  Holds-head : (engine : Engine) (i k : ℕ) → Holds engine log i (suc k) → engine i ≡ some (log i)
  Holds-head engine i k h = h i (omega arith) (omega arith)

  Holds-tail : (engine : Engine) (i k : ℕ) → Holds engine log i (suc k) → Holds engine log (suc i) k
  Holds-tail engine i k h = λ j a b. h j (omega arith) (omega arith)

  pub fetch_few-limited :
      (engine : Engine) (k i total : ℕ) (buf : List Entry)
      → Holds engine log i k
      → is_nil buf ≡ (total == 0)
      → (total ≡ 0) ⊎ (total ≤ max_size)
      → (out : List Entry) × (t : ℕ) × (fetch_few size engine max_size i k total buf ≡ ok (out, t))
        × Result i k total buf out t
  unfolding fetch_few limited
  fetch_few-limited engine zero i total buf h n w =
      (buf, total, refl, (sym (append-nil buf), Read-nil total w))
  fetch_few-limited engine (suc k) i total buf h n w =
      elim (dec_lt max_size (total + size (log i))) [
        | yes over ↦ (
          push max_size buf (total + size (log i)) (log i),
          total + size (log i),
          ground (arith, Holds-head engine i k h, indexed i),
          Result-over i k total buf n over,
        )
        | no fits ↦
            let (out, t, e, r) =
              fetch_few-limited engine k (suc i) (total + size (log i)) (buf ++ (log i ∷ []))
                (Holds-tail engine i k h) (ground (arith, is_nil-push buf (log i), pos (log i)))
                (inr (omega arith)) in
            (
              out,
              t,
              ground (arith, e, Holds-head engine i k h, indexed i),
              Result-cons i k total t buf out (omega arith) r,
            )
      ]

  pub fetch_many-limited :
      (engine : Engine) (k i total : ℕ) (buf : List Entry)
      → Holds engine log i k
      → is_nil buf ≡ (total == 0)
      → (total ≡ 0) ⊎ (total ≤ max_size)
      → (out : List Entry) × (t : ℕ) × (fetch_many size engine max_size i k i total buf
          ≡ (out, t, ltb max_size t))
        × Result i k total buf out t
  unfolding fetch_many limited
  fetch_many-limited engine zero i total buf h n w =
      (buf, total, ground arith, (sym (append-nil buf), Read-nil total w))
  fetch_many-limited engine (suc k) i total buf h n w =
      elim (dec_lt max_size (total + size (log i))) [
        | yes over ↦ (
          push max_size buf (total + size (log i)) (log i),
          total + size (log i),
          ground (arith, Holds-head engine i k h, indexed i),
          Result-over i k total buf n over,
        )
        | no fits ↦
            let (out, t, e, r) =
              fetch_many-limited engine k (suc i) (total + size (log i)) (buf ++ (log i ∷ []))
                (Holds-tail engine i k h) (ground (arith, is_nil-push buf (log i), pos (log i)))
                (inr (omega arith)) in
            (
              out,
              t,
              ground (arith, e, Holds-head engine i k h, indexed i),
              Result-cons i k total t buf out (omega arith) r,
            )
      ]

  pub all-Read :
      (seg : List Entry) (t : ℕ) → Read 0 seg t → t ≤ max_size → limited size max_size 0 seg ≡ seg
  unfolding limited
  all-Read seg t r h =
      ap (limited size max_size 0) (sym (append-nil seg)) ∙ r.1 h [] ∙ append-nil seg

  -- The iterator read all entries or met the limit.
  is_enough :
      (engine : Engine) (n low t : ℕ) (out : List Entry)
      → out ≡ limited size max_size 0 (segment log low n)
      → Read 0 (segment log low n) t
      → enough size engine max_size n (out, t, ltb max_size t)
        ≡ ok (limited size max_size 0 (segment log low n), t)
  is_enough engine n low t out o r = elim (dec_lt max_size t) [
    | yes over ↦ ground (arith, o)
    | no fits ↦ ground (
      arith,
      o,
      ap length o,
      ap length (all-Read (segment log low n) t r (omega arith)),
      length-segment log low n,
    )
  ]

  -- Over an engine that holds the range, fetchEntriesTo returns the first entry and what fits
  -- after it by either of its two loops, and the total it reports says whether all of the range
  -- was read.
  pub fetch_engine-limited :
      (engine : Engine) (low high : ℕ)
      → low ≤ high
      → Holds engine log low (high - low)
      → (t : ℕ) × (fetch_engine size engine max_size low high
          ≡ ok (limited size max_size 0 (segment log low (high - low)), t))
        × Read 0 (segment log low (high - low)) t
  unfolding fetch_engine
  fetch_engine-limited engine low high l h =
      let n = high - low in
      let (out, t, e, (o, r)) = fetch_few-limited engine n low 0 [] h refl (inl refl) in
      let (out', t', e', (o', r')) = fetch_many-limited engine n low 0 [] h refl (inl refl) in
      elim (Bool-cases (leb n raft_log_multi_get_cnt)) [
        | inl few ↦ (t, rw few (e ∙ ap (λ x. ok (x, t)) o), r)
        | inr many ↦ (
          t',
          rw many (ap (enough size engine max_size n) e' ∙ is_enough engine n low t' out' o' r'),
          r',
        )
      ]
