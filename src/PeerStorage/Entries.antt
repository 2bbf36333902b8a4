-- ===== src/PeerStorage/Entries.antt =====
-- `Entries` reads the log, from the engine, the cache or both.
use native.Mathlib.Decide.{dec_lt}
use unistore.Base.{
  ℕ, zero, suc, ◌+◌, ◌-◌, ◌^◌, ◌≤◌, ◌<◌, ◌≡◌, refl, sym, ap, ap₂, ◌∙◌, ltb, ◌==◌, if◌then◌else◌,
  not, List, [], ◌∷◌, ◌++◌, append-nil, append_assoc, take, drop, ok, none, some, ◌⊎◌, inl, inr,
  arith, Bool-cases, ◌&&◌, ltb→lt,
}
use unistore.EntryCache.{Entry, collect, fetch_entries_to, front}
use unistore.PeerStorage.{
  PeerStorage, Engine, entries, fetch_engine, cache_low_of, in_range, check_range, if_checked,
}
use unistore.PeerStorage.Limit.{segment, segment-append, limited}
use unistore.PeerStorage.Fetch.{Read, all-Read, fetch_engine-limited}

-- The peer's log: the engine holds every entry after the truncated ones, and the cache, if it is
-- not empty, holds the newest ones.
pub record IsLog (ps : PeerStorage) (engine : Engine) (log : ℕ → Entry) : Type 0 where
  pub stored :
      (j : ℕ)
      → ps.apply_state.truncated_index < j
      → j ≤ ps.raft_state.last_index
      → engine j ≡ some (log j)
  pub fits : ps.raft_state.last_index + 1 < 2 ^ 64
  pub cached :
      (ps.cache ≡ [])
      ⊎ ((c : ℕ) × (k : ℕ) × (ps.cache ≡ segment log c (suc k))
          × (c + k ≡ ps.raft_state.last_index))

drop-take-segment :
    (log : ℕ → Entry) (a b c n : ℕ)
    → a ≤ b
    → b ≤ n
    → drop a (take b (segment log c n)) ≡ segment log (c + a) (b - a)
drop-take-segment log zero zero c n h k = refl
drop-take-segment log zero (suc b) c zero h k = absurd (omega arith)
drop-take-segment log zero (suc b) c (suc n) h k =
    ap (λ t. log c ∷ t) (drop-take-segment log zero b (suc c) n (omega arith) (omega arith))
    ∙ ap₂ (λ m r. log c ∷ segment log m r) (omega arith) (omega arith)
    ∙ ap₂ (segment log) (omega arith) (let e : suc b ≡ suc b - 0 = omega arith in e)
drop-take-segment log (suc a) zero c n h k = absurd (omega arith)
drop-take-segment log (suc a) (suc b) c zero h k = absurd (omega arith)
drop-take-segment log (suc a) (suc b) c (suc n) h k =
    drop-take-segment log a b (suc c) n (omega arith) (omega arith)
    ∙ ap₂ (segment log) (omega arith) (omega arith)

module _ (size : Entry → ℕ) (pos : (e : Entry) → 0 < size e) (max_size : ℕ) (log : ℕ → Entry)
    (indexed : (i : ℕ) → (log i).index ≡ i) where
  collect-limited :
      (k i fetched : ℕ) (ents : List Entry)
      → (t : ℕ) × (collect size max_size i fetched ents (segment log i k)
          ≡ some (ents ++ limited size max_size fetched (segment log i k), t))
  unfolding collect limited
  collect-limited zero i fetched ents =
      (fetched, ap (λ l. some (l, fetched)) (sym (append-nil ents)))
  collect-limited (suc k) i fetched ents =
      elim (Bool-cases
        (not (fetched + size (log i) == size (log i)) && ltb max_size (fetched + size (log i)))) [
          | inl stop ↦ (fetched + size (log i), ground (arith, indexed i, append-nil ents))
          | inr more ↦
              let (t, e) =
                collect-limited k (suc i) (fetched + size (log i)) (ents ++ (log i ∷ [])) in
              (
                t,
                ground (
                  arith,
                  e,
                  indexed i,
                  append_assoc ents (log i ∷ [])
                      (limited size max_size (fetched + size (log i)) (segment log (suc i) k)),
                ),
              )
        ]

  fetch_entries_to-limited :
      (cache : List Entry) (c k begin high fetched : ℕ) (ents : List Entry)
      → cache ≡ segment log c (suc k)
      → c ≤ begin
      → begin < high
      → high ≤ c + suc k
      → (t : ℕ) × (fetch_entries_to size cache begin high max_size fetched ents
          ≡ some (ents ++ limited size max_size fetched (segment log begin (high - begin)), t))
  unfolding fetch_entries_to
  fetch_entries_to-limited cache c k begin high fetched ents p l m h =
      let (t, e) = collect-limited (high - begin) begin fetched ents in
      let part : drop (begin - c) (take (high - c) (segment log c (suc k)))
          ≡ segment log begin (high - begin) =
        drop-take-segment log (begin - c) (high - c) c (suc k) (omega arith) (omega arith)
        ∙ ap₂ (segment log) (omega arith) (omega arith) in
      (t, rw p (ground (arith, indexed c, ap (collect size max_size begin fetched ents) part ∙ e)))

  -- A range that begins in the engine and ends in the cache, as far as the limit allows.
  joined :
      (low c high t : ℕ)
      → low ≤ c
      → c ≤ high
      → Read size pos max_size log indexed 0 (segment log low (c - low)) t
      → (if ltb max_size t
          then limited size max_size 0 (segment log low (c - low))
          else limited size max_size 0 (segment log low (c - low))
            ++ limited size max_size t (segment log c (high - c)))
        ≡ limited size max_size 0 (segment log low (high - low))
  joined low c high t l h r =
      let whole : segment log low (high - low)
          ≡ segment log low (c - low) ++ segment log c (high - c) =
        ap (segment log low) (omega arith)
        ∙ segment-append log low (c - low) (high - c)
        ∙ ap (λ n. segment log low (c - low) ++ segment log n (high - c)) (omega arith) in
      elim (Bool-cases (ltb max_size t)) [
        | inl over ↦ rw over (rw whole (sym (r.0 (ltb→lt max_size t over) _)))
        | inr fits ↦ rw fits (
            rw whole (
              ap (λ s. s ++ limited size max_size t (segment log c (high - c)))
                (all-Read size pos max_size log indexed (segment log low (c - low)) t r
                  (ground arith))
              ∙ sym (r.1 (ground arith) _)))
      ]

  module _ (ps : PeerStorage) (engine : Engine) (low high : ℕ) (v : IsLog ps engine log)
      (l : ps.apply_state.truncated_index < low) (h : high ≤ ps.raft_state.last_index + 1) where
    from_engine :
        (to : ℕ)
        → low ≤ to
        → to ≤ high
        → (t : ℕ) × (fetch_engine size engine max_size low to
            ≡ ok (limited size max_size 0 (segment log low (to - low)), t))
          × Read size pos max_size log indexed 0 (segment log low (to - low)) t
    from_engine to m n =
        fetch_engine-limited size pos max_size log indexed engine low to m
          (λ j a b. v.stored j (omega arith) (omega arith))

    abbrev Answers : Type 0
    Answers =
        (in_range size engine max_size ps low high).1
        ≡ ok (limited size max_size 0 (segment log low (high - low)))

    -- Nothing of the range is in the cache.
    engine_only : low < high → high ≤ cache_low_of (front ps.cache) → Answers
    engine_only m n =
        let (t, e, r) = from_engine high (omega arith) (omega arith) in ground (arith, e)

    cached_part :
        (c k : ℕ)
        → ps.cache ≡ segment log c (suc k)
        → c + k ≡ ps.raft_state.last_index
        → low < high
        → Answers
    cached_part c k p last m =
        let first : front ps.cache ≡ some (log c) = unfold front in rw p refl in
        elim (dec_lt c high) [
          | no apart ↦ engine_only m (ground (arith, first, indexed c))
          | yes overlap ↦ elim (dec_lt low c) [
            | yes split ↦
                let (t, e, r) = from_engine c (omega arith) (omega arith) in
                let (t', f) =
                  fetch_entries_to-limited ps.cache c k c high t
                    (limited size max_size 0 (segment log low (c - low))) p (omega arith)
                    (omega arith) (omega arith) in
                ground
                  (arith, first, indexed c, e, f, joined low c high t (omega arith) (omega arith) r)
            | no inside ↦
                let (t, f) =
                  fetch_entries_to-limited ps.cache c k low high 0 [] p (omega arith) (omega arith)
                    (omega arith) in
                ground (arith, first, indexed c, f)
          ]
        ]

    nonempty_range : low < high → Answers
    nonempty_range m = elim v.cached [
      | inl p ↦
          let none_cached : front ps.cache ≡ none = unfold front in rw p refl in
          engine_only m (rw none_cached (omega (arith, v.fits)))
      | inr (c, k, p, last) ↦ cached_part c k p last m
    ]

    any_range : low ≤ high → Answers
    any_range m = elim (dec_lt low high) [
      | yes n ↦ nonempty_range n
      | no n ↦ let e : high - low ≡ 0 = omega arith in rw e (unfold limited in ground arith)
    ]

  -- Where every entry has a positive size, for a peer whose engine holds its log after the
  -- truncated index and whose cache, if not empty, holds the newest entries, Entries on a range
  -- of the log returns the first entry and the following ones as long as their total size stays
  -- within the limit, whichever of engine and cache they are read from.
  pub entries-limited :
      (ps : PeerStorage) (engine : Engine) (low high : ℕ)
      → IsLog ps engine log
      → ps.apply_state.truncated_index < low
      → low ≤ high
      → high ≤ ps.raft_state.last_index + 1
      → (entries size engine max_size ps low high).1
        ≡ ok (limited size max_size 0 (segment log low (high - low)))
  unfolding entries
  entries-limited ps engine low high v l m h =
      let checked : check_range ps low high ≡ ok tt = unfold check_range in ground arith in
      ap (λ o. (if_checked size engine max_size o ps low high).1) checked
      ∙ any_range ps engine low high v l h m
