-- ===== src/PeerStorage/ReadySaved.antt =====
-- After a ready state is saved, the log that is read is the log with the new entries.
use unistore.PeerStorage.Limit.{segment}
use unistore.PeerStorage.Ready.{run_writes, append_writes, delete_from, put_entry}
use unistore.PeerStorage.{Engine}
use unistore.PeerStorage.ReadyLog.{
  appended, index_of_entry_at, entry_at-last, entry_at_inside, segment_of_entry_at, run_writes-put,
  run_writes-append, run_writes-delete, found_or,
}
use native.Mathlib.Decide.{dec_lt}
use unistore.Base.{
  ℕ, suc, ◌+◌, ◌-◌, ◌≤◌, ◌<◌, ◌≡◌, ◌⊎◌, inl, inr, sym, ap, ◌∙◌, ltb, if◌then◌else◌, List, [], ◌∷◌,
  map, length, get_last_or, none, some, arith, Option-cases, Bool-cases,
}
use unistore.EntryCache.{Entry, max_cache_capacity}
use unistore.EntryCache.Indexed.{From, entry_at, entry_at_below, entry_at_above, From-last}

module _ (log : ℕ → Entry) (indexed : (i : ℕ) → (log i).index ≡ i) (e : Entry) (es : List Entry)
    (new : From e.index (e ∷ es)) where
  abbrev new_log : ℕ → Entry
  new_log = appended log (e ∷ es)

  abbrev last : Entry
  last = get_last_or e es

  last_index : last.index ≡ e.index + length es
  last_index = From-last e.index e es new

  pub new_log-indexed : (i : ℕ) → (new_log i).index ≡ i
  unfolding appended
  new_log-indexed i = elim (Option-cases (entry_at i (e ∷ es))) [
    | inl p ↦ ground (arith, indexed i)
    | inr (x, p) ↦ ground (arith, index_of_entry_at i (e ∷ es) x p)
  ]

  new_log_new : (i : ℕ) → e.index ≤ i → i ≤ last.index → entry_at i (e ∷ es) ≡ some (new_log i)
  unfolding appended
  new_log_new i l h =
      let (x, q) = entry_at_inside e.index i (e ∷ es) new l (omega (arith, last_index)) in
      ground (arith, q)

  new_log_old : (i : ℕ) → i < e.index → new_log i ≡ log i
  unfolding appended
  new_log_old i h = ground (arith, entry_at_below e.index i (e ∷ es) new h)

  -- The engine after the entries, the deletions and any further writes of states.
  pub stored_new :
      (engine : Engine) (prev_last j : ℕ)
      → (j < e.index → engine j ≡ some (log j))
      → j ≤ last.index
      → run_writes engine (append_writes prev_last last (e ∷ es)) j ≡ some (new_log j)
  stored_new engine prev_last j old h =
      let deletes = delete_from (last.index + 1) (prev_last - last.index) in
      let written = run_writes engine (map put_entry (e ∷ es)) in
      let puts = run_writes-put (e ∷ es) e.index j engine new in
      ap (λ g. g j) (run_writes-append (map put_entry (e ∷ es)) deletes engine)
      ∙ run_writes-delete (prev_last - last.index) (last.index + 1) j written (omega arith)
      ∙ elim (dec_lt j e.index) [
        | yes l ↦
            puts
            ∙ ap (λ o. found_or o (engine j)) (entry_at_below e.index j (e ∷ es) new l)
            ∙ old l
            ∙ ap (λ x. some x) (sym (new_log_old j l))
        | no l ↦ puts ∙ ap (λ o. found_or o (engine j)) (new_log_new j (omega arith) h)
      ]

  -- What the new cache has is of the new log.
  known :
      (cache result : List Entry)
      → ((i : ℕ) → (entry_at i cache ≡ none) ⊎ (entry_at i cache ≡ some (log i)))
      → ((i : ℕ)
          → entry_at i result ≡ (
              if ltb (i + max_cache_capacity) (e.index + length (e ∷ es))
              then none
              else if ltb i e.index
              then entry_at i cache
              else entry_at i (e ∷ es)))
      → (i : ℕ) → (entry_at i result ≡ none) ⊎ (entry_at i result ≡ some (new_log i))
  unfolding appended
  known cache result old h i =
      elim (Bool-cases (ltb (i + max_cache_capacity) (e.index + length (e ∷ es)))) [
        | inl t ↦ inl (ground (arith, h i))
        | inr t ↦ elim (Bool-cases (ltb i e.index)) [
          | inl l ↦ elim (old i) [
            | inl o ↦ inl (ground (arith, h i))
            | inr o ↦ inr (ground (arith, h i, entry_at_below e.index i (e ∷ es) new))
          ]
          | inr l ↦ elim (Option-cases (entry_at i (e ∷ es))) [
            | inl p ↦ inl (ground (arith, h i))
            | inr (x, p) ↦ inr (ground (arith, h i))
          ]
        ]
      ]

  -- The cache after the entries were appended.
  pub cached_new :
      (cache result : List Entry) (low : ℕ)
      → From low result
      → ((i : ℕ) → (entry_at i cache ≡ none) ⊎ (entry_at i cache ≡ some (log i)))
      → ((i : ℕ)
          → entry_at i result ≡ (
              if ltb (i + max_cache_capacity) (e.index + length (e ∷ es))
              then none
              else if ltb i e.index
              then entry_at i cache
              else entry_at i (e ∷ es)))
      → (k : ℕ) × (result ≡ segment new_log low (suc k)) × (low + k ≡ last.index)
  cached_new cache [] low f old h = absurd (
      unfold entry_at in
      ground (
        arith,
        h last.index,
        last_index,
        new_log_new last.index (omega (arith, last_index)) (omega arith),
      ))
  cached_new cache (x ∷ xs) low f old h =
      let here = new_log_new last.index (omega (arith, last_index)) (omega arith) in
      let at_last = entry_at-last low x xs f in
      let seen : entry_at last.index (x ∷ xs) ≡ some (new_log last.index) =
        h last.index ∙ ground (arith, last_index, here) in
      let reached : ¬ (last.index < low) =
        λ l. absurd (ground (arith, seen, entry_at_below low last.index (x ∷ xs) f l)) in
      let within : ¬ (low + length (x ∷ xs) ≤ last.index) =
        λ l. absurd (ground (arith, seen, entry_at_above low last.index (x ∷ xs) f l)) in
      let not_beyond : ¬ (last.index < low + length xs) = λ l. absurd (
        ground (
          arith,
          at_last,
          h (low + length xs),
          last_index,
          entry_at_above e.index (low + length xs) (e ∷ es) new (omega (arith, last_index)),
        )) in
      (
        length xs,
        segment_of_entry_at new_log low (x ∷ xs) f (known cache (x ∷ xs) old h),
        omega arith,
      )
