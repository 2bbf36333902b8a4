-- ===== src/PeerStorage/Term.antt =====
-- `Term` tells the term of every entry of the log, and of the last truncated one.
use unistore.Base.{
  ℕ, ◌+◌, ◌^◌, ◌-◌, ◌≤◌, ◌<◌, ◌≡◌, refl, ap, ◌∙◌, ok, err, arith, ltb, leb, if◌then◌else◌, ◌%◌,
}
use unistore.EntryCache.{Entry}
use unistore.PeerStorage.{
  PeerStorage, Engine, term, entries, compacted, out_of_bound, first_term, term_checked,
}
use unistore.PeerStorage.Limit.{limited}
use unistore.PeerStorage.Entries.{IsLog, entries-limited}

-- The terms at both ends of the log are known, and terms never fall along the log.
pub record HasTerms (ps : PeerStorage) (log : ℕ → Entry) : Type 0 where
  pub ordered : ps.apply_state.truncated_index ≤ ps.raft_state.last_index
  pub truncated : ps.apply_state.truncated_term ≡ (log ps.apply_state.truncated_index).term
  pub last : ps.last_term ≡ (log ps.raft_state.last_index).term
  pub grows : (i j : ℕ) → i ≤ j → (log i).term ≤ (log j).term

module _ (size : Entry → ℕ) (pos : (e : Entry) → 0 < size e) (log : ℕ → Entry)
    (indexed : (i : ℕ) → (log i).index ≡ i) where
  read_term :
      (ps : PeerStorage) (engine : Engine) (idx : ℕ)
      → IsLog ps engine log
      → ps.apply_state.truncated_index < idx
      → idx ≤ ps.raft_state.last_index
      → first_term (entries size engine (2 ^ 64 - 1) ps idx (idx + 1)).1 ≡ ok (log idx).term
  unfolding limited
  read_term ps engine idx v l h =
      let one : idx + 1 - idx ≡ 1 = omega arith in
      ap first_term (
        entries-limited size pos (2 ^ 64 - 1) log indexed ps engine idx (idx + 1) v l (omega arith)
          (omega arith))
      ∙ rw one refl

  -- The three ways to a term after the range check: the shortcut for one term, the last entry, and
  -- the entry itself.
  checked_term :
      (ps : PeerStorage) (engine : Engine) (idx : ℕ)
      → IsLog ps engine log
      → HasTerms ps log
      → ps.apply_state.truncated_index < idx
      → idx ≤ ps.raft_state.last_index
      → (term_checked size engine (ok tt) ps idx).1 ≡ ok (log idx).term
  checked_term ps engine idx v t l h =
      let wrapped : (idx + 1) % 2 ^ 64 ≡ idx + 1 = omega (arith, v.fits) in
      let found : first_term (entries size engine (2 ^ 64 - 1) ps idx ((idx + 1) % 2 ^ 64)).1
          ≡ ok (log idx).term =
        rw wrapped (read_term ps engine idx v l h) in
      ground (
        arith,
        found,
        t.last,
        t.truncated,
        t.grows ps.apply_state.truncated_index idx,
        t.grows idx ps.raft_state.last_index,
        ap (λ i. (log i).term) {x = idx} {y = ps.raft_state.last_index},
      )

  -- Where every entry has a positive size, for a peer that holds its log, in which the terms grow
  -- and are those of its states, and an index whose successor fits 64 bits, Term answers the
  -- entry's term from the truncated index to the last index, that the index is compacted below,
  -- and that it is out of bound above.
  pub term_lem :
      (ps : PeerStorage) (engine : Engine) (idx : ℕ)
      → IsLog ps engine log
      → HasTerms ps log
      → idx + 1 < 2 ^ 64
      → (term size engine ps idx).1 ≡ (
          if ltb idx ps.apply_state.truncated_index
          then err compacted
          else if leb idx ps.raft_state.last_index
          then ok (log idx).term
          else err out_of_bound)
  unfolding term
  term_lem ps engine idx v t small =
      let wrapped : (idx + 1) % 2 ^ 64 ≡ idx + 1 = omega arith in
      rw wrapped (
        ground (
          arith,
          t.truncated,
          t.ordered,
          ap (λ i. (log i).term) {x = idx} {y = ps.apply_state.truncated_index},
          checked_term ps engine idx v t,
        ))
