-- ===== src/PeerStorage/ReadyIsLog.antt =====
-- Saving a ready state and writing its batch keeps a peer's log readable.
use unistore.PeerStorage.ReadySaved.{cached_new, new_log-indexed, stored_new}
use unistore.EntryCache.Append.{append_entries-entry_at}
use unistore.PeerStorage.ReadyLog.{appended, From-segment, run_writes-append, entry_at-segment}
use unistore.PeerStorage.Limit.{segment, length-segment}
use unistore.Region.{Region}
use unistore.PeerStorage.Entries.{IsLog}
use unistore.State.{RaftState}
use unistore.PeerStorage.{HardState, PeerStorage, RaftState, Engine, Region}
use unistore.PeerStorage.Ready.{
  run_writes, save_ready_state, post_ready_persistent, InvokeContext, save_states,
  new_invoke_context, append_log, run_write, Ready, Saved, set_hard_state, append_context,
  put_raft_state, append_writes, same_raft_state,
}
use unistore.Base.{
  ℕ, suc, ◌+◌, ◌^◌, ◌≤◌, ◌<◌, ◌≡◌, ◌⊎◌, inl, inr, refl, sym, ap, ◌∙◌, subst, Bool, true, false,
  if◌then◌else◌, List, [], ◌∷◌, length, get_last_or, Option, none, some, ok, arith, Option-cases,
  Bytes, not,
}
use unistore.EntryCache.{Entry}
use unistore.EntryCache.Indexed.{From, entry_at}

set_hard_state-keeps :
    (ctx : InvokeContext) (h : HardState)
    → ((set_hard_state ctx h).raft_state.last_index ≡ ctx.raft_state.last_index)
      × ((set_hard_state ctx h).apply_state ≡ ctx.apply_state)
      × ((set_hard_state ctx h).snap_region ≡ ctx.snap_region)
set_hard_state-keeps ctx h = (ground arith, ground arith, ground arith)

run_writes-state :
    (b : Bool) (s : RaftState) (engine : Engine) (j : ℕ)
    → run_writes engine (if b then put_raft_state s ∷ [] else []) j ≡ engine j
unfolding run_writes run_write
run_writes-state true s engine j = refl
run_writes-state false s engine j = refl

post_ready_persistent-fields :
    (ps : PeerStorage) (ctx : InvokeContext)
    → ((post_ready_persistent ps ctx).0.raft_state ≡ ctx.raft_state)
      × ((post_ready_persistent ps ctx).0.apply_state ≡ ctx.apply_state)
      × ((post_ready_persistent ps ctx).0.cache ≡ ps.cache)
unfolding post_ready_persistent
post_ready_persistent-fields ps ctx = elim (Option-cases ctx.snap_region) [
  | inl p ↦ (ground arith, ground arith, ground arith)
  | inr (r, p) ↦ (ground arith, ground arith, ground arith)
]

module _ (log : ℕ → Entry) (indexed : (i : ℕ) → (log i).index ≡ i) (e : Entry) (es : List Entry)
    (new : From e.index (e ∷ es)) where
  abbrev new_entries : HardState → Ready
  new_entries h = record { snapshot = none; entries = e ∷ es; hard_state = h }

  -- What is saved, for the cache that `append` leaves.
  abbrev saved : PeerStorage → HardState → List Entry → Saved
  saved ps h cache = save_states ps 0 h (record {
    storage = record ps { cache = cache };
    context = append_context (new_invoke_context ps) (get_last_or e es);
    kv_writes = [];
    raft_writes = append_writes ps.raft_state.last_index (get_last_or e es) (e ∷ es);
  })

  saved-IsLog :
      (ps : PeerStorage) (engine : Engine) (h : HardState) (cache : List Entry)
      → IsLog ps engine log
      → ps.apply_state.truncated_index < e.index
      → e.index ≤ ps.raft_state.last_index + 1
      → (get_last_or e es).index + 1 < 2 ^ 64
      → ((c : ℕ) × (k : ℕ) × (cache ≡ segment (appended log (e ∷ es)) c (suc k))
          × (c + k ≡ (get_last_or e es).index))
      → IsLog
          (post_ready_persistent (saved ps h cache).storage (saved ps h cache).context).0
          (run_writes engine (saved ps h cache).raft_writes)
          (appended log (e ∷ es))
  unfolding save_states new_invoke_context
  saved-IsLog ps engine h cache v t l small (c, k, p, q) =
      let s = saved ps h cache in
      let last = get_last_or e es in
      let (raft, apply, cached) = post_ready_persistent-fields s.storage s.context in
      let (kept, same, _) = set_hard_state-keeps (append_context (new_invoke_context ps) last) h in
      let index : (post_ready_persistent s.storage s.context).0.raft_state.last_index ≡ last.index =
        ap (λ r. r.last_index) raft ∙ kept in
      let bound : (post_ready_persistent s.storage s.context).0.apply_state ≡ ps.apply_state =
        apply ∙ same in
      record {
        stored = λ j a b.
            let after = subst (λ x. x.truncated_index < j) bound a in
            let writes = append_writes ps.raft_state.last_index last (e ∷ es) in
            let ctx = set_hard_state (append_context (new_invoke_context ps) last) h in
            let changed = not (same_raft_state ctx.raft_state ps.raft_state) in
            ap (λ g. g j)
              (run_writes-append writes (if changed then put_raft_state ctx.raft_state ∷ [] else [])
                engine)
            ∙ run_writes-state changed ctx.raft_state (run_writes engine writes) j
            ∙ stored_new log indexed e es new engine ps.raft_state.last_index j
                (λ x. v.stored j after (omega arith)) (omega (arith, index));
        fits = omega (arith, index);
        cached = inr (c, k, cached ∙ p, q ∙ sym index);
      }

  appended_to :
      (decode_region : Bytes → Option Region) (ps : PeerStorage) (engine : Engine) (h : HardState)
      (n : ℕ)
      → IsLog ps engine log
      → ps.apply_state.truncated_index < e.index
      → e.index ≤ ps.raft_state.last_index + 1
      → (get_last_or e es).index + 1 < 2 ^ 64
      → From n ps.cache
      → (ps.cache ≡ []) ⊎ (e.index ≤ n + length ps.cache)
      → ((i : ℕ) → (entry_at i ps.cache ≡ none) ⊎ (entry_at i ps.cache ≡ some (log i)))
      → (s : Saved) × (save_ready_state decode_region ps engine (new_entries h) ≡ ok s)
        × IsLog
            (post_ready_persistent s.storage s.context).0
            (run_writes engine s.raft_writes)
            (appended log (e ∷ es))
        × ((i : ℕ) → (appended log (e ∷ es) i).index ≡ i)
  unfolding save_ready_state append_log
  appended_to decode_region ps engine h n v t l small f gap old =
      let (result, a, ic, spec) = append_entries-entry_at n ps.cache e es f new gap in
      let (k, p, q) = cached_new log indexed e es new ps.cache result ic.low ic.indexed old spec in
      (
        saved ps h result,
        rw a refl,
        saved-IsLog ps engine h result v t l small (ic.low, k, p, q),
        new_log-indexed log indexed e es new,
      )

  -- For a peer whose engine and cache hold its log, SaveReadyState on consecutive entries that
  -- come after the truncated index and leave no gap after the last index succeeds, and once its
  -- raft batch is written and PostReadyPersistent was called the peer holds the log in which the
  -- entries have taken their places, whose entries have their own indexes.
  pub save_ready_state-IsLog :
      (decode_region : Bytes → Option Region) (ps : PeerStorage) (engine : Engine) (h : HardState)
      → IsLog ps engine log
      → ps.apply_state.truncated_index < e.index
      → e.index ≤ ps.raft_state.last_index + 1
      → (get_last_or e es).index + 1 < 2 ^ 64
      → (s : Saved) × (save_ready_state decode_region ps engine (new_entries h) ≡ ok s)
        × IsLog
            (post_ready_persistent s.storage s.context).0
            (run_writes engine s.raft_writes)
            (appended log (e ∷ es))
        × ((i : ℕ) → (appended log (e ∷ es) i).index ≡ i)
  save_ready_state-IsLog decode_region ps engine h v t l small = elim v.cached [
    | inl p ↦
        appended_to decode_region ps engine h 0 v t l small (subst (From 0) (sym p) tt) (inl p)
          (λ i. inl (unfold entry_at in ap (entry_at i) p))
    | inr (c, k, p, q) ↦
        let count = ap length p ∙ length-segment log c (suc k) in
        appended_to decode_region ps engine h c v t l small
          (subst (From c) (sym p) (From-segment log indexed c (suc k))) (inr (omega (arith, count)))
          (λ i.
            subst (λ xs. (entry_at i xs ≡ none) ⊎ (entry_at i xs ≡ some (log i))) (sym p)
              (entry_at-segment log indexed c (suc k) i))
  ]
