-- ===== src/Applier/EntriesIndex.antt =====
-- The applied index and the region's peers while committed entries are handled.
use unistore.EntryCache.Indexed.{From}
use unistore.EntryCache.{Entry, EntryType}
use unistore.Region.Peers.{DistinctStores}
use unistore.Applier.Entries.{
  handle_conf_change, handle_entry, Step, process_raft_cmd, handle_entries, handle_empty_entry,
  handle_normal, handle_raft_committed_entries, ApplyContext, change_step, parse_log,
  should_write_to_engine, commit,
}
use unistore.Applier.{Write, Bytes}
use unistore.Applier.ExecSound.{Sound, Keeps, exec_raft_cmd-Keeps}
use unistore.Request.{RaftLog, RaftCmdRequest, request}
use unistore.Applier.Exec.{
  Applier, Executed, new_region_of, apply_raft_cmd, Applied, ExecResult, exec_raft_cmd, plain,
  changed_peer, split_region, compacted_log, verified_hash,
}
use unistore.Base.{
  ℕ, suc, ◌+◌, ◌≤◌, ◌≡◌, ◌⊎◌, inl, inr, refl, Bool, true, if◌then◌else◌, List, [], ◌∷◌, length,
  Option, none, some, arith, Bytes, subst, Outcome-cases, sym, Option-cases, Bool-cases,
}
use unistore.EntryCache.{entry_normal, entry_conf_change}
use unistore.Applier.Exec.{deleted_range, aborted}

-- One entry: the index is its own, and what is sound stays so.
abbrev pub Moves : Applier → ℕ → Applier → Type 0
Moves a index b =
    (b.apply_state.applied_index ≡ index)
    × (a.apply_state.applied_index ≤ index → Sound a → Sound b)

advance-Moves :
    (a : Applier) (x : Executed) (index term : ℕ) (b : Applier)
    → (Sound a → Keeps a x)
    → b.region ≡ new_region_of a.region x.result
    → b.apply_state ≡ record x.apply_state { applied_index = index }
    → Moves a index b
advance-Moves a x index term b k r s = (
  ground arith,
  λ l v. record {
    distinct = subst (λ g. DistinctStores g.peers) (sym r) (k v).0;
    truncated = ground (arith, (k v).1, (k v).2);
  },
)

module _ (exec_write : RaftLog → Option (List Write × Bool))
    (parse_request : Bytes → Option RaftCmdRequest)
    (parse_conf_change : Bytes → Option RaftCmdRequest) where
  apply_raft_cmd-Moves :
      (a : Applier) (index term : ℕ) (rlog : RaftLog) (wb : List Write) (r : Applied)
      → apply_raft_cmd exec_write a index term rlog wb ≡ some r
      → Moves a index r.applier
  unfolding apply_raft_cmd
  apply_raft_cmd-Moves a index term rlog wb r e =
      elim (Outcome-cases (exec_raft_cmd exec_write a rlog)) [
        | inl (x, p) ↦
            advance-Moves a x index term r.applier
              (λ v. exec_raft_cmd-Keeps exec_write a rlog x v p) (ground arith) (ground arith)
        | inr (inl (x, p)) ↦
            advance-Moves a (plain a.apply_state none) index term r.applier
              (λ v. (v.distinct, v.truncated, refl)) (ground arith) (ground arith)
        | inr (inr p) ↦ absurd (ground arith)
      ]

  same_state-Moves :
      (a : Applier) (index : ℕ) (b c : Applier)
      → c.region ≡ b.region
      → c.apply_state ≡ b.apply_state
      → Moves a index b
      → Moves a index c
  same_state-Moves a index b c r s m = (
    ground (arith, m.0),
    λ l v. record {
      distinct = subst (λ g. DistinctStores g.peers) (sym r) (m.1 l v).distinct;
      truncated = ground (arith, (m.1 l v).truncated);
    },
  )

  process_raft_cmd-Moves :
      (a : Applier) (ctx : ApplyContext) (index term : ℕ) (rlog : RaftLog) (b : Applier)
      (ctx' : ApplyContext) (res : Option ExecResult)
      → process_raft_cmd exec_write parse_request parse_conf_change a ctx index term rlog
        ≡ some (b, ctx', res)
      → Moves a index b
  unfolding process_raft_cmd
  process_raft_cmd-Moves a ctx index term rlog b ctx' res e =
      elim (Option-cases (apply_raft_cmd exec_write a index term rlog ctx.wb)) [
        | inl p ↦ absurd (ground arith)
        | inr (r, p) ↦
            same_state-Moves a index r.applier b (ground arith) (ground arith)
              (apply_raft_cmd-Moves a index term rlog ctx.wb r p)
      ]

  handle_empty_entry-Moves :
      (a : Applier) (ctx : ApplyContext) (index term : ℕ) (b : Applier) (ctx' : ApplyContext)
      (res : Option ExecResult)
      → handle_empty_entry exec_write parse_request parse_conf_change a ctx index term
        ≡ some (b, ctx', res)
      → Moves a index b
  unfolding handle_empty_entry
  handle_empty_entry-Moves a ctx index term b ctx' res e =
      advance-Moves a (plain a.apply_state none) index term b (λ v. (v.distinct, v.truncated, refl))
        (ground arith) (ground arith)

  handle_normal-Moves :
      (a : Applier) (ctx : ApplyContext) (entry : Entry) (bs : Bytes) (b : Applier)
      (ctx' : ApplyContext) (res : Option ExecResult)
      → handle_normal exec_write parse_request parse_conf_change a ctx entry bs
        ≡ some (b, ctx', res)
      → Moves a entry.index b
  unfolding handle_normal
  handle_normal-Moves a ctx entry [] b ctx' res e =
      handle_empty_entry-Moves a ctx entry.index entry.term b ctx' res e
  handle_normal-Moves a ctx entry (x ∷ xs) b ctx' res e =
      elim (Option-cases (parse_log exec_write parse_request parse_conf_change x xs)) [
        | inl p ↦ absurd (ground arith)
        | inr (rlog, p) ↦
            process_raft_cmd-Moves a (if should_write_to_engine rlog then commit a ctx else ctx)
              entry.index entry.term rlog b ctx' res (ground arith)
      ]

  change_step-same :
      (s : Step) (b : Applier) (ctx' : ApplyContext) (res : Option ExecResult)
      → change_step exec_write parse_request parse_conf_change s ≡ some (b, ctx', res)
      → s.0 ≡ b
  change_step-same (a, ctx, none) b ctx' res e = ground arith
  change_step-same (a, ctx, some (changed_peer r)) b ctx' res e = ground arith
  change_step-same (a, ctx, some (split_region r)) b ctx' res e = absurd (cc)
  change_step-same (a, ctx, some (compacted_log r)) b ctx' res e = absurd (cc)
  change_step-same (a, ctx, some (verified_hash i h)) b ctx' res e = absurd (cc)
  change_step-same (a, ctx, some deleted_range) b ctx' res e = absurd (cc)
  change_step-same (a, ctx, some aborted) b ctx' res e = absurd (cc)

  handle_conf_change-Moves :
      (a : Applier) (ctx : ApplyContext) (entry : Entry) (b : Applier) (ctx' : ApplyContext)
      (res : Option ExecResult)
      → handle_conf_change exec_write parse_request parse_conf_change a ctx entry
        ≡ some (b, ctx', res)
      → Moves a entry.index b
  unfolding handle_conf_change
  handle_conf_change-Moves a ctx entry b ctx' res e =
      elim (Option-cases (parse_conf_change entry.content)) [
        | inl p ↦ absurd (ground arith)
        | inr (req, p) ↦
            elim (Option-cases (
              process_raft_cmd exec_write parse_request parse_conf_change a ctx entry.index
                entry.term (request req))) [
                  | inl q ↦ absurd (ground arith)
                  | inr ((c, ctx'', r), q) ↦
                      subst (Moves a entry.index)
                        (change_step-same (c, ctx'', r) b ctx' res (ground arith))
                        (process_raft_cmd-Moves a ctx entry.index entry.term (request req) c ctx'' r
                          q)
                ]
      ]

  pub handle_entry-Moves :
      (a : Applier) (ctx : ApplyContext) (entry : Entry) (t : EntryType) (b : Applier)
      (ctx' : ApplyContext) (res : Option ExecResult)
      → entry.entry_type ≡ t
      → handle_entry exec_write parse_request parse_conf_change a ctx entry ≡ some (b, ctx', res)
      → Moves a entry.index b
  unfolding handle_entry
  handle_entry-Moves a ctx entry entry_normal b ctx' res q e =
      handle_normal-Moves a ctx entry entry.content b ctx' res (rw q at e)
  handle_entry-Moves a ctx entry entry_conf_change b ctx' res q e =
      handle_conf_change-Moves a ctx entry b ctx' res (rw q at e)

  -- All entries were applied, or the peer removed itself on the way.
  abbrev pub Handled : Applier → ℕ → Applier → Type 0
  Handled a n b =
      Sound b
      × (a.apply_state.applied_index ≤ b.apply_state.applied_index)
      × (b.apply_state.applied_index ≤ a.apply_state.applied_index + n)
      × ((b.pending_remove ≡ true)
          ⊎ (b.apply_state.applied_index ≡ a.apply_state.applied_index + n))

  handle_entries-Handled :
      (a : Applier) (ctx : ApplyContext) (entries : List Entry) (b : Applier) (ctx' : ApplyContext)
      (rs : List ExecResult)
      → Sound a
      → From (a.apply_state.applied_index + 1) entries
      → handle_entries exec_write parse_request parse_conf_change a ctx entries ≡ some (b, ctx', rs)
      → Handled a (length entries) b
  unfolding handle_entries
  handle_entries-Handled a ctx [] b ctx' rs v f e =
      let same : a ≡ b = ground arith in
      subst (Handled a 0) same (v, omega arith, omega arith, inr (omega arith))
  handle_entries-Handled a ctx (entry ∷ entries) b ctx' rs v f e =
      elim (Bool-cases a.pending_remove) [
        | inl p ↦
            let same : a ≡ b = ground arith in
            subst (Handled a (length (entry ∷ entries))) same (v, omega arith, omega arith, inl p)
        | inr p ↦
            elim (Option-cases
              (handle_entry exec_write parse_request parse_conf_change a ctx entry)) [
                | inl q ↦ absurd (ground arith)
                | inr ((c, cx, r), q) ↦
                    let m = handle_entry-Moves a ctx entry entry.entry_type c cx r refl q in
                    let next : suc (a.apply_state.applied_index + 1)
                        ≡ c.apply_state.applied_index + 1 =
                      omega (arith, m.0, f.0) in
                    elim (Option-cases
                      (handle_entries exec_write parse_request parse_conf_change c cx entries)) [
                        | inl u ↦ absurd (ground arith)
                        | inr ((d, dx, rs'), u) ↦
                            let (sound, low, high, all) =
                              handle_entries-Handled c cx entries d dx rs'
                                (m.1 (omega (arith, f.0)) v) (subst (λ n. From n entries) next f.1)
                                u in
                            let same : d ≡ b = ground arith in
                            subst (Handled a (length (entry ∷ entries))) same
                              (sound, omega arith, omega arith, ground arith)
                      ]
              ]
      ]

  -- When a sound applier (no two peers of its region on one store, no truncation beyond the
  -- applied index) handles entries from its next index on without a panic, it stays sound, its
  -- applied index grows by at most their number, and by exactly their number unless its own peer
  -- was removed.
  pub handle_raft_committed_entries-Handled :
      (a : Applier) (ctx : ApplyContext) (entries : List Entry) (b : Applier) (ctx' : ApplyContext)
      (rs : List ExecResult)
      → Sound a
      → From (a.apply_state.applied_index + 1) entries
      → handle_raft_committed_entries exec_write parse_request parse_conf_change a ctx entries
        ≡ some (b, ctx', rs)
      → Handled a (length entries) b
  unfolding handle_raft_committed_entries
  handle_raft_committed_entries-Handled a ctx [] b ctx' rs v f e =
      handle_entries-Handled a ctx [] b ctx' rs v f e
  handle_raft_committed_entries-Handled a ctx (entry ∷ entries) b ctx' rs v f e =
      let start = record ctx { last_applied_index = a.apply_state.applied_index } in
      elim (Option-cases
        (handle_entries exec_write parse_request parse_conf_change a start (entry ∷ entries))) [
          | inl p ↦ absurd (ground arith)
          | inr ((c, ctx'', r), p) ↦
              let same : c ≡ b = ground arith in
              subst (Handled a (length (entry ∷ entries))) same
                (handle_entries-Handled a start (entry ∷ entries) c ctx'' r v f p)
        ]
