-- ===== src/Applier/EntriesEnd.antt =====
-- When handling committed entries does not panic.
use unistore.Applier.ExecEnd.{exec_raft_cmd-ne-panic, IsExecutable}
use unistore.Applier.EntriesIndex.{handle_entry-Moves}
use unistore.EntryCache.Indexed.{From}
use unistore.Applier.Entries.{
  parse_log, handle_conf_change, handle_entries, handle_entry, process_raft_cmd,
  handle_raft_committed_entries, handle_normal, handle_empty_entry, ApplyContext,
  should_write_to_engine, commit,
}
use unistore.Applier.ConfChange.{exec_change_peer, ChangePeerResult}
use unistore.Applier.ExecSound.{Sound}
use unistore.Applier.{Write, Bytes}
use unistore.Base.{
  ℕ, suc, ◌+◌, ◌<◌, ◌≡◌, ◌≢◌, ◌⊎◌, inl, inr, refl, Bool, false, if◌then◌else◌, List, [], ◌∷◌,
  Option, none, some, ok, arith, Bytes, Outcome-cases, leb, Option-cases, All, Bool-cases, subst,
}
use unistore.Request.{
  AdminCmdType, check_region_epoch, AdminRequest, RaftLog, ChangePeerRequest, epoch, RaftCmdRequest,
  request,
}
use unistore.EntryCache.{entry_normal, entry_conf_change, Entry, EntryType}
use unistore.Applier.Exec.{
  exec_admin_cmd, Applier, exec_raft_cmd, exec_change, apply_raft_cmd, Executed, ExecResult,
  changed_peer,
}

module _ (exec_write : RaftLog → Option (List Write × Bool))
    (parse_request : Bytes → Option RaftCmdRequest)
    (parse_conf_change : Bytes → Option RaftCmdRequest) where
  abbrev pub NormalRuns : Bytes → ℕ → Type 0
  NormalRuns [] term = 0 < term
  NormalRuns (b ∷ bs) term =
      (rlog : RaftLog) × (parse_log exec_write parse_request parse_conf_change b bs ≡ some rlog)
      × IsExecutable exec_write rlog

  abbrev pub IsChange : RaftCmdRequest → Type 0
  IsChange req =
      (ad : AdminRequest) × (req.admin_request ≡ some ad) × (ad.cmd_type ≡ AdminCmdType.change_peer)

  -- An empty entry has a term, and any other holds a raft log that can be executed, which is a
  -- configuration change in an entry of that type.
  abbrev pub RunsAs : Entry → EntryType → Type 0
  RunsAs entry entry_normal = NormalRuns entry.content entry.term
  RunsAs entry entry_conf_change =
      (req : RaftCmdRequest) × (parse_conf_change entry.content ≡ some req)
      × IsExecutable exec_write (request req)
      × IsChange req

  abbrev pub Runs : Entry → Type 0
  Runs entry = RunsAs entry entry.entry_type

  apply_raft_cmd-ne-none :
      (a : Applier) (index term : ℕ) (rlog : RaftLog) (wb : List Write)
      → IsExecutable exec_write rlog
      → Sound a
      → a.pending_remove ≡ false
      → apply_raft_cmd exec_write a index term rlog wb ≢ none
  unfolding apply_raft_cmd
  apply_raft_cmd-ne-none a index term rlog wb w v n e =
      elim (Outcome-cases (exec_raft_cmd exec_write a rlog)) [
        | inl (x, p) ↦ ground arith
        | inr (inl (x, p)) ↦ ground arith
        | inr (inr p) ↦ exec_raft_cmd-ne-panic exec_write a rlog w v p
      ]

  process_raft_cmd-ne-none :
      (a : Applier) (ctx : ApplyContext) (index term : ℕ) (rlog : RaftLog)
      → IsExecutable exec_write rlog
      → Sound a
      → a.pending_remove ≡ false
      → 0 < index
      → process_raft_cmd exec_write parse_request parse_conf_change a ctx index term rlog ≢ none
  unfolding process_raft_cmd
  process_raft_cmd-ne-none a ctx index term rlog w v n l e =
      elim (Option-cases (apply_raft_cmd exec_write a index term rlog ctx.wb)) [
        | inl p ↦ apply_raft_cmd-ne-none a index term rlog ctx.wb w v n p
        | inr (r, p) ↦ ground arith
      ]

  handle_normal-ne-none :
      (a : Applier) (ctx : ApplyContext) (entry : Entry) (bs : Bytes)
      → NormalRuns bs entry.term
      → Sound a
      → a.pending_remove ≡ false
      → 0 < entry.index
      → handle_normal exec_write parse_request parse_conf_change a ctx entry bs ≢ none
  unfolding handle_normal handle_empty_entry
  handle_normal-ne-none a ctx entry [] w v n l e = ground arith
  handle_normal-ne-none a ctx entry (b ∷ bs) (rlog, p, w) v n l e =
      process_raft_cmd-ne-none a (if should_write_to_engine rlog then commit a ctx else ctx)
        entry.index entry.term rlog w v n l (ground arith)

  -- The command of a configuration change fails or has the result of one.
  abbrev ChangeResult : Option ExecResult → Type 0
  ChangeResult o = (o ≡ none) ⊎ ((r : ChangePeerResult) × (o ≡ some (changed_peer r)))

  exec_change_result :
      (a : Applier) (o : Option ChangePeerRequest) (x : Executed)
      → exec_change a o ≡ ok x
      → ChangeResult x.result
  exec_change_result a none x e = absurd (cc)
  exec_change_result a (some c) x e =
      elim (Outcome-cases (exec_change_peer a.id a.pending_remove a.region c)) [
        | inl (r, p) ↦ inr (r, ground arith)
        | inr (inl (y, p)) ↦ absurd (ground arith)
        | inr (inr p) ↦ absurd (ground arith)
      ]

  exec_raft_cmd_result :
      (a : Applier) (req : RaftCmdRequest) (x : Executed)
      → IsChange req
      → exec_raft_cmd exec_write a (request req) ≡ ok x
      → ChangeResult x.result
  unfolding exec_raft_cmd exec_admin_cmd
  exec_raft_cmd_result a req x (ad, p, q) e = elim (Option-cases (epoch (request req))) [
    | inl r ↦ absurd (ground arith)
    | inr (ep, r) ↦
        elim (Outcome-cases
          (check_region_epoch (request req) a.region (leb a.last_merge_version ep.ver))) [
            | inl (u, k) ↦ exec_change_result a ad.change_peer x (change_of ad q (ground arith))
            | inr (inl (y, k)) ↦ absurd (ground arith)
            | inr (inr k) ↦ absurd (ground arith)
          ]
  ]
    where
      change_of :
          (ad : AdminRequest)
          → ad.cmd_type ≡ AdminCmdType.change_peer
          → exec_admin_cmd a ad ≡ ok x
          → exec_change a ad.change_peer ≡ ok x
      change_of ad q e = rw q at e

  handle_conf_change-ne-none :
      (a : Applier) (ctx : ApplyContext) (entry : Entry)
      → RunsAs entry entry_conf_change
      → Sound a
      → a.pending_remove ≡ false
      → 0 < entry.index
      → handle_conf_change exec_write parse_request parse_conf_change a ctx entry ≢ none
  unfolding handle_conf_change process_raft_cmd apply_raft_cmd
  handle_conf_change-ne-none a ctx entry (req, p, w, c) v n l e =
      elim (Outcome-cases (exec_raft_cmd exec_write a (request req))) [
        | inl (x, q) ↦ elim (exec_raft_cmd_result a req x c q) [
          | inl r ↦ ground arith
          | inr (r, k) ↦ ground arith
        ]
        | inr (inl (y, q)) ↦ ground arith
        | inr (inr q) ↦ exec_raft_cmd-ne-panic exec_write a (request req) w v q
      ]

  handle_entry-ne-none :
      (a : Applier) (ctx : ApplyContext) (entry : Entry) (t : EntryType)
      → entry.entry_type ≡ t
      → RunsAs entry t
      → Sound a
      → a.pending_remove ≡ false
      → 0 < entry.index
      → handle_entry exec_write parse_request parse_conf_change a ctx entry ≢ none
  unfolding handle_entry
  handle_entry-ne-none a ctx entry entry_normal q w v n l e =
      handle_normal-ne-none a ctx entry entry.content w v n l (rw q at e)
  handle_entry-ne-none a ctx entry entry_conf_change q w v n l e =
      handle_conf_change-ne-none a ctx entry w v n l (rw q at e)

  handle_entries-ne-none :
      (a : Applier) (ctx : ApplyContext) (entries : List Entry)
      → Sound a
      → From (a.apply_state.applied_index + 1) entries
      → All Runs entries
      → handle_entries exec_write parse_request parse_conf_change a ctx entries ≢ none
  unfolding handle_entries
  handle_entries-ne-none a ctx [] v f w e = cc
  handle_entries-ne-none a ctx (entry ∷ entries) v f w e = elim (Bool-cases a.pending_remove) [
    | inl n ↦ ground arith
    | inr n ↦
        elim (Option-cases (handle_entry exec_write parse_request parse_conf_change a ctx entry)) [
          | inl q ↦
              handle_entry-ne-none a ctx entry entry.entry_type refl w.0 v n (omega (arith, f.0)) q
          | inr ((c, cx, r), q) ↦
              let m =
                handle_entry-Moves exec_write parse_request parse_conf_change a ctx entry
                  entry.entry_type c cx r refl q in
              let next : suc (a.apply_state.applied_index + 1) ≡ c.apply_state.applied_index + 1 =
                omega (arith, m.0, f.0) in
              let rest =
                handle_entries-ne-none c cx entries (m.1 (omega (arith, f.0)) v)
                  (subst (λ n. From n entries) next f.1) w.1 in
              elim (Option-cases
                (handle_entries exec_write parse_request parse_conf_change c cx entries)) [
                  | inl u ↦ rest u
                  | inr ((d, dx, rs), u) ↦ ground arith
                ]
        ]
  ]

  -- A sound applier does not panic on entries from its next index on, if each is empty and has a
  -- term, or holds a raft log with an epoch whose admin command has its message, is no merge, and
  -- is a configuration change in an entry of that type, or which is a write command that the
  -- applier's parameter for write commands executes without a panic.
  pub handle_raft_committed_entries-ne-none :
      (a : Applier) (ctx : ApplyContext) (entries : List Entry)
      → Sound a
      → From (a.apply_state.applied_index + 1) entries
      → All Runs entries
      → handle_raft_committed_entries exec_write parse_request parse_conf_change a ctx entries
        ≢ none
  unfolding handle_raft_committed_entries
  handle_raft_committed_entries-ne-none a ctx [] v f w e = cc
  handle_raft_committed_entries-ne-none a ctx (entry ∷ entries) v f w e =
      let start = record ctx { last_applied_index = a.apply_state.applied_index } in
      elim (Option-cases
        (handle_entries exec_write parse_request parse_conf_change a start (entry ∷ entries))) [
          | inl p ↦ handle_entries-ne-none a start (entry ∷ entries) v f w p
          | inr ((c, cx, r), p) ↦ ground arith
        ]
