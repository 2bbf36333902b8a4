-- ===== src/Applier/Entries.antt =====
-- raftstore/applier.go: handleRaftCommittedEntries and what it calls for one entry.
-- Parameters: what a write command does, and the protobuf decoders of requests and of the request
-- in a configuration change, which fail on other data. The context is the part that the entries
-- change: the batch, what was written to the engine before, the callbacks with their responses and
-- the commands that were told. `none` is a panic.
use unistore.EntryCache.{Entry}
use unistore.Raftlog.{new_custom, custom_raft_log_flag}
use unistore.Applier.Commands.{pop_stale, Notice, find_callback}
use unistore.Request.{
  Request, AdminRequest, RaftLog, custom, admin_change_peer, RaftCmdRequest, request, log_admin,
}
use unistore.Applier.Exec.{
  Applier, ExecResult, apply_raft_cmd, Applied, aborted, changed_peer, split_region, compacted_log,
  verified_hash,
}
use unistore.Applier.{Write, set_apply_state, ExecError}
use unistore.Base.{
  ℕ, ◌+◌, ltb, ◌==◌, Bool, true, false, if◌then◌else◌, ◌&&◌, ◌||◌, List, [], ◌∷◌, ◌++◌, Bytes,
  Option, none, some,
}
use unistore.Request.{AdminCmdType}
use unistore.EntryCache.{entry_normal, entry_conf_change}
use unistore.Applier.Exec.{deleted_range, aborted}
use unistore.Base.Partial.{◌>>=◌}

-- The callbacks of an entry, which may be nil, with the error that they get.
pub record ApplyContext : Type 0 where
  pub wb : List Write
  pub written : List Write
  pub cbs : List (Option ℕ × Option ExecError)
  pub notices : List Notice
  pub last_applied_index : ℕ

abbrev pub write_apply_state : Applier → Write
write_apply_state a = set_apply_state a.region.id a.apply_state

-- `commit`: the batch is written, with the apply state if it has changed.
unfoldable pub commit : Applier → ApplyContext → ApplyContext
commit a ctx =
    let wb =
      if ltb ctx.last_applied_index a.apply_state.applied_index
      then ctx.wb ++ (write_apply_state a ∷ [])
      else ctx.wb in
    record ctx {
      wb = [];
      written = ctx.written ++ wb;
      last_applied_index = a.apply_state.applied_index;
    }

abbrev pub modifies : List Request → Bool
modifies [] = false
modifies (r ∷ rs) =
    let rest = modifies rs in
    elim r.delete_range [ some d ↦ true | none ↦ elim r.ingest_sst [ some i ↦ true | none ↦ rest ] ]

abbrev pub needs_snapshot : Option AdminRequest → Bool
needs_snapshot none = false
needs_snapshot (some a) = elim a.cmd_type as (λ x. Bool) [
  | AdminCmdType.compute_hash ↦ true
  | AdminCmdType.commit_merge ↦ true
  | AdminCmdType.rollback_merge ↦ true
  | _ ↦ false
]

unfoldable pub should_write_to_engine : RaftLog → Bool
should_write_to_engine (custom c) = false
should_write_to_engine (request r) = needs_snapshot r.admin_request || modifies r.requests

abbrev pub is_change : RaftLog → Bool
is_change rlog = elim (admin_change_peer (log_admin rlog)) [ none ↦ false | some c ↦ true ]

abbrev pub Step : Type 0
Step = Applier × ApplyContext × Option ExecResult

module _ (exec_write : RaftLog → Option (List Write × Bool))
    (parse_request : Bytes → Option RaftCmdRequest)
    (parse_conf_change : Bytes → Option RaftCmdRequest) where
  -- The callback of the command is found and gets the response.
  abbrev pub answer : ApplyContext → ℕ → ℕ → Bool → Applied → Step
  answer ctx index term is_conf_change r =
      let (found, notices, cmds) = find_callback r.applier.pending_cmds index term is_conf_change in
      (
        record r.applier { pending_cmds = cmds },
        record ctx {
          wb = r.wb;
          cbs = ctx.cbs ++ ((found, r.error) ∷ []);
          notices = ctx.notices ++ notices;
        },
        r.result,
      )

  unfoldable pub process_raft_cmd : Applier → ApplyContext → ℕ → ℕ → RaftLog → Option Step
  unfolding apply_raft_cmd find_callback
  process_raft_cmd a ctx index term rlog = do
    r ← apply_raft_cmd exec_write a index term rlog ctx.wb
    if index == 0 then none else some (answer ctx index term (is_change rlog) r)

  -- The data of an entry: the flag tells the custom format.
  unfoldable pub parse_log : ℕ → Bytes → Option RaftLog
  unfolding new_custom
  parse_log b bs =
      if b == custom_raft_log_flag
      then elim (new_custom (b ∷ bs)) [ none ↦ none | some c ↦ some (custom c) ]
      else elim (parse_request (b ∷ bs)) [ none ↦ none | some r ↦ some (request r) ]

  -- An empty entry: the commands of earlier terms are stale.
  unfoldable pub handle_empty_entry : Applier → ApplyContext → ℕ → ℕ → Option Step
  unfolding pop_stale
  handle_empty_entry a ctx index term =
      let (notices, rest) = pop_stale term a.pending_cmds.normals in
      if term == 0
      then none
      else some (
        record a {
          apply_state = record a.apply_state { applied_index = index };
          applied_index_term = term;
          pending_cmds = record a.pending_cmds { normals = rest };
        },
        record ctx { notices = ctx.notices ++ notices },
        none,
      )

  unfoldable pub handle_normal : Applier → ApplyContext → Entry → Bytes → Option Step
  unfolding handle_empty_entry parse_log process_raft_cmd should_write_to_engine commit
  handle_normal a ctx entry [] = handle_empty_entry a ctx entry.index entry.term
  handle_normal a ctx entry (b ∷ bs) = do
    rlog ← parse_log b bs
    let ctx' = if should_write_to_engine rlog then commit a ctx else ctx
    process_raft_cmd a ctx' entry.index entry.term rlog

  -- A change that failed is reported to raft as aborted; other results are no change. The result
  -- also takes the entry's data along, which is left out.
  abbrev pub change_step : Step → Option Step
  change_step (a, ctx, none) = some (a, ctx, some aborted)
  change_step (a, ctx, some (changed_peer r)) = some (a, ctx, some (changed_peer r))
  change_step (a, ctx, some (split_region r)) = none
  change_step (a, ctx, some (compacted_log r)) = none
  change_step (a, ctx, some (verified_hash i h)) = none
  change_step (a, ctx, some deleted_range) = none
  change_step (a, ctx, some aborted) = none

  unfoldable pub handle_conf_change : Applier → ApplyContext → Entry → Option Step
  unfolding process_raft_cmd
  handle_conf_change a ctx entry = do
    req ← parse_conf_change entry.content
    s ← process_raft_cmd a ctx entry.index entry.term (request req)
    change_step s

  unfoldable pub handle_entry : Applier → ApplyContext → Entry → Option Step
  unfolding handle_normal handle_conf_change
  handle_entry a ctx entry = elim entry.entry_type [
    | entry_normal ↦ handle_normal a ctx entry entry.content
    | entry_conf_change ↦ handle_conf_change a ctx entry
  ]

  abbrev pub add_result : Option ExecResult → List ExecResult → List ExecResult
  add_result none rs = rs
  add_result (some r) rs = r ∷ rs

  -- The loop over the entries, with the results in their order.
  unfoldable pub handle_entries :
      Applier → ApplyContext → List Entry → Option (Applier × ApplyContext × List ExecResult)
  unfolding handle_entry
  handle_entries a ctx [] = some (a, ctx, [])
  handle_entries a ctx (entry ∷ entries) =
      let expected_index = a.apply_state.applied_index + 1 in
      let skipped = handle_entries a ctx entries in
      let handled : Option (Applier × ApplyContext × List ExecResult) = do
        (a', ctx', result) ← handle_entry a ctx entry
        (a'', ctx'', results) ← handle_entries a' ctx' entries
        some (a'', ctx'', add_result result results)
      in if a.pending_remove
        then some (a, ctx, [])
        else if expected_index == entry.index
        then handled
        else if ltb entry.index expected_index && a.is_merging
        then skipped
        else none

  -- `finishFor`, without its report.
  abbrev pub finish : Applier → ApplyContext → ApplyContext
  finish a ctx =
      if a.pending_remove then ctx else record ctx { wb = ctx.wb ++ (write_apply_state a ∷ []) }

  unfoldable pub handle_raft_committed_entries :
      Applier → ApplyContext → List Entry → Option (Applier × ApplyContext × List ExecResult)
  unfolding handle_entries
  handle_raft_committed_entries a ctx [] = some (a, ctx, [])
  handle_raft_committed_entries a ctx (entry ∷ entries) = do
    let ctx' = record ctx { last_applied_index = a.apply_state.applied_index }
    (a', ctx'', results) ← handle_entries a ctx' (entry ∷ entries)
    some (a', finish a' ctx'', results)
