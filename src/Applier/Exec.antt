-- ===== src/Applier/Exec.antt =====
-- raftstore/applier.go: execRaftCmd, execAdminCmd and applyRaftCmd.
-- What a write command adds to the batch, and whether it deletes a range, is a parameter, whose
-- `none` is a panic: execWriteCmd and what it calls, which work on the transactions' formats. No command of this version waits for a merge. A missing message is a nil
-- pointer, which panics. The batch is rolled back to its safe point by leaving it as it was.
use unistore.Applier.Compact.{CompactLog, exec_compact_log}
use unistore.Applier.Split.{SplitRegion, exec_split, exec_batch_split}
use unistore.Applier.ConfChange.{ChangePeerResult, exec_change_peer}
use unistore.Applier.Commands.{PendingCmdQueue}
use unistore.Base.{
  ℕ, leb, Bool, false, if◌then◌else◌, ◌||◌, List, [], ◌++◌, Bytes, Outcome, ok, err, panic, Option,
  none, some,
}
use unistore.State.{ApplyState}
use unistore.Region.{Region, Checked}
use unistore.Request.{
  AdminRequest, AdminCmdType, RaftLog, check_region_epoch, epoch, log_admin, CompactLogRequest,
  SplitRequest, ChangePeerRequest, BatchSplitRequest,
}
use unistore.Applier.{ExecError, Write, checked, not_executed, unsupported}

pub record Applier : Type 0 where
  pub id : ℕ
  pub term : ℕ
  pub region : Region
  pub stopped : Bool
  pub pending_remove : Bool
  pub pending_cmds : PendingCmdQueue
  pub is_merging : Bool
  pub last_merge_version : ℕ
  pub apply_state : ApplyState
  pub applied_index_term : ℕ

pub data ExecResult : Type 0 where
  changed_peer : ChangePeerResult → ExecResult
  split_region : SplitRegion → ExecResult
  compacted_log : CompactLog → ExecResult
  verified_hash : ℕ → Bytes → ExecResult
  deleted_range : ExecResult
  -- The configuration change was aborted.
  aborted : ExecResult

-- What a command that succeeds comes to.
pub record Executed : Type 0 where
  pub apply_state : ApplyState
  pub result : Option ExecResult
  pub writes : List Write

abbrev pub plain : ApplyState → Option ExecResult → Executed
plain s result = record { apply_state = s; result = result; writes = [] }

abbrev pub change_executed :
    ApplyState → Outcome ExecError ChangePeerResult → Outcome ExecError Executed
change_executed s (ok r) =
    ok (record { apply_state = s; result = some (changed_peer r); writes = r.writes })
change_executed s (err e) = err e
change_executed s panic = panic

abbrev pub exec_change : Applier → Option ChangePeerRequest → Outcome ExecError Executed
exec_change a none = panic
exec_change a (some req) =
    change_executed a.apply_state (exec_change_peer a.id a.pending_remove a.region req)

abbrev pub split_executed : ApplyState → Outcome ExecError SplitRegion → Outcome ExecError Executed
split_executed s (ok r) =
    ok (record { apply_state = s; result = some (split_region r); writes = r.writes })
split_executed s (err e) = err e
split_executed s panic = panic

abbrev pub exec_one : Applier → Option SplitRequest → Outcome ExecError Executed
exec_one a none = panic
exec_one a (some req) = split_executed a.apply_state (exec_split a.region req)

abbrev pub exec_batch : Applier → Option BatchSplitRequest → Outcome ExecError Executed
exec_batch a none = panic
exec_batch a (some req) = split_executed a.apply_state (exec_batch_split a.region req)

abbrev pub compact_result : Option CompactLog → Option ExecResult
compact_result none = none
compact_result (some r) = some (compacted_log r)

abbrev pub compact_executed :
    Outcome ExecError (ApplyState × Option CompactLog) → Outcome ExecError Executed
compact_executed (ok (s, r)) = ok (plain s (compact_result r))
compact_executed (err e) = err e
compact_executed panic = panic

abbrev pub exec_compact : Applier → Option CompactLogRequest → Outcome ExecError Executed
exec_compact a none = panic
exec_compact a (some req) = compact_executed (exec_compact_log a.is_merging a.apply_state req)

abbrev pub exec_verify : Applier → Option (ℕ × Bytes) → Outcome ExecError Executed
exec_verify a none = panic
exec_verify a (some (index, hash)) = ok (plain a.apply_state (some (verified_hash index hash)))

-- The merge commands return no response, whose type is then set.
unfoldable pub exec_admin_cmd : Applier → AdminRequest → Outcome ExecError Executed
unfolding exec_change_peer exec_split exec_batch_split exec_compact_log
exec_admin_cmd a req = elim req.cmd_type [
  | AdminCmdType.change_peer ↦ exec_change a req.change_peer
  | AdminCmdType.split ↦ exec_one a req.split
  | AdminCmdType.batch_split ↦ exec_batch a req.splits
  | AdminCmdType.compact_log ↦ exec_compact a req.compact_log
  | AdminCmdType.transfer_leader ↦ err not_executed
  | AdminCmdType.compute_hash ↦ ok (plain a.apply_state none)
  | AdminCmdType.verify_hash ↦ exec_verify a req.verify_hash
  | AdminCmdType.prepare_merge ↦ panic
  | AdminCmdType.commit_merge ↦ panic
  | AdminCmdType.rollback_merge ↦ panic
  | AdminCmdType.invalid_admin ↦ err unsupported
]

module _ (exec_write : RaftLog → Option (List Write × Bool)) where
  abbrev pub write_executed : Applier → Option (List Write × Bool) → Outcome ExecError Executed
  write_executed a none = panic
  write_executed a (some (writes, range_deleted)) = ok (record {
    apply_state = a.apply_state;
    result = if range_deleted then some deleted_range else none;
    writes = writes;
  })

  abbrev pub exec_checked : Applier → RaftLog → Checked → Outcome ExecError Executed
  exec_checked a rlog (err e) = err (checked e)
  exec_checked a rlog panic = panic
  exec_checked a rlog (ok _) = elim (log_admin rlog) [
    | some req ↦ exec_admin_cmd a req
    | none ↦ write_executed a (exec_write rlog)
  ]

  -- The region is in the error from the version of the last merge on.
  unfoldable pub exec_raft_cmd : Applier → RaftLog → Outcome ExecError Executed
  unfolding exec_admin_cmd
  exec_raft_cmd a rlog = elim (epoch rlog) [
    | none ↦ panic
    | some e ↦
        exec_checked a rlog (check_region_epoch rlog a.region (leb a.last_merge_version e.ver))
  ]

abbrev pub new_region_of : Region → Option ExecResult → Region
new_region_of region (some (changed_peer r)) = r.region
new_region_of region (some (split_region r)) = r.derived
new_region_of region _ = region

abbrev pub is_self_removed : Option ExecResult → Bool
is_self_removed (some (changed_peer r)) = r.removed_self
is_self_removed _ = false

-- After a command: the state is that of the command, at its index.
abbrev pub advance : Applier → ApplyState → Option ExecResult → ℕ → ℕ → Applier
advance a s result index term = record a {
  region = new_region_of a.region result;
  stopped = a.stopped || is_self_removed result;
  pending_remove = a.pending_remove || is_self_removed result;
  apply_state = record s { applied_index = index };
  applied_index_term = term;
}

-- The applier, the batch, the result, and the error that the response has. `none` is a panic.
pub record Applied : Type 0 where
  pub applier : Applier
  pub wb : List Write
  pub result : Option ExecResult
  pub error : Option ExecError

abbrev pub applied_from : Applier → ℕ → ℕ → List Write → Outcome ExecError Executed → Option Applied
applied_from a index term wb panic = none
applied_from a index term wb (err e) = some (record {
  applier = advance a a.apply_state none index term;
  wb = wb;
  result = none;
  error = some e;
})
applied_from a index term wb (ok x) = some (record {
  applier = advance a x.apply_state x.result index term;
  wb = wb ++ x.writes;
  result = x.result;
  error = none;
})

module _ (exec_write : RaftLog → Option (List Write × Bool)) where
  unfoldable pub apply_raft_cmd : Applier → ℕ → ℕ → RaftLog → List Write → Option Applied
  unfolding exec_raft_cmd
  apply_raft_cmd a index term rlog wb =
      if a.pending_remove
      then none
      else applied_from a index term wb (exec_raft_cmd exec_write a rlog)
