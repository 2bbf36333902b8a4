-- ===== src/Applier/ExecEnd.antt =====
-- When the execution of a command does not panic.
use unistore.Applier.ConfChangeAccepts.{exec_change_peer-Accepts}
use unistore.Applier.SplitResult.{exec_batch_split-ne-panic}
use unistore.Applier.ConfChange.{exec_change_peer}
use unistore.Applier.ExecSound.{Sound}
use unistore.Applier.{Write, Bytes}
use unistore.Region.{Region}
use unistore.Applier.Split.{exec_split, exec_batch_split}
use unistore.Raftlog.{Epoch}
use unistore.Applier.Compact.{exec_compact_log, compact_raft_log}
use unistore.Base.{
  ℕ, ◌≡◌, ◌≢◌, ◌⊎◌, inl, inr, refl, Bool, List, [], ◌∷◌, none, some, panic, arith, Bytes,
  Outcome-cases, leb, Option, Option-cases,
}
use unistore.Request.{
  AdminCmdType, check_region_epoch, AdminRequest, RaftLog, ChangePeerRequest, BatchSplitRequest,
  epoch, CompactLogRequest, SplitRequest, log_admin,
}
use unistore.Applier.Exec.{
  exec_admin_cmd, Applier, exec_raft_cmd, split_executed, exec_change, exec_compact,
}

-- An admin command that has the message of its type, and is no merge.
abbrev pub IsWhole : AdminRequest → AdminCmdType → Type 0
IsWhole req AdminCmdType.change_peer = (c : ChangePeerRequest) × (req.change_peer ≡ some c)
IsWhole req AdminCmdType.split = (c : SplitRequest) × (req.split ≡ some c)
IsWhole req AdminCmdType.batch_split = (c : BatchSplitRequest) × (req.splits ≡ some c)
IsWhole req AdminCmdType.compact_log = (c : CompactLogRequest) × (req.compact_log ≡ some c)
IsWhole req AdminCmdType.verify_hash = (c : ℕ × Bytes) × (req.verify_hash ≡ some c)
IsWhole req AdminCmdType.prepare_merge = ⊥
IsWhole req AdminCmdType.commit_merge = ⊥
IsWhole req AdminCmdType.rollback_merge = ⊥
IsWhole req _ = Unit {0}

-- A raft log with an epoch whose admin command is whole, or that is a write command which the
-- parameter executes without a panic.
abbrev pub IsExecutable : (RaftLog → Option (List Write × Bool)) → RaftLog → Type 0
IsExecutable exec_write rlog =
    ((e : Epoch) × (epoch rlog ≡ some e))
    × (((log_admin rlog ≡ none) × (exec_write rlog ≢ none))
        ⊎ ((req : AdminRequest) × (log_admin rlog ≡ some req) × IsWhole req req.cmd_type))

change-ne-panic : (a : Applier) (c : ChangePeerRequest) → Sound a → exec_change a (some c) ≢ panic
change-ne-panic a c v e = elim (Outcome-cases (exec_change_peer a.id a.pending_remove a.region c)) [
  | inl (r, p) ↦ ground arith
  | inr (inl (x, p)) ↦ ground arith
  | inr (inr p) ↦ (exec_change_peer-Accepts a.id a.pending_remove a.region c v.distinct).1 p
]

split-ne-panic :
    (a : Applier) (c : BatchSplitRequest)
    → split_executed a.apply_state (exec_batch_split a.region c) ≢ panic
split-ne-panic a c e = elim (Outcome-cases (exec_batch_split a.region c)) [
  | inl (r, p) ↦ ground arith
  | inr (inl (x, p)) ↦ ground arith
  | inr (inr p) ↦ exec_batch_split-ne-panic a.region c p
]

compact-ne-panic : (a : Applier) (c : CompactLogRequest) → exec_compact a (some c) ≢ panic
unfolding exec_compact_log compact_raft_log
compact-ne-panic a c e = elim (Outcome-cases (exec_compact_log a.is_merging a.apply_state c)) [
  | inl (r, p) ↦ ground arith
  | inr (inl (x, p)) ↦ ground arith
  | inr (inr p) ↦ ground arith
]

exec_admin_cmd-ne-panic :
    (a : Applier) (req : AdminRequest) (t : AdminCmdType)
    → req.cmd_type ≡ t
    → IsWhole req t
    → Sound a
    → exec_admin_cmd a req ≢ panic
unfolding exec_admin_cmd exec_split
exec_admin_cmd-ne-panic a req AdminCmdType.change_peer q (c, p) v e =
    change-ne-panic a c v (rw p at (rw q at e))
exec_admin_cmd-ne-panic a req AdminCmdType.split q (c, p) v e =
    split-ne-panic a (record { requests = c ∷ []; right_derive = c.right_derive })
      (rw p at (rw q at e))
exec_admin_cmd-ne-panic a req AdminCmdType.batch_split q (c, p) v e =
    split-ne-panic a c (rw p at (rw q at e))
exec_admin_cmd-ne-panic a req AdminCmdType.compact_log q (c, p) v e =
    compact-ne-panic a c (rw p at (rw q at e))
exec_admin_cmd-ne-panic a req AdminCmdType.verify_hash q (c, p) v e = ground arith
exec_admin_cmd-ne-panic a req AdminCmdType.prepare_merge q w v e = absurd w
exec_admin_cmd-ne-panic a req AdminCmdType.commit_merge q w v e = absurd w
exec_admin_cmd-ne-panic a req AdminCmdType.rollback_merge q w v e = absurd w
exec_admin_cmd-ne-panic a req AdminCmdType.compute_hash q w v e = ground arith
exec_admin_cmd-ne-panic a req AdminCmdType.transfer_leader q w v e = ground arith
exec_admin_cmd-ne-panic a req AdminCmdType.invalid_admin q w v e = ground arith

check_region_epoch-ne-panic :
    (rlog : RaftLog) (region : Region) (include : Bool) (e : Epoch)
    → epoch rlog ≡ some e
    → check_region_epoch rlog region include ≢ panic
unfolding check_region_epoch
check_region_epoch-ne-panic rlog region include e p h = ground arith

pub exec_raft_cmd-ne-panic :
    (exec_write : RaftLog → Option (List Write × Bool)) (a : Applier) (rlog : RaftLog)
    → IsExecutable exec_write rlog
    → Sound a
    → exec_raft_cmd exec_write a rlog ≢ panic
unfolding exec_raft_cmd
exec_raft_cmd-ne-panic exec_write a rlog ((ep, p), w) v h =
    elim (Outcome-cases (check_region_epoch rlog a.region (leb a.last_merge_version ep.ver))) [
      | inl (u, q) ↦ elim w [
        | inl (r, k) ↦ elim (Option-cases (exec_write rlog)) [
          | inl z ↦ k z
          | inr (ws, z) ↦ ground arith
        ]
        | inr (req, r, k) ↦ exec_admin_cmd-ne-panic a req req.cmd_type refl k v (ground arith)
      ]
      | inr (inl (y, q)) ↦ ground arith
      | inr (inr q) ↦
          check_region_epoch-ne-panic rlog a.region (leb a.last_merge_version ep.ver) ep p q
    ]
