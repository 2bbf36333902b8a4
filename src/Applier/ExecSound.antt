-- ===== src/Applier/ExecSound.antt =====
-- What every command keeps: no two peers on one store, and no truncation beyond the applied index.
use unistore.Applier.{Write}
use unistore.Applier.ConfChangePeers.{exec_change_peer-find_peer}
use unistore.Applier.SplitResult.{exec_batch_split-derived}
use unistore.Applier.ConfChange.{exec_change_peer}
use unistore.Applier.Compact.{CompactLog, exec_compact_log, exec_compact_log-truncated}
use unistore.Applier.Split.{exec_batch_split, exec_split}
use unistore.Region.Peers.{DistinctStores}
use unistore.Applier.Exec.{
  Applier, exec_admin_cmd, Executed, exec_change, split_executed, exec_compact, exec_verify,
  new_region_of, compact_result, exec_raft_cmd, exec_batch, exec_one, write_executed,
}
use unistore.Base.{
  ℕ, ◌≤◌, ◌≡◌, inl, inr, refl, Bool, true, false, List, [], ◌∷◌, Option, none, some, ok, arith,
  Bytes, subst, Outcome-cases, sym, ap, Option-cases, leb,
}
use unistore.Request.{
  AdminCmdType, ChangePeerRequest, AdminRequest, CompactLogRequest, BatchSplitRequest, SplitRequest,
  RaftLog, epoch, check_region_epoch, log_admin,
}

pub record Sound (a : Applier) : Type 0 where
  pub distinct : DistinctStores a.region.peers
  pub truncated : a.apply_state.truncated_index ≤ a.apply_state.applied_index

-- What is to be shown of a command that succeeded.
abbrev pub Keeps : Applier → Executed → Type 0
Keeps a x =
    DistinctStores (new_region_of a.region x.result).peers
    × (x.apply_state.truncated_index ≤ x.apply_state.applied_index)
    × (x.apply_state.applied_index ≡ a.apply_state.applied_index)

plain-Keeps :
    (a : Applier) (x : Executed)
    → Sound a
    → x.apply_state ≡ a.apply_state
    → new_region_of a.region x.result ≡ a.region
    → Keeps a x
plain-Keeps a x v s r = (
  subst (λ g. DistinctStores g.peers) (sym r) v.distinct,
  ground (arith, v.truncated),
  ground arith,
)

change-Keeps :
    (a : Applier) (o : Option ChangePeerRequest) (x : Executed)
    → Sound a
    → exec_change a o ≡ ok x
    → Keeps a x
change-Keeps a none x v e = absurd (cc)
change-Keeps a (some req) x v e =
    elim (Outcome-cases (exec_change_peer a.id a.pending_remove a.region req)) [
      | inl (r, p) ↦
          let (d, f, g) =
            exec_change_peer-find_peer a.id a.pending_remove a.region req r v.distinct p in
          let same : new_region_of a.region x.result ≡ r.region = ground arith in
          (
            subst (λ g. DistinctStores g.peers) (sym same) d,
            ground (arith, v.truncated),
            ground arith,
          )
      | inr (inl (y, p)) ↦ absurd (ground arith)
      | inr (inr p) ↦ absurd (ground arith)
    ]

split-Keeps :
    (a : Applier) (req : BatchSplitRequest) (x : Executed)
    → Sound a
    → split_executed a.apply_state (exec_batch_split a.region req) ≡ ok x
    → Keeps a x
split-Keeps a req x v e = elim (Outcome-cases (exec_batch_split a.region req)) [
  | inl (r, p) ↦
      let same : new_region_of a.region x.result ≡ r.derived = ground arith in
      let peers = exec_batch_split-derived a.region req r p in
      (
        subst (λ g. DistinctStores g.peers) (sym same)
            (subst DistinctStores (sym peers) v.distinct),
        ground (arith, v.truncated),
        ground arith,
      )
  | inr (inl (y, p)) ↦ absurd (ground arith)
  | inr (inr p) ↦ absurd (ground arith)
]

one-Keeps :
    (a : Applier) (o : Option SplitRequest) (x : Executed)
    → Sound a
    → exec_one a o ≡ ok x
    → Keeps a x
unfolding exec_split
one-Keeps a none x v e = absurd (cc)
one-Keeps a (some req) x v e =
    split-Keeps a (record { requests = req ∷ []; right_derive = req.right_derive }) x v e

batch-Keeps :
    (a : Applier) (o : Option BatchSplitRequest) (x : Executed)
    → Sound a
    → exec_batch a o ≡ ok x
    → Keeps a x
batch-Keeps a none x v e = absurd (cc)
batch-Keeps a (some req) x v e = split-Keeps a req x v e

compact-Keeps :
    (a : Applier) (o : Option CompactLogRequest) (x : Executed)
    → Sound a
    → exec_compact a o ≡ ok x
    → Keeps a x
compact-Keeps a none x v e = absurd (cc)
compact-Keeps a (some req) x v e =
    elim (Outcome-cases (exec_compact_log a.is_merging a.apply_state req)) [
      | inl ((s, r), p) ↦
          let t = exec_compact_log-truncated a.is_merging a.apply_state s req r v.truncated p in
          let same : new_region_of a.region x.result ≡ a.region =
            compact_region a r x (ground arith) in
          (
            subst (λ g. DistinctStores g.peers) (sym same) v.distinct,
            ground (arith, t.1),
            ground (arith, t.2),
          )
      | inr (inl (y, p)) ↦ absurd (ground arith)
      | inr (inr p) ↦ absurd (ground arith)
    ]
  where
    compact_region :
        (a : Applier) (r : Option CompactLog) (x : Executed)
        → x.result ≡ compact_result r
        → new_region_of a.region x.result ≡ a.region
    compact_region a none x e = ap (new_region_of a.region) e
    compact_region a (some r) x e = ap (new_region_of a.region) e

verify-Keeps :
    (a : Applier) (o : Option (ℕ × Bytes)) (x : Executed)
    → Sound a
    → exec_verify a o ≡ ok x
    → Keeps a x
verify-Keeps a none x v e = absurd (cc)
verify-Keeps a (some (i, h)) x v e = plain-Keeps a x v (ground arith) (ground arith)

exec_admin_cmd-Keeps :
    (a : Applier) (req : AdminRequest) (t : AdminCmdType) (x : Executed)
    → req.cmd_type ≡ t
    → Sound a
    → exec_admin_cmd a req ≡ ok x
    → Keeps a x
unfolding exec_admin_cmd
exec_admin_cmd-Keeps a req AdminCmdType.change_peer x q v e =
    change-Keeps a req.change_peer x v (rw q at e)
exec_admin_cmd-Keeps a req AdminCmdType.split x q v e = one-Keeps a req.split x v (rw q at e)
exec_admin_cmd-Keeps a req AdminCmdType.batch_split x q v e =
    batch-Keeps a req.splits x v (rw q at e)
exec_admin_cmd-Keeps a req AdminCmdType.compact_log x q v e =
    compact-Keeps a req.compact_log x v (rw q at e)
exec_admin_cmd-Keeps a req AdminCmdType.verify_hash x q v e =
    verify-Keeps a req.verify_hash x v (rw q at e)
exec_admin_cmd-Keeps a req AdminCmdType.compute_hash x q v e =
    plain-Keeps a x v (ground arith) (ground arith)
exec_admin_cmd-Keeps a req AdminCmdType.transfer_leader x q v e = absurd (ground arith)
exec_admin_cmd-Keeps a req AdminCmdType.prepare_merge x q v e = absurd (ground arith)
exec_admin_cmd-Keeps a req AdminCmdType.commit_merge x q v e = absurd (ground arith)
exec_admin_cmd-Keeps a req AdminCmdType.rollback_merge x q v e = absurd (ground arith)
exec_admin_cmd-Keeps a req AdminCmdType.invalid_admin x q v e = absurd (ground arith)

pub exec_raft_cmd-Keeps :
    (exec_write : RaftLog → Option (List Write × Bool)) (a : Applier) (rlog : RaftLog)
    (x : Executed)
    → Sound a
    → exec_raft_cmd exec_write a rlog ≡ ok x
    → Keeps a x
unfolding exec_raft_cmd
exec_raft_cmd-Keeps exec_write a rlog x v e = elim (Option-cases (epoch rlog)) [
  | inl p ↦ absurd (ground arith)
  | inr (ep, p) ↦
      elim (Outcome-cases (check_region_epoch rlog a.region (leb a.last_merge_version ep.ver))) [
        | inl (u, q) ↦ elim (Option-cases (log_admin rlog)) [
          | inl r ↦ write-Keeps a (exec_write rlog) x v (ground arith)
          | inr (req, r) ↦ exec_admin_cmd-Keeps a req req.cmd_type x refl v (ground arith)
        ]
        | inr (inl (y, q)) ↦ absurd (ground arith)
        | inr (inr q) ↦ absurd (ground arith)
      ]
]
  where
    write-Keeps :
        (a : Applier) (w : Option (List Write × Bool)) (x : Executed)
        → Sound a
        → write_executed exec_write a w ≡ ok x
        → Keeps a x
    write-Keeps a none x v e = absurd (cc)
    write-Keeps a (some (ws, true)) x v e = plain-Keeps a x v (ground arith) (ground arith)
    write-Keeps a (some (ws, false)) x v e = plain-Keeps a x v (ground arith) (ground arith)
