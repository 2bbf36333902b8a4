-- ===== src/Applier/Compact.antt =====
-- raftstore/applier.go and raftstore/peer_storage.go: execCompactLog and CompactRaftLog.
use unistore.Base.{
  ℕ, ◌≤◌, ◌≡◌, ◌↔◌, ltb, leb, ◌==◌, Bool, if◌then◌else◌, Outcome, ok, err, panic, Option, none,
  some, arith,
}
use unistore.State.{ApplyState}
use unistore.PeerStorage.{first_index}
use unistore.Request.{CompactLogRequest}
use unistore.Applier.{ExecError, outdated_format, compacted_entries, beyond_applied}

unfoldable pub compact_raft_log : ApplyState → ℕ → ℕ → Outcome ExecError ApplyState
compact_raft_log s compact_index compact_term =
    if leb compact_index s.truncated_index
    then err compacted_entries
    else if ltb s.applied_index compact_index
    then err (beyond_applied compact_index s.applied_index)
    else ok (record s { truncated_index = compact_index; truncated_term = compact_term })

-- What was truncated, and the first index before that.
pub record CompactLog : Type 0 where
  pub truncated_index : ℕ
  pub first_index : ℕ

abbrev pub compacted_from :
    ℕ → Outcome ExecError ApplyState → Outcome ExecError (ApplyState × Option CompactLog)
compacted_from first (ok s) =
    ok (s, some (record { truncated_index = s.truncated_index; first_index = first }))
compacted_from first (err e) = err e
compacted_from first panic = panic

unfoldable pub exec_compact_log :
    Bool → ApplyState → CompactLogRequest → Outcome ExecError (ApplyState × Option CompactLog)
unfolding compact_raft_log
exec_compact_log is_merging s req =
    let first = first_index s in
    if leb req.compact_index first
    then ok (s, none)
    else if is_merging
    then ok (s, none)
    else if req.compact_term == 0
    then err outdated_format
    else compacted_from first (compact_raft_log s req.compact_index req.compact_term)

-- A log compaction that succeeds, from a truncated index within the applied index, never moves
-- the truncated index back or beyond the applied index, which it keeps, and reports a result
-- exactly if it moved it.
pub exec_compact_log-truncated :
    (is_merging : Bool) (s t : ApplyState) (req : CompactLogRequest) (r : Option CompactLog)
    → s.truncated_index ≤ s.applied_index
    → exec_compact_log is_merging s req ≡ ok (t, r)
    → (s.truncated_index ≤ t.truncated_index)
      × (t.truncated_index ≤ t.applied_index)
      × (t.applied_index ≡ s.applied_index)
      × ((r ≡ none) ↔ (t.truncated_index ≡ s.truncated_index))
unfolding exec_compact_log first_index
exec_compact_log-truncated is_merging s t req r h e =
    (ground arith, ground arith, ground arith, (λ n. ground arith, λ n. ground arith))
