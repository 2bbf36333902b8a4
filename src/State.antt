-- ===== src/State.antt =====
-- raftstore/state.go: the persistent state of a raft group, and its fixed binary form.
pub mod Codec
use unistore.Base.{ℕ, [], ◌∷◌, Bytes, put_le, get_le, Option, none, some}
use unistore.Base.Partial.{◌>>=◌}

pub record ApplyState : Type 0 where
  pub applied_index : ℕ
  pub truncated_index : ℕ
  pub truncated_term : ℕ

pub record RaftState : Type 0 where
  pub term : ℕ
  pub vote : ℕ
  pub commit : ℕ
  pub last_index : ℕ

unfoldable pub marshal_apply : ApplyState → Bytes
marshal_apply s =
    put_le 8 s.applied_index (put_le 8 s.truncated_index (put_le 8 s.truncated_term []))

-- `none` is the panic on a slice that is too short.
unfoldable pub unmarshal_apply : Bytes → Option ApplyState
unmarshal_apply bs = do
  (applied, bs1) ← get_le 8 bs
  (truncated, bs2) ← get_le 8 bs1
  (term, _) ← get_le 8 bs2
  some (record { applied_index = applied; truncated_index = truncated; truncated_term = term })

unfoldable pub marshal_raft : RaftState → Bytes
marshal_raft s = put_le 8 s.term (put_le 8 s.vote (put_le 8 s.commit (put_le 8 s.last_index [])))

unfoldable pub unmarshal_raft : Bytes → Option RaftState
unmarshal_raft bs = do
  (term, bs1) ← get_le 8 bs
  (vote, bs2) ← get_le 8 bs1
  (commit, bs3) ← get_le 8 bs2
  (last_index, _) ← get_le 8 bs3
  some (record { term = term; vote = vote; commit = commit; last_index = last_index })
