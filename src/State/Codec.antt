-- ===== src/State/Codec.antt =====
-- The states that are written are the states that are read.
use unistore.Base.{
  ◌≡◌, ◌++◌, length, Bytes, IsU64, get_le-put_le, length-put_le, put_le-append, some, arith,
}
use unistore.State.{
  ApplyState, RaftState, marshal_apply, unmarshal_apply, marshal_raft, unmarshal_raft,
}

abbrev pub IsApplyRange : ApplyState → Type 0
IsApplyRange s = IsU64 s.applied_index × IsU64 s.truncated_index × IsU64 s.truncated_term

abbrev pub IsRaftRange : RaftState → Type 0
IsRaftRange s = IsU64 s.term × IsU64 s.vote × IsU64 s.commit × IsU64 s.last_index

-- A 64-bit apply state takes 24 bytes, which read back as that state whatever follows them.
unmarshal_apply-marshal_apply :
    (s : ApplyState) (rest : Bytes)
    → IsApplyRange s
    → (unmarshal_apply (marshal_apply s ++ rest) ≡ some s) × (length (marshal_apply s) ≡ 24)
unfolding unmarshal_apply marshal_apply
unmarshal_apply-marshal_apply s rest h =
    (simp (put_le-append, get_le-put_le, h.0, h.1, h.2), simp length-put_le)

-- A 64-bit raft state takes 32 bytes, which read back as that state whatever follows them.
pub unmarshal_raft-marshal_raft :
    (s : RaftState) (rest : Bytes)
    → IsRaftRange s
    → (unmarshal_raft (marshal_raft s ++ rest) ≡ some s) × (length (marshal_raft s) ≡ 32)
unfolding unmarshal_raft marshal_raft
unmarshal_raft-marshal_raft s rest h =
    (simp (put_le-append, get_le-put_le, h.0, h.1, h.2, h.3), omega (arith, length-put_le))
