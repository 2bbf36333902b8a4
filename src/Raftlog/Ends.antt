-- ===== src/Raftlog/Ends.antt =====
-- The visitors' loops end on every raft log, well formed or not.
use unistore.Base.{
  ℕ, ◌+◌, ◌≤◌, ◌≡◌, ◌≢◌, inl, inr, length, Bytes, get_le, length-get_le, length-split_at,
  split_cases, drop, err, some, arith,
}
use unistore.Raftlog.{
  CustomRaftLog, out_of_fuel, read_block, read_lock, read_commit, read_rollback,
  read_pessimistic_rollback, visits, iterate_lock, iterate_commit, iterate_rollback,
  iterate_pessimistic_rollback,
}
use unistore.Raftlog.Loop.{Takes, iterate-ne-stuck}

read_block_takes :
    (k : ℕ) (bs a rest : Bytes) → read_block k bs ≡ some (a, rest) → length rest + k ≤ length bs
unfolding read_block
read_block_takes k bs a rest e = elim (split_cases (get_le k bs)) [
  | inl p ↦ ground arith
  | inr (n, r, p) ↦ ground (arith, length-get_le k bs n r p, length-split_at n r a rest)
]

lock-Takes : Takes read_lock
unfolding read_lock
lock-Takes bs a rest e = elim (split_cases (read_block 2 bs)) [
  | inl p ↦ ground arith
  | inr (key, r, p) ↦ elim (split_cases (read_block 4 r)) [
    | inl q ↦ ground arith
    | inr (val, s, q) ↦ ground (arith, read_block_takes 2 bs key r p, read_block_takes 4 r val s q)
  ]
]

commit-Takes : Takes read_commit
unfolding read_commit
commit-Takes bs a rest e = elim (split_cases (read_block 2 bs)) [
  | inl p ↦ ground arith
  | inr (key, r, p) ↦ elim (split_cases (read_block 4 r)) [
    | inl q ↦ ground arith
    | inr (val, s, q) ↦ elim (split_cases (get_le 8 s)) [
      | inl u ↦ ground arith
      | inr (ts, t, u) ↦ ground (
        arith,
        read_block_takes 2 bs key r p,
        read_block_takes 4 r val s q,
        length-get_le 8 s ts t u,
      )
    ]
  ]
]

rollback-Takes : Takes read_rollback
unfolding read_rollback
rollback-Takes bs a rest e = elim (split_cases (read_block 2 bs)) [
  | inl p ↦ ground arith
  | inr (key, r, p) ↦ elim (split_cases (get_le 8 r)) [
    | inl q ↦ ground arith
    | inr (ts, s, q) ↦ elim (split_cases (get_le 1 s)) [
      | inl u ↦ ground arith
      | inr (del, t, u) ↦ ground (
        arith,
        read_block_takes 2 bs key r p,
        length-get_le 8 r ts s q,
        length-get_le 1 s del t u,
      )
    ]
  ]
]

pessimistic_rollback-Takes : Takes read_pessimistic_rollback
unfolding read_pessimistic_rollback
pessimistic_rollback-Takes bs a rest e = ground (arith, read_block_takes 2 bs a rest e)

-- The visitors' four loops end on every raft log.
pub iterate-ends :
    (c : CustomRaftLog)
    → (iterate_lock c ≢ err out_of_fuel)
      × (iterate_commit c ≢ err out_of_fuel)
      × (iterate_rollback c ≢ err out_of_fuel)
      × (iterate_pessimistic_rollback c ≢ err out_of_fuel)
unfolding iterate_lock iterate_commit iterate_rollback iterate_pessimistic_rollback visits
iterate-ends c =
    let rest = drop 44 c.content in
    let enough : length rest ≤ length rest = omega arith in
    (
      iterate-ne-stuck read_lock lock-Takes (length rest) rest enough,
      iterate-ne-stuck read_commit commit-Takes (length rest) rest enough,
      iterate-ne-stuck read_rollback rollback-Takes (length rest) rest enough,
      iterate-ne-stuck read_pessimistic_rollback pessimistic_rollback-Takes (length rest) rest
          enough,
    )
