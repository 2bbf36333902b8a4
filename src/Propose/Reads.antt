-- ===== src/Propose/Reads.antt =====
-- raftstore/peer.go: the queue of reads that wait for the raft group, and the queue of proposals.
-- A callback is a number. `none` is a slice bound out of range.
use unistore.Base.{
  ℕ, ◌+◌, ◌%◌, ◌^◌, ltb, leb, if◌then◌else◌, List, [], ◌∷◌, ◌++◌, length, take, drop, Option, none,
  some, Bytes, put_be, ◌==◌, ◌&&◌,
}

pub record ReadIndexRequest : Type 0 where
  pub id : ℕ
  -- The callbacks of the requests.
  pub cmds : List ℕ
  pub renew_lease_time : Option ℕ

unfoldable pub binary_id : ReadIndexRequest → Bytes
binary_id r = put_be 8 r.id []

pub record ReadIndexQueue : Type 0 where
  pub id_allocator : ℕ
  pub reads : List ReadIndexRequest
  pub ready_cnt : ℕ

abbrev pub popped : List ReadIndexRequest → Option ReadIndexRequest × List ReadIndexRequest
popped [] = (none, [])
popped (r ∷ rs) = (some r, rs)

unfoldable pub pop_front_read : ReadIndexQueue → Option ReadIndexRequest × ReadIndexQueue
pop_front_read q = let (r, rs) = popped q.reads in (r, record q { reads = rs })

unfoldable pub next_id : ReadIndexQueue → ℕ × ReadIndexQueue
next_id q = let id = (q.id_allocator + 1) % 2 ^ 64 in (id, record q { id_allocator = id })

abbrev pub callbacks : List ReadIndexRequest → List ℕ
callbacks [] = []
callbacks (r ∷ rs) = r.cmds ++ callbacks rs

-- The callbacks that are told that their request is stale, and the queue that is left.
unfoldable pub clear_uncommitted : ReadIndexQueue → Option (List ℕ × ReadIndexQueue)
clear_uncommitted q =
    if leb q.ready_cnt (length q.reads)
    then some (callbacks (drop q.ready_cnt q.reads), record q { reads = take q.ready_cnt q.reads })
    else none

pub record ProposalMeta : Type 0 where
  pub index : ℕ
  pub term : ℕ
  pub renew_lease_time : Option ℕ

abbrev pub pop_front_meta : List ProposalMeta → ℕ → Option ProposalMeta × List ProposalMeta
pop_front_meta [] term = (none, [])
pop_front_meta (m ∷ ms) term = if ltb term m.term then (none, m ∷ ms) else (some m, ms)

abbrev pub push_meta : List ProposalMeta → ProposalMeta → List ProposalMeta
push_meta ms m = ms ++ (m ∷ [])

-- `findProposeTime`, the loop over the proposals: the time, and the proposals that are left.
unfoldable pub find_propose_time : ℕ → ℕ → List ProposalMeta → Option ℕ × List ProposalMeta
find_propose_time index term [] = (none, [])
find_propose_time index term (m ∷ ms) =
    let later = find_propose_time index term ms in
    if ltb term m.term
    then (none, m ∷ ms)
    else if m.index == index && m.term == term
    then (m.renew_lease_time, ms)
    else later
