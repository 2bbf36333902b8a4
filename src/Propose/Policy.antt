-- ===== src/Propose/Policy.antt =====
-- raftstore/peer.go: Inspect and inspectLease.
-- The raft library's answer whether the leader is in its lease is part of the inspector, and so is
-- the time that the lease is inspected at.
use unistore.Lease.{inspect, LeaseState, Lease, Memory, expire, suspect}
use unistore.Base.Results.{ok, err, panic}
use unistore.Lease.{valid, expired, suspect}
use unistore.Base.{
  ℕ, ◌==◌, Bool, true, false, if◌then◌else◌, not, ◌&&◌, ◌||◌, List, [], ◌∷◌, Option, none, some,
  Outcome, ok, err,
}
use unistore.Request.{CmdType, RaftCmdRequest, AdminRequest, Request, RequestHeader}

pub data RequestPolicy : Type 0 where
  read_local read_index propose_normal propose_transfer_leader propose_conf_change : RequestPolicy

-- The errors of `RequestPolicyInvalid`.
pub data PolicyError : Type 0 where
  invalid_cmd_type mixed_batch : PolicyError

pub record Inspector : Type 0 where
  pub applied_index_term : ℕ
  pub term : ℕ
  pub in_lease : Bool
  pub leader_lease : Lease
  pub memory : Memory
  pub now : ℕ

unfoldable pub has_applied_to_current_term : Inspector → Bool
has_applied_to_current_term i = i.applied_index_term == i.term

abbrev pub with_lease : Inspector → Lease × Memory → Inspector
with_lease i (l, m) = record i { leader_lease = l; memory = m }

abbrev pub after_inspection : Inspector → LeaseState → Inspector
after_inspection i expired = with_lease i (expire i.leader_lease i.memory)
after_inspection i valid = i
after_inspection i suspect = i

-- A lease that has expired is expired for the remote leases, too.
unfoldable pub inspect_lease : Inspector → LeaseState × Inspector
unfolding inspect expire
inspect_lease i =
    let state = inspect i.leader_lease i.now in
    if i.in_lease then (state, after_inspection i state) else (suspect, i)

-- Whether a request reads, and whether it writes; `none` is a type that is refused.
unfoldable pub reads_writes : CmdType → Option (Bool × Bool)
reads_writes CmdType.get = some (true, false)
reads_writes CmdType.snap = some (true, false)
reads_writes CmdType.delete = some (false, true)
reads_writes CmdType.put = some (false, true)
reads_writes CmdType.delete_range = some (false, true)
reads_writes CmdType.ingest_sst = some (false, true)
reads_writes CmdType.prewrite = none
reads_writes CmdType.invalid = none
reads_writes CmdType.read_index = some (false, false)

-- The loop over the requests: whether one writes.
unfoldable pub scan : Bool → Bool → List Request → Outcome PolicyError Bool
unfolding reads_writes
scan has_read has_write [] = ok has_write
scan has_read has_write (r ∷ rs) = elim (reads_writes r.cmd_type) [
  | none ↦ err invalid_cmd_type
  | some (reads, writes) ↦
      let rest = scan (has_read || reads) (has_write || writes) rs in
      if (has_read || reads) && (has_write || writes) then err mixed_batch else rest
]

abbrev pub wants_quorum : Option RequestHeader → Bool
wants_quorum none = false
wants_quorum (some h) = h.read_quorum

abbrev pub by_lease : LeaseState × Inspector → RequestPolicy × Inspector
by_lease (valid, i) = (read_local, i)
by_lease (expired, i) = (read_index, i)
by_lease (suspect, i) = (read_index, i)

abbrev pub for_read : Inspector → RaftCmdRequest → RequestPolicy × Inspector
for_read i req =
    if wants_quorum req.header
    then (read_index, i)
    else if not (has_applied_to_current_term i)
    then (read_index, i)
    else by_lease (inspect_lease i)

abbrev pub after_scan :
    Inspector
    → RaftCmdRequest
    → Outcome PolicyError Bool
    → Outcome PolicyError (RequestPolicy × Inspector)
after_scan i req (err e) = err e
after_scan i req panic = panic
after_scan i req (ok has_write) = if has_write then ok (propose_normal, i) else ok (for_read i req)

abbrev pub for_admin : AdminRequest → RequestPolicy
for_admin a = elim a.change_peer [
  | some c ↦ propose_conf_change
  | none ↦ elim a.transfer_leader [ some p ↦ propose_transfer_leader | none ↦ propose_normal ]
]

unfoldable pub inspect_request :
    Inspector → RaftCmdRequest → Outcome PolicyError (RequestPolicy × Inspector)
unfolding scan inspect_lease has_applied_to_current_term
inspect_request i req = elim req.admin_request [
  | some a ↦ ok (for_admin a, i)
  | none ↦ after_scan i req (scan false false req.requests)
]
