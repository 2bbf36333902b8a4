-- ===== src/Propose/ReadLocal.antt =====
-- When a leader reads its own data.
use unistore.Lease.{inspect, valid, LeaseState, suspect, expired}
use unistore.Propose.Policy.{
  scan, inspect_request, reads_writes, inspect_lease, has_applied_to_current_term, Inspector,
  read_local, wants_quorum, for_read, for_admin,
}
use unistore.Base.{
  ◌≡◌, ◌↔◌, ◌⊎◌, inl, inr, Bool, true, false, ◌||◌, List, [], ◌∷◌, none, some, arith, All, ok, refl,
  Option-cases, ◌≢◌, Outcome-cases, All-map, ap,
}
use unistore.Request.{CmdType, Request, RaftCmdRequest, AdminRequest}

-- A request that reads, or asks for the index of a read.
abbrev pub IsRead : Request → Type 0
IsRead r =
    (r.cmd_type ≡ CmdType.get) ⊎ ((r.cmd_type ≡ CmdType.snap) ⊎ (r.cmd_type ≡ CmdType.read_index))

abbrev PassesScan : Request → Type 0
PassesScan r = (b : Bool) × (reads_writes r.cmd_type ≡ some (b, false))

scan-ne-read : (has_read : Bool) (rs : List Request) → scan has_read true rs ≢ ok false
unfolding scan
scan-ne-read has_read [] e = cc
scan-ne-read has_read (r ∷ rs) e = elim (Option-cases (reads_writes r.cmd_type)) [
  | inl p ↦ ground arith
  | inr ((x, w), p) ↦ ground (arith, scan-ne-read (has_read || x) rs)
]

scan-All :
    (has_read : Bool) (rs : List Request) → (scan has_read false rs ≡ ok false) ↔ All PassesScan rs
unfolding scan
scan-All has_read [] = (λ e. tt, λ a. refl)
scan-All has_read (r ∷ rs) = elim (Option-cases (reads_writes r.cmd_type)) [
  | inl p ↦ (λ e. absurd (ground arith), λ a. absurd (let (b, q) = a.0 in ground arith))
  | inr ((x, true), p) ↦ (
    λ e. absurd (ground (arith, scan-ne-read (has_read || x) rs)),
    λ a. absurd (let (b, q) = a.0 in ground arith),
  )
  | inr ((x, false), p) ↦
      let (to, from) = scan-All (has_read || x) rs in
      (λ e. ((x, p), to (ground arith)), λ a. ground (arith, from a.1))
]

PassesScan-IsRead :
    (t : CmdType) (b : Bool)
    → reads_writes t ≡ some (b, false)
    → (t ≡ CmdType.get) ⊎ ((t ≡ CmdType.snap) ⊎ (t ≡ CmdType.read_index))
unfolding reads_writes
PassesScan-IsRead CmdType.get b e = inl refl
PassesScan-IsRead CmdType.snap b e = inr (inl refl)
PassesScan-IsRead CmdType.read_index b e = inr (inr refl)
PassesScan-IsRead CmdType.delete b e = absurd (cc)
PassesScan-IsRead CmdType.put b e = absurd (cc)
PassesScan-IsRead CmdType.delete_range b e = absurd (cc)
PassesScan-IsRead CmdType.ingest_sst b e = absurd (cc)
PassesScan-IsRead CmdType.prewrite b e = absurd (cc)
PassesScan-IsRead CmdType.invalid b e = absurd (cc)

IsRead-PassesScan : (r : Request) → IsRead r → PassesScan r
unfolding reads_writes
IsRead-PassesScan r (inl e) = (true, ap reads_writes e)
IsRead-PassesScan r (inr (inl e)) = (true, ap reads_writes e)
IsRead-PassesScan r (inr (inr e)) = (false, ap reads_writes e)

scan-IsRead : (rs : List Request) → (scan false false rs ≡ ok false) ↔ All IsRead rs
scan-IsRead rs =
    let (to, from) = scan-All false rs in
    (
      λ e. All-map PassesScan (λ r p. PassesScan-IsRead r.cmd_type p.0 p.1) rs (to e),
      λ a. from (All-map IsRead IsRead-PassesScan rs a),
    )

policy_of_admin : (a : AdminRequest) → for_admin a ≢ read_local
policy_of_admin a e = elim (Option-cases a.change_peer) [
  | inl p ↦ elim (Option-cases a.transfer_leader) [
    | inl q ↦ ground arith
    | inr (t, q) ↦ ground arith
  ]
  | inr (c, p) ↦ ground arith
]

for_read_lem :
    (i : Inspector) (req : RaftCmdRequest)
    → (for_read i req ≡ (read_local, i)) ↔ (
        (wants_quorum req.header ≡ false)
        × (i.applied_index_term ≡ i.term)
        × (i.in_lease ≡ true)
        × (inspect i.leader_lease i.now ≡ valid))
unfolding inspect_lease has_applied_to_current_term
for_read_lem i req = elim (LeaseState-cases (inspect i.leader_lease i.now)) [
  | inl p ↦ (λ e. ground arith, λ h. ground arith)
  | inr (inl p) ↦ (λ e. ground arith, λ h. ground arith)
  | inr (inr p) ↦ (λ e. ground arith, λ h. ground arith)
]
  where
    LeaseState-cases : (s : LeaseState) → (s ≡ valid) ⊎ ((s ≡ suspect) ⊎ (s ≡ expired))
    LeaseState-cases valid = inl refl
    LeaseState-cases suspect = inr (inl refl)
    LeaseState-cases expired = inr (inr refl)

-- Inspect answers that a request is read locally, with the inspector as it was, exactly if the
-- request has no admin command, all its requests are gets, snapshots or read indexes, it wants no
-- quorum read, the applied index is of the current term, the raft library says that the leader is
-- in its lease, and the leader's lease is valid at that time.
pub inspect_request-read_local :
    (i : Inspector) (req : RaftCmdRequest)
    → (inspect_request i req ≡ ok (read_local, i)) ↔ (
        (req.admin_request ≡ none)
        × All IsRead req.requests
        × (wants_quorum req.header ≡ false)
        × (i.applied_index_term ≡ i.term)
        × (i.in_lease ≡ true)
        × (inspect i.leader_lease i.now ≡ valid))
unfolding inspect_request inspect_lease has_applied_to_current_term
inspect_request-read_local i req = elim (Option-cases req.admin_request) [
  | inr (a, p) ↦ (λ e. absurd (policy_of_admin a (ground arith)), λ h. absurd (ground arith))
  | inl p ↦ elim (Outcome-cases (scan false false req.requests)) [
    | inl (true, q) ↦
        (λ e. absurd (ground arith), λ h. absurd (ground (arith, (scan-IsRead req.requests).1 h.1)))
    | inl (false, q) ↦ (
      λ e.
          let (w, t, l, v) = (for_read_lem i req).0 (ground arith) in
          (p, (scan-IsRead req.requests).0 q, w, t, l, v),
      λ h. ground (arith, (for_read_lem i req).1 (h.2, h.3, h.4, h.5)),
    )
    | inr (inl (x, q)) ↦
        (λ e. absurd (ground arith), λ h. absurd (ground (arith, (scan-IsRead req.requests).1 h.1)))
    | inr (inr q) ↦
        (λ e. absurd (ground arith), λ h. absurd (ground (arith, (scan-IsRead req.requests).1 h.1)))
  ]
]
