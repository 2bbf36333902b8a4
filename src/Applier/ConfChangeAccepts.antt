-- ===== src/Applier/ConfChangeAccepts.antt =====
-- Which configuration changes are made.
use unistore.Region.Peers.{DistinctStores, remove_peer-find_peer}
use unistore.Request.{ConfChangeType, ChangePeerRequest}
use unistore.Applier.ConfChange.{
  promote_peer, changed_peers, add_node, remove_node, add_learner, exec_change_peer,
  ChangePeerResult, changed,
}
use unistore.Region.{
  find_peer, remove_peer, Peer, voter, learner, peer_equal, Region, is_learner, PeerRole, same_role,
}
use unistore.Base.{
  ℕ, ◌≡◌, ◌≢◌, ◌↔◌, ◌⊎◌, inl, inr, refl, ◌==◌, Bool, true, not, ◌||◌, List, [], ◌∷◌, ◌++◌, ok,
  panic, none, some, arith, Bool-cases, Option-cases, Outcome-cases,
}

-- The changes that are made.
abbrev pub Accepts : List Peer → ConfChangeType → Peer → Type 0
Accepts ps ConfChangeType.add_node peer =
    (find_peer ps peer.store_id ≡ none)
    ⊎ ((p : Peer) × (find_peer ps peer.store_id ≡ some p) × (p.role ≡ learner) × (p.id ≡ peer.id))
Accepts ps ConfChangeType.remove_node peer = find_peer ps peer.store_id ≡ some peer
Accepts ps ConfChangeType.add_learner_node peer = find_peer ps peer.store_id ≡ none

same_role_eq : (a b : PeerRole) → same_role a b ≡ true → a ≡ b
same_role_eq voter voter h = refl
same_role_eq voter learner h = cc
same_role_eq learner voter h = cc
same_role_eq learner learner h = refl

peer_ext : (p q : Peer) → p.id ≡ q.id → p.store_id ≡ q.store_id → p.role ≡ q.role → p ≡ q
peer_ext p q a b c = cc

eq_of_peer_equal : (p q : Peer) → peer_equal p q ≡ true → p ≡ q
unfolding peer_equal
eq_of_peer_equal p q h = ground (arith, same_role_eq p.role q.role, peer_ext p q)

peer_equal_refl : (p : Peer) → peer_equal p p ≡ true
unfolding peer_equal
peer_equal_refl p = ground arith

changed_peers-Accepts :
    (region : Region) (t : ConfChangeType) (peer : Peer)
    → DistinctStores region.peers
    → ((ps : List Peer) × (changed_peers region t peer ≡ ok ps)) ↔ Accepts region.peers t peer
unfolding changed_peers add_node remove_node add_learner
changed_peers-Accepts region ConfChangeType.add_node peer d =
    elim (Option-cases (find_peer region.peers peer.store_id)) [
      | inl p ↦ (λ o. inl p, λ a. (region.peers ++ (peer ∷ []), rw p refl))
      | inr (q, p) ↦ elim (Bool-cases (not (is_learner q.role) || not (q.id == peer.id))) [
        | inl n ↦ (λ o. absurd (ground arith), λ a. absurd (ground arith))
        | inr n ↦ (
          λ o. inr (q, p, ground arith, ground arith),
          λ a. (promote_peer region.peers peer.store_id, rw (p, n) refl),
        )
      ]
    ]
changed_peers-Accepts region ConfChangeType.remove_node peer d =
    let (found, left) = remove_peer-find_peer region.peers peer.store_id 0 d in
    (
      λ o. elim (Option-cases (find_peer region.peers peer.store_id)) [
        | inl p ↦ absurd (ground arith)
        | inr (q, p) ↦ ground (arith, eq_of_peer_equal q peer)
      ],
      λ a. ((remove_peer region.peers peer.store_id).0, ground (arith, peer_equal_refl peer)),
    )
changed_peers-Accepts region ConfChangeType.add_learner_node peer d =
    elim (Option-cases (find_peer region.peers peer.store_id)) [
      | inl p ↦ (λ o. p, λ a. (region.peers ++ (peer ∷ []), rw p refl))
      | inr (q, p) ↦ (λ o. absurd (ground arith), λ a. absurd (ground arith))
    ]

changed_peers-ne-panic :
    (region : Region) (t : ConfChangeType) (peer : Peer) → changed_peers region t peer ≢ panic
unfolding changed_peers add_node remove_node add_learner
changed_peers-ne-panic region ConfChangeType.add_node peer e =
    elim (Option-cases (find_peer region.peers peer.store_id)) [
      | inl p ↦ ground arith
      | inr (q, p) ↦ ground arith
    ]
changed_peers-ne-panic region ConfChangeType.remove_node peer e =
    elim (Option-cases (remove_peer region.peers peer.store_id).1) [
      | inl p ↦ ground arith
      | inr (q, p) ↦ ground arith
    ]
changed_peers-ne-panic region ConfChangeType.add_learner_node peer e =
    elim (Option-cases (find_peer region.peers peer.store_id)) [
      | inl p ↦ ground arith
      | inr (q, p) ↦ ground arith
    ]

-- A configuration change of a region with no two peers on one store never panics and succeeds
-- exactly if it adds a voter on a free store or promotes a learner with the same id, removes the
-- very peer of a store, or adds a learner on a free store.
pub exec_change_peer-Accepts :
    (id : ℕ) (pending_remove : Bool) (region : Region) (req : ChangePeerRequest)
    → DistinctStores region.peers
    → (((r : ChangePeerResult) × (exec_change_peer id pending_remove region req ≡ ok r))
        ↔ Accepts region.peers req.change_type req.peer)
      × (exec_change_peer id pending_remove region req ≢ panic)
unfolding exec_change_peer
exec_change_peer-Accepts id pending_remove region req d =
    let (to, from) = changed_peers-Accepts region req.change_type req.peer d in
    elim (Outcome-cases (changed_peers region req.change_type req.peer)) [
      | inl (ps, p) ↦ (
        (λ o. to (ps, p), λ a. (changed id pending_remove region req ps, rw p refl)),
        λ n. ground arith,
      )
      | inr (inl (x, p)) ↦ (
        (λ o. absurd (ground arith), λ a. absurd (let (ps, q) = from a in ground arith)),
        λ n. ground arith,
      )
      | inr (inr p) ↦ (
        (λ o. absurd (ground arith), λ a. absurd (let (ps, q) = from a in ground arith)),
        absurd (changed_peers-ne-panic region req.change_type req.peer p),
      )
    ]
