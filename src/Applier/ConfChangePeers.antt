-- ===== src/Applier/ConfChangePeers.antt =====
-- The peers of a region after a configuration change.
use unistore.Region.Peers.{OtherStores, DistinctStores, remove_peer-find_peer}
use unistore.Request.{ConfChangeType, ChangePeerRequest}
use unistore.Applier.ConfChange.{
  promote_peer, changed_peers, add_node, remove_node, add_learner, exec_change_peer,
  ChangePeerResult, with_peers, next_conf_ver,
}
use unistore.Region.{find_peer, remove_peer, Peer, voter, Region}
use unistore.Base.{
  ℕ, ◌≡◌, ◌≢◌, inl, inr, ◌==◌, Bool, if◌then◌else◌, List, [], ◌∷◌, ◌++◌, ok, Option, none, some,
  arith, Bool-cases, Option-cases, subst, Outcome-cases, ap, sym, ◌∙◌,
}

-- The peer that a store has after the change.
unfoldable pub peer_after : List Peer → ConfChangeType → Peer → ℕ → Option Peer
peer_after ps ConfChangeType.add_node peer s =
    if s == peer.store_id
    then elim (find_peer ps s) [ none ↦ some peer | some q ↦ some (record q { role = voter }) ]
    else find_peer ps s
peer_after ps ConfChangeType.remove_node peer s =
    if s == peer.store_id then none else find_peer ps s
peer_after ps ConfChangeType.add_learner_node peer s =
    if s == peer.store_id then some peer else find_peer ps s

find_peer-append :
    (ps : List Peer) (p : Peer) (s : ℕ)
    → find_peer (ps ++ (p ∷ [])) s ≡ (elim (find_peer ps s) [
      | some q ↦ some q
      | none ↦ if p.store_id == s then some p else none
    ])
unfolding find_peer
find_peer-append [] p s = ground arith
find_peer-append (q ∷ ps) p s = ground (arith, find_peer-append ps p s)

find_peer-promote_peer :
    (ps : List Peer) (s t : ℕ)
    → find_peer (promote_peer ps s) t ≡ (
        if t == s
        then elim (find_peer ps s) [ some q ↦ some (record q { role = voter }) | none ↦ none ]
        else find_peer ps t)
unfolding find_peer promote_peer
find_peer-promote_peer [] s t = ground arith
find_peer-promote_peer (q ∷ ps) s t = ground (arith, find_peer-promote_peer ps s t)

OtherStores-append :
    (ps : List Peer) (p : Peer) (s : ℕ)
    → OtherStores s ps
    → p.store_id ≢ s
    → OtherStores s (ps ++ (p ∷ []))
OtherStores-append [] p s h n = (n, tt)
OtherStores-append (q ∷ ps) p s h n = (h.0, OtherStores-append ps p s h.1 n)

DistinctStores-append :
    (ps : List Peer) (p : Peer)
    → DistinctStores ps
    → find_peer ps p.store_id ≡ none
    → DistinctStores (ps ++ (p ∷ []))
unfolding find_peer
DistinctStores-append [] p d h = (tt, tt)
DistinctStores-append (q ∷ ps) p d h = (
  OtherStores-append ps p q.store_id d.0 (λ e. ground arith),
  DistinctStores-append ps p d.1 (ground arith),
)

OtherStores-promote_peer :
    (ps : List Peer) (s t : ℕ) → OtherStores t ps → OtherStores t (promote_peer ps s)
unfolding promote_peer
OtherStores-promote_peer [] s t h = tt
OtherStores-promote_peer (q ∷ ps) s t h = elim (Bool-cases (q.store_id == s)) [
  | inl p ↦ rw p h
  | inr p ↦ rw p (h.0, OtherStores-promote_peer ps s t h.1)
]

DistinctStores-promote_peer :
    (ps : List Peer) (s : ℕ) → DistinctStores ps → DistinctStores (promote_peer ps s)
unfolding promote_peer
DistinctStores-promote_peer [] s h = tt
DistinctStores-promote_peer (q ∷ ps) s h = elim (Bool-cases (q.store_id == s)) [
  | inl p ↦ rw p h
  | inr p ↦
      rw p (OtherStores-promote_peer ps s q.store_id h.0, DistinctStores-promote_peer ps s h.1)
]

OtherStores-remove_peer :
    (ps : List Peer) (s t : ℕ) → OtherStores t ps → OtherStores t (remove_peer ps s).0
unfolding remove_peer
OtherStores-remove_peer [] s t h = tt
OtherStores-remove_peer (q ∷ ps) s t h = elim (Bool-cases (q.store_id == s)) [
  | inl p ↦ rw p h.1
  | inr p ↦ rw p (h.0, OtherStores-remove_peer ps s t h.1)
]

DistinctStores-remove_peer :
    (ps : List Peer) (s : ℕ) → DistinctStores ps → DistinctStores (remove_peer ps s).0
unfolding remove_peer
DistinctStores-remove_peer [] s h = tt
DistinctStores-remove_peer (q ∷ ps) s h = elim (Bool-cases (q.store_id == s)) [
  | inl p ↦ rw p h.1
  | inr p ↦ rw p (OtherStores-remove_peer ps s q.store_id h.0, DistinctStores-remove_peer ps s h.1)
]

changed_peers-find_peer :
    (region : Region) (t : ConfChangeType) (peer : Peer) (ps : List Peer)
    → DistinctStores region.peers
    → changed_peers region t peer ≡ ok ps
    → DistinctStores ps × ((s : ℕ) → find_peer ps s ≡ peer_after region.peers t peer s)
unfolding changed_peers add_node remove_node add_learner peer_after
changed_peers-find_peer region ConfChangeType.add_node peer ps d e =
    elim (Option-cases (find_peer region.peers peer.store_id)) [
      | inl p ↦
          let same : region.peers ++ (peer ∷ []) ≡ ps = ground arith in
          (
            subst DistinctStores same (DistinctStores-append region.peers peer d p),
            λ s. ground (arith, find_peer-append region.peers peer s, p, same),
          )
      | inr (q, p) ↦
          let same : promote_peer region.peers peer.store_id ≡ ps = ground arith in
          (
            subst DistinctStores same (DistinctStores-promote_peer region.peers peer.store_id d),
            λ s. ground (arith, find_peer-promote_peer region.peers peer.store_id s, p, same),
          )
    ]
changed_peers-find_peer region ConfChangeType.remove_node peer ps d e =
    let (found, left) = remove_peer-find_peer region.peers peer.store_id 0 d in
    let same : (remove_peer region.peers peer.store_id).0 ≡ ps = ground arith in
    (
      subst DistinctStores same (DistinctStores-remove_peer region.peers peer.store_id d),
      λ s. ground (arith, (remove_peer-find_peer region.peers peer.store_id s d).1, same),
    )
changed_peers-find_peer region ConfChangeType.add_learner_node peer ps d e =
    elim (Option-cases (find_peer region.peers peer.store_id)) [
      | inl p ↦
          let same : region.peers ++ (peer ∷ []) ≡ ps = ground arith in
          (
            subst DistinctStores same (DistinctStores-append region.peers peer d p),
            λ s. ground (arith, find_peer-append region.peers peer s, p, same),
          )
      | inr (q, p) ↦ absurd (ground arith)
    ]

-- When a configuration change of a region with no two peers on one store succeeds, again no two
-- peers are on one store, each store has the peer that the change says, and nothing else of the
-- region changes but the conf version, which is the next.
pub exec_change_peer-find_peer :
    (id : ℕ) (pending_remove : Bool) (region : Region) (req : ChangePeerRequest)
    (r : ChangePeerResult)
    → DistinctStores region.peers
    → exec_change_peer id pending_remove region req ≡ ok r
    → DistinctStores r.region.peers
      × ((s : ℕ) → find_peer r.region.peers s ≡ peer_after region.peers req.change_type req.peer s)
      × (r.region ≡ with_peers (next_conf_ver region) r.region.peers)
unfolding exec_change_peer
exec_change_peer-find_peer id pending_remove region req r d e =
    elim (Outcome-cases (changed_peers region req.change_type req.peer)) [
      | inl (ps, p) ↦
          let (distinct, found) = changed_peers-find_peer region req.change_type req.peer ps d p in
          let same : ps ≡ r.region.peers = ground arith in
          (
            subst DistinctStores same distinct,
            λ s. ap (λ t. find_peer t s) (sym same) ∙ found s,
            ground arith,
          )
      | inr (inl (x, p)) ↦ absurd (ground arith)
      | inr (inr p) ↦ absurd (ground arith)
    ]
