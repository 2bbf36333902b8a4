-- ===== src/Region/Peers.antt =====
-- Looking peers up by their store.
use unistore.Base.{ℕ, ◌≡◌, ◌≢◌, refl, ◌==◌, if◌then◌else◌, List, [], ◌∷◌, none, arith, All}
use unistore.Region.{Peer, find_peer, remove_peer}

-- No two peers of a region are on one store.
abbrev pub OtherStores : ℕ → List Peer → Type 0
OtherStores s = All (λ p. p.store_id ≢ s)

abbrev pub DistinctStores : List Peer → Type 0
DistinctStores [] = Unit {0}
DistinctStores (p ∷ ps) = OtherStores p.store_id ps × DistinctStores ps

pub find_peer-eq-none : (ps : List Peer) (s : ℕ) → OtherStores s ps → find_peer ps s ≡ none
unfolding find_peer
find_peer-eq-none [] s h = refl
find_peer-eq-none (p ∷ ps) s h = ground (arith, find_peer-eq-none ps s)

-- Among peers on different stores, removePeer returns the peer that findPeer finds and leaves the
-- peers of all other stores.
pub remove_peer-find_peer :
    (ps : List Peer) (s t : ℕ)
    → DistinctStores ps
    → ((remove_peer ps s).1 ≡ find_peer ps s)
      × (find_peer (remove_peer ps s).0 t ≡ (if t == s then none else find_peer ps t))
unfolding find_peer remove_peer
remove_peer-find_peer [] s t h = ground arith
remove_peer-find_peer (p ∷ ps) s t h =
    ground (arith, remove_peer-find_peer ps s t h.1, find_peer-eq-none ps p.store_id h.0)
