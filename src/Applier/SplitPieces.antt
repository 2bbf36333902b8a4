-- ===== src/Applier/SplitPieces.antt =====
-- The keys of a split, and the new regions between them.
use unistore.Applier.SplitRanges.{Tiles}
use unistore.Region.Range.{compare_bytes-swap}
use unistore.Region.{Region, RegionEpoch, Peer}
use unistore.Applier.Split.{new_peers, check_splits, new_regions, new_region}
use unistore.Request.{SplitRequest}
use unistore.Base.{
  ℕ, ◌≡◌, ◌≢◌, ◌⊎◌, refl, sym, List, [], ◌∷◌, ◌++◌, length, get_last_or, Bytes, compare_bytes, ok,
  some, Ordering, arith, All, subst,
}

-- The keys of accepted requests grow from the last key on, and each request has its peers' ids.
abbrev pub Grow : Bytes → List Bytes → Type 0
Grow a [] = Unit {0}
Grow a (k ∷ ks) = (k ≢ []) × (compare_bytes a k ≡ Ordering.lt) × Grow k ks

abbrev pub HasIds : ℕ → SplitRequest → Type 0
HasIds n r = length r.new_peer_ids ≡ n

pub check_splits-Grow :
    (n : ℕ) (a : Bytes) (rs : List SplitRequest) (keys : List Bytes)
    → check_splits n a rs ≡ ok keys
    → Grow a keys × (length keys ≡ length rs) × All (HasIds n) rs
unfolding check_splits
check_splits-Grow n a [] [] e = (tt, refl, tt)
check_splits-Grow n a [] (k ∷ keys) e = absurd (cc)
check_splits-Grow n a (r ∷ rs) [] e = absurd (ground arith)
check_splits-Grow n a (r ∷ rs) (k ∷ keys) e =
    let same : k ≡ r.split_key = ground arith in
    let rest : check_splits n r.split_key rs ≡ ok keys = ground arith in
    let (g, l, i) = check_splits-Grow n r.split_key rs keys rest in
    (
      (
        ground arith,
        ground (arith, compare_bytes-swap a r.split_key),
        subst (λ t. Grow t keys) (sym same) g,
      ),
      omega (arith, l),
      (ground arith, i),
    )

-- The regions lie between neighbouring keys.
abbrev pub Cuts : List Region → Bytes → List Bytes → Type 0
Cuts [] k [] = Unit {0}
Cuts [] k (l ∷ ls) = ⊥
Cuts (r ∷ rs) k [] = ⊥
Cuts (r ∷ rs) k (l ∷ ls) = (r.start_key ≡ k) × (r.end_key ≡ l) × Cuts rs l ls

pub new_peers-some :
    (ids : List ℕ) (ps : List Peer)
    → length ids ≡ length ps
    → (out : List Peer) × (new_peers ids ps ≡ some out)
unfolding new_peers
new_peers-some [] [] h = ([], refl)
new_peers-some [] (p ∷ ps) h = absurd (omega arith)
new_peers-some (i ∷ ids) [] h = absurd (omega arith)
new_peers-some (i ∷ ids) (p ∷ ps) h =
    let (out, e) = new_peers-some ids ps (omega arith) in (record p { id = i } ∷ out, rw e refl)

abbrev pub HasEpoch : RegionEpoch → Region → Type 0
HasEpoch e r = r.region_epoch ≡ e

pub new_regions-Cuts :
    (d : Region) (rs : List SplitRequest) (k : Bytes) (ls extra : List Bytes)
    → length ls ≡ length rs
    → All (HasIds (length d.peers)) rs
    → (out : List Region) × (new_regions d rs (k ∷ ls ++ extra) ≡ some out)
      × Cuts out k ls
      × All (HasEpoch d.region_epoch) out
      × (length out ≡ length rs)
unfolding new_regions
new_regions-Cuts d [] k [] extra h ids = ([], refl, tt, tt, refl)
new_regions-Cuts d [] k (l ∷ ls) extra h ids = absurd (omega arith)
new_regions-Cuts d (r ∷ rs) k [] extra h ids = absurd (omega arith)
new_regions-Cuts d (r ∷ rs) k (l ∷ ls) extra h ids =
    let (ps, p) = new_peers-some r.new_peer_ids d.peers ids.0 in
    let (out, e, c, ep, n) = new_regions-Cuts d rs l ls extra (omega arith) ids.1 in
    let region : Region = record {
      id = r.new_region_id;
      start_key = k;
      end_key = l;
      region_epoch = d.region_epoch;
      peers = ps;
    } in
    let made : new_region d r k l ≡ some region = unfold new_region in rw p refl in
    (region ∷ out, rw (made, e) refl, (refl, refl, c), (refl, ep), omega (arith, n))

pub Cuts-append :
    (rs : List Region) (k : Bytes) (ls : List Bytes) (last : Region) (b : Bytes)
    → Cuts rs k ls
    → last.start_key ≡ get_last_or k ls
    → last.end_key ≡ b
    → Cuts (rs ++ (last ∷ [])) k (ls ++ (b ∷ []))
Cuts-append [] k [] last b c s e = (s, e, tt)
Cuts-append [] k (l ∷ ls) last b c s e = absurd c
Cuts-append (r ∷ rs) k [] last b c s e = absurd c
Cuts-append (r ∷ rs) k (l ∷ ls) last b c s e = (c.0, c.1, Cuts-append rs l ls last b c.2 s e)

pub Tiles-of_Cuts :
    (rs : List Region) (a b : Bytes) (keys : List Bytes)
    → Cuts rs a (keys ++ (b ∷ []))
    → Grow a keys
    → (b ≡ []) ⊎ (compare_bytes (get_last_or a keys) b ≡ Ordering.lt)
    → Tiles a b rs
Tiles-of_Cuts [] a b [] c g o = c
Tiles-of_Cuts [] a b (k ∷ keys) c g o = c
Tiles-of_Cuts (r ∷ []) a b [] c g o = (c.0, c.1, o)
Tiles-of_Cuts (r ∷ s ∷ rs) a b [] c g o = absurd c.2
Tiles-of_Cuts (r ∷ []) a b (k ∷ []) c g o = absurd c.2
Tiles-of_Cuts (r ∷ []) a b (k ∷ l ∷ keys) c g o = absurd c.2
Tiles-of_Cuts (r ∷ s ∷ rs) a b (k ∷ keys) c g o = (
  c.0,
  subst (λ t. t ≢ []) (sym c.1) g.0,
  subst (λ t. compare_bytes a t ≡ Ordering.lt) (sym c.1) g.1,
  subst (λ t. Tiles t b (s ∷ rs)) (sym c.1) (Tiles-of_Cuts (s ∷ rs) k b keys c.2 g.2 o),
)
