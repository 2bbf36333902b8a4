-- ===== src/Applier/SplitAccepts.antt =====
-- Which batch splits are made.
use unistore.Applier.SplitResult.{checked-Splits}
use unistore.Region.Range.{compare_bytes-swap}
use unistore.Applier.SplitPieces.{Grow, HasIds, check_splits-Grow}
use unistore.Region.{Region, check_key_in_region}
use unistore.Applier.Split.{
  exec_batch_split, check_splits, SplitRegion, is_missing, split_at_keys, next_epoch,
}
use unistore.Request.{SplitRequest, BatchSplitRequest}
use unistore.Base.{
  ℕ, ◌≡◌, ◌≢◌, ◌↔◌, refl, ap, subst, List, [], ◌∷◌, map, length, get_last_or, Bytes, ok, arith, All,
  Outcome-cases, inl, inr, false, Option-cases,
}

abbrev pub split_keys : List SplitRequest → List Bytes
split_keys rs = map (λ r. r.split_key) rs

check_splits-keys :
    (n : ℕ) (a : Bytes) (rs : List SplitRequest) (keys : List Bytes)
    → check_splits n a rs ≡ ok keys
    → keys ≡ split_keys rs
unfolding check_splits
check_splits-keys n a [] keys e = ground arith
check_splits-keys n a (r ∷ rs) keys e = elim (Outcome-cases (check_splits n r.split_key rs)) [
  | inl (ks, p) ↦ ground (arith, check_splits-keys n r.split_key rs ks p)
  | inr (inl (x, p)) ↦ absurd (ground arith)
  | inr (inr p) ↦ absurd (ground arith)
]

check_splits-of_Grow :
    (n : ℕ) (a : Bytes) (rs : List SplitRequest)
    → Grow a (split_keys rs)
    → All (HasIds n) rs
    → check_splits n a rs ≡ ok (split_keys rs)
unfolding check_splits
check_splits-of_Grow n a [] g h = refl
check_splits-of_Grow n a (r ∷ rs) g h =
    let rest = check_splits-of_Grow n r.split_key rs g.2 h.1 in
    ground (arith, rest, g.0, g.1, h.0, compare_bytes-swap a r.split_key)

-- The keys grow from the start key on and the last is a key of the region, and there are as many
-- peer ids as peers in each of the requests, of which there is one.
abbrev pub IsSplit : Region → List SplitRequest → Type 0
IsSplit region rs =
    (rs ≢ [])
    × Grow region.start_key (split_keys rs)
    × All (HasIds (length region.peers)) rs
    × (check_key_in_region (get_last_or region.start_key (split_keys rs)) region ≡ ok tt)

-- A batch split succeeds exactly if it has a request, the split keys are not empty and grow from
-- the region's start key on, every request has as many peer ids as the region has peers, and the
-- last key is a key of the region.
pub exec_batch_split-IsSplit :
    (region : Region) (req : BatchSplitRequest)
    → ((s : SplitRegion) × (exec_batch_split region req ≡ ok s)) ↔ IsSplit region req.requests
unfolding exec_batch_split
exec_batch_split-IsSplit region req = (λ made. accepted made.0 made.1, λ w. made_of w)
  where
    N : ℕ
    N = length region.peers

    accepted : (s : SplitRegion) → exec_batch_split region req ≡ ok s → IsSplit region req.requests
    accepted s e = elim (Outcome-cases (check_splits N region.start_key req.requests)) [
      | inl (keys, p) ↦
          elim (Outcome-cases (check_key_in_region (get_last_or region.start_key keys) region)) [
            | inl (u, q) ↦
                let same = check_splits-keys N region.start_key req.requests keys p in
                let (g, l, i) = check_splits-Grow N region.start_key req.requests keys p in
                (
                  λ none_asked. ground (arith, ap is_missing none_asked),
                  subst (Grow region.start_key) same g,
                  i,
                  subst (λ ks. check_key_in_region (get_last_or region.start_key ks) region ≡ ok tt)
                      same q,
                )
            | inr (inl (x, q)) ↦ absurd (ground arith)
            | inr (inr q) ↦ absurd (ground arith)
          ]
      | inr (inl (x, p)) ↦ absurd (ground arith)
      | inr (inr p) ↦ absurd (ground arith)
    ]

    asked : (rs : List SplitRequest) → rs ≢ [] → is_missing rs ≡ false
    asked [] n = absurd (n refl)
    asked (r ∷ rs) n = refl

    made_of : IsSplit region req.requests → (s : SplitRegion) × (exec_batch_split region req ≡ ok s)
    made_of (n, g, i, c) = elim (checked-Splits region req) [
      | inr (s, e, sp) ↦ (s, e)
      | inl (x, e) ↦
          let keys = split_keys req.requests in
          let checks = check_splits-of_Grow N region.start_key req.requests g i in
          let some_asked = asked req.requests n in
          elim (Option-cases (
            split_at_keys req.right_derive (next_epoch region (length req.requests)) req.requests
              keys)) [
                | inl q ↦ absurd (ground (arith, checks, some_asked, c))
                | inr (s, q) ↦ absurd (ground (arith, checks, some_asked, c))
              ]
    ]
