-- ===== src/Applier/SplitResult.antt =====
-- What a split makes: regions that tile the old one, one epoch further, on the same stores.
use unistore.Applier.SplitPieces.{
  HasEpoch, check_splits-Grow, Grow, HasIds, new_regions-Cuts, Tiles-of_Cuts, Cuts-append,
}
use unistore.Applier.{ExecError, missing_split_key, checked}
use unistore.Applier.SplitRanges.{Tiles, owners, in_region, owners-Tiles, ends_before}
use unistore.Region.Range.{check_key_in_region-InRange}
use unistore.Region.{Region, RegionEpoch, check_key_in_region, is_lt}
use unistore.Applier.Split.{
  check_splits, new_regions, exec_batch_split, split_at_keys, is_missing, SplitRegion, next_epoch,
  right_split, left_split,
}
use unistore.Request.{SplitRequest, BatchSplitRequest}
use unistore.Base.{
  ℕ, suc, ◌+◌, ◌^◌, ◌≡◌, ◌≢◌, ◌⊎◌, ◌∙◌, inl, inr, refl, sym, ap, Bool, true, false, if◌then◌else◌,
  not, List, [], ◌∷◌, ◌++◌, append-nil, length, get_last_or, Bytes, compare_bytes, ok, err, panic,
  some, Ordering, arith, All, subst, Outcome-cases, length-append, ◌<◌, Bool-cases, ◌&&◌, All-map,
}

-- What is to be shown of a split.
abbrev pub Splits : Region → ℕ → SplitRegion → Type 0
Splits d n s =
    Tiles d.start_key d.end_key s.regions
    × All (HasEpoch d.region_epoch) s.regions
    × (length s.regions ≡ suc n)
    × (s.derived.peers ≡ d.peers)

All-append :
    (e : RegionEpoch) (rs ss : List Region)
    → All (HasEpoch e) rs
    → All (HasEpoch e) ss
    → All (HasEpoch e) (rs ++ ss)
All-append e [] ss h k = k
All-append e (r ∷ rs) ss h k = (h.0, All-append e rs ss h.1 k)

split_at_keys-Splits :
    (right : Bool) (d : Region) (rs : List SplitRequest) (keys : List Bytes)
    → length keys ≡ length rs
    → is_missing rs ≡ false
    → Grow d.start_key keys
    → All (HasIds (length d.peers)) rs
    → (d.end_key ≡ []) ⊎ (compare_bytes (get_last_or d.start_key keys) d.end_key ≡ Ordering.lt)
    → (s : SplitRegion) × (split_at_keys right d rs keys ≡ some s) × Splits d (length rs) s
unfolding split_at_keys
split_at_keys-Splits true d rs keys l m g ids o =
    let (out, e, c, ep, n) = new_regions-Cuts d rs d.start_key keys (d.end_key ∷ []) l ids in
    let last = record d { start_key = get_last_or d.start_key keys } in
    (
      right_split d keys out,
      rw e refl,
      (
        Tiles-of_Cuts (out ++ (last ∷ [])) d.start_key d.end_key keys
            (Cuts-append out d.start_key keys last d.end_key c refl refl) g o,
        All-append d.region_epoch out (last ∷ []) ep (refl, tt),
        omega (arith, n, length-append out (last ∷ [])),
        refl,
      ),
    )
split_at_keys-Splits false d [] [] l m g ids o = absurd (cc)
split_at_keys-Splits false d (r ∷ rs) [] l m g ids o = absurd (omega arith)
split_at_keys-Splits false d rs (k ∷ keys) l m g ids o =
    let ends : List Bytes = keys ++ (d.end_key ∷ []) in
    let count : length ends ≡ length rs = omega (arith, length-append keys (d.end_key ∷ [])) in
    let (out, e, c, ep, n) = new_regions-Cuts d rs k ends [] count ids in
    let first = record d { end_key = k } in
    let e' : new_regions d rs (k ∷ ends) ≡ some out =
      ap (λ t. new_regions d rs (k ∷ t)) (sym (append-nil ends)) ∙ e in
    (
      left_split d k out,
      rw e' refl,
      (
        Tiles-of_Cuts (first ∷ out) d.start_key d.end_key (k ∷ keys) (refl, refl, c) g o,
        (refl, ep),
        omega (arith, n),
        refl,
      ),
    )

check_splits-ne-panic : (n : ℕ) (a : Bytes) (rs : List SplitRequest) → check_splits n a rs ≢ panic
unfolding check_splits
check_splits-ne-panic n a [] e = cc
check_splits-ne-panic n a (r ∷ rs) e = elim (Outcome-cases (check_splits n r.split_key rs)) [
  | inl (ks, p) ↦ ground arith
  | inr (inl (x, p)) ↦ ground arith
  | inr (inr p) ↦ check_splits-ne-panic n r.split_key rs p
]

last_before_end :
    (key : Bytes) (region : Region)
    → check_key_in_region key region ≡ ok tt
    → (region.end_key ≡ []) ⊎ (compare_bytes key region.end_key ≡ Ordering.lt)
last_before_end key region e = ((check_key_in_region-InRange key region).0.0 e).1

-- The requests that pass the checks are split.
pub checked-Splits :
    (region : Region) (req : BatchSplitRequest)
    → ((x : ExecError) × (exec_batch_split region req ≡ err x))
      ⊎ ((s : SplitRegion) × (exec_batch_split region req ≡ ok s)
          × Splits (next_epoch region (length req.requests)) (length req.requests) s)
unfolding exec_batch_split
checked-Splits region req =
    let start = region.start_key in
    elim (Bool-cases (is_missing req.requests)) [
      | inl m ↦ inl (missing_split_key, rw m refl)
      | inr m ↦ elim (Outcome-cases (check_splits (length region.peers) start req.requests)) [
        | inl (keys, p) ↦
            let last = get_last_or start keys in
            elim (Outcome-cases (check_key_in_region last region)) [
              | inl (u, q) ↦
                  let (g, l, i) =
                    check_splits-Grow (length region.peers) start req.requests keys p in
                  let (s, e, sp) =
                    split_at_keys-Splits req.right_derive (next_epoch region (length req.requests))
                      req.requests keys l m g i (last_before_end last region q) in
                  inr (s, rw (m, p, q, e) refl, sp)
              | inr (inl (x, q)) ↦ inl (checked x, rw (m, p, q) refl)
              | inr (inr q) ↦ absurd (unfold check_key_in_region in ground arith)
            ]
        | inr (inl (x, p)) ↦ inl (x, rw (m, p) refl)
        | inr (inr p) ↦ absurd (check_splits-ne-panic (length region.peers) start req.requests p)
      ]
    ]

in_region_ends :
    (key : Bytes) (region : Region)
    → (not (is_lt (compare_bytes key region.start_key)) && ends_before key region.end_key)
      ≡ in_region key region
unfolding check_key_in_region
in_region_ends key region = ground arith

-- When a batch split succeeds, every key of the old region is accepted by exactly one of the new
-- regions and every other key by none, and there is one region more than there are requests.
pub exec_batch_split-owners :
    (region : Region) (req : BatchSplitRequest) (s : SplitRegion) (key : Bytes)
    → exec_batch_split region req ≡ ok s
    → (owners key s.regions ≡ (if in_region key region then 1 else 0))
      × (length s.regions ≡ suc (length req.requests))
exec_batch_split-owners region req s key h = elim (checked-Splits region req) [
  | inl (x, e) ↦ absurd (ground arith)
  | inr (s', e, (t, ep, n, dp)) ↦
      let same : s' ≡ s = ground arith in
      (
        ap (λ u. owners key u.regions) (sym same)
            ∙ owners-Tiles key region.start_key region.end_key s'.regions t
            ∙ ap (λ b. if b then 1 else 0) (in_region_ends key region),
        ap (λ u. length u.regions) (sym same) ∙ n,
      )
]

abbrev pub IsNext : Region → ℕ → Region → Type 0
IsNext region n r =
    (r.region_epoch.version ≡ region.region_epoch.version + n)
    × (r.region_epoch.conf_ver ≡ region.region_epoch.conf_ver)

-- When a batch split succeeds and the version does not overflow, every region has the old conf
-- version and the old version plus the number of requests.
exec_batch_split-epoch :
    (region : Region) (req : BatchSplitRequest) (s : SplitRegion)
    → exec_batch_split region req ≡ ok s
    → region.region_epoch.version + length req.requests < 2 ^ 64
    → All (IsNext region (length req.requests)) s.regions
exec_batch_split-epoch region req s h small = elim (checked-Splits region req) [
  | inl (x, e) ↦ absurd (ground arith)
  | inr (s', e, (t, ep, n, dp)) ↦
      let same : s' ≡ s = ground arith in
      subst (λ u. All (IsNext region (length req.requests)) u.regions) same
        (All-map (HasEpoch (next_epoch region (length req.requests)).region_epoch)
          (λ r q. (ap (λ v. v.version) q ∙ omega arith, ap (λ v. v.conf_ver) q)) s'.regions ep)
]

-- A batch split never panics: its checks come before its reads.
pub exec_batch_split-ne-panic :
    (region : Region) (req : BatchSplitRequest) → exec_batch_split region req ≢ panic
exec_batch_split-ne-panic region req p = elim (checked-Splits region req) [
  | inl (x, e) ↦ ground arith
  | inr (s, e, sp) ↦ ground arith
]

-- The derived region keeps its peers.
pub exec_batch_split-derived :
    (region : Region) (req : BatchSplitRequest) (s : SplitRegion)
    → exec_batch_split region req ≡ ok s
    → s.derived.peers ≡ region.peers
exec_batch_split-derived region req s h = elim (checked-Splits region req) [
  | inl (x, e) ↦ absurd (ground arith)
  | inr (s', e, (t, ep, n, dp)) ↦
      let same : s' ≡ s = ground arith in ap (λ u. u.derived.peers) (sym same) ∙ dp
]
