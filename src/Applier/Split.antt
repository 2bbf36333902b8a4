-- ===== src/Applier/Split.antt =====
-- raftstore/applier.go: execSplit and execBatchSplit.
-- The regions of a split share one epoch in memory; it is not changed after the split.
use unistore.Base.{
  ℕ, ◌+◌, ◌%◌, ◌^◌, ◌==◌, Bool, true, false, if◌then◌else◌, not, List, [], ◌∷◌, ◌++◌, length,
  get_last_or, Bytes, compare_bytes, Outcome, ok, err, panic, Option, none, some,
}
use unistore.Region.{Region, Peer, Checked, is_gt, is_empty, check_key_in_region}
use unistore.Request.{SplitRequest, BatchSplitRequest}
use unistore.Applier.{
  ExecError, Write, missing_split_key, write_peer_state, checked, invalid_split_request, normal,
  invalid_new_peer_ids, write_initial_apply_state,
}
use unistore.Base.Partial.{◌>>=◌}

pub record SplitRegion : Type 0 where
  pub regions : List Region
  pub derived : Region
  pub writes : List Write

-- The checks of the requests, from the last key on: the keys that are added.
unfoldable pub check_splits : ℕ → Bytes → List SplitRequest → Outcome ExecError (List Bytes)
check_splits peer_count last [] = ok []
check_splits peer_count last (r ∷ rs) =
    let rest = check_splits peer_count r.split_key rs in
    if is_empty r.split_key
    then err missing_split_key
    else if not (is_gt (compare_bytes r.split_key last))
    then err invalid_split_request
    else if not (length r.new_peer_ids == peer_count)
    then err (invalid_new_peer_ids peer_count (length r.new_peer_ids))
    else elim rest [ ok keys ↦ ok (r.split_key ∷ keys) | err e ↦ err e | panic ↦ panic ]

-- The peers of a new region stand where the derived region's stand; `none` is an id that is missing.
unfoldable pub new_peers : List ℕ → List Peer → Option (List Peer)
new_peers ids [] = some []
new_peers [] (p ∷ ps) = none
new_peers (i ∷ ids) (p ∷ ps) = do rest ← new_peers ids ps; some (record p { id = i } ∷ rest)

unfoldable pub new_region : Region → SplitRequest → Bytes → Bytes → Option Region
unfolding new_peers
new_region derived r start_key end_key = do
  peers ← new_peers r.new_peer_ids derived.peers
  some (record {
    id = r.new_region_id;
    start_key = start_key;
    end_key = end_key;
    region_epoch = derived.region_epoch;
    peers = peers;
  })

-- The loop over the requests, each with two neighbouring keys.
unfoldable pub new_regions : Region → List SplitRequest → List Bytes → Option (List Region)
unfolding new_region
new_regions derived [] keys = some []
new_regions derived (r ∷ rs) [] = none
new_regions derived (r ∷ rs) (k ∷ []) = none
new_regions derived (r ∷ rs) (k ∷ l ∷ keys) = do
  region ← new_region derived r k l
  rest ← new_regions derived rs (l ∷ keys)
  some (region ∷ rest)

abbrev pub write_new_regions : List Region → List Write
write_new_regions [] = []
write_new_regions (r ∷ rs) =
    write_peer_state r normal ∷ write_initial_apply_state r.id ∷ write_new_regions rs

-- The derived region is the last of the regions if it derives to the right.
abbrev pub right_split : Region → List Bytes → List Region → SplitRegion
right_split derived keys regions =
    let last = record derived { start_key = get_last_or derived.start_key keys } in
    record {
      regions = regions ++ (last ∷ []);
      derived = last;
      writes = write_new_regions regions ++ (write_peer_state last normal ∷ []);
    }

-- And the first if not.
abbrev pub left_split : Region → Bytes → List Region → SplitRegion
left_split derived k regions =
    let first = record derived { end_key = k } in
    record {
      regions = first ∷ regions;
      derived = first;
      writes = write_new_regions regions ++ (write_peer_state first normal ∷ []);
    }

-- `derived` has the new epoch.
unfoldable pub split_at_keys : Bool → Region → List SplitRequest → List Bytes → Option SplitRegion
unfolding new_regions
split_at_keys true derived rs keys = do
  regions ← new_regions derived rs (derived.start_key ∷ keys ++ (derived.end_key ∷ []))
  some (right_split derived keys regions)
split_at_keys false derived rs [] = none
split_at_keys false derived rs (k ∷ keys) = do
  regions ← new_regions derived rs (k ∷ keys ++ (derived.end_key ∷ []))
  some (left_split derived k regions)

abbrev pub next_epoch : Region → ℕ → Region
next_epoch region count = record region {
  region_epoch = record region.region_epoch {
    version = (region.region_epoch.version + count) % 2 ^ 64;
  };
}

abbrev pub if_in_region : Checked → Option SplitRegion → Outcome ExecError SplitRegion
if_in_region (ok _) none = panic
if_in_region (ok _) (some s) = ok s
if_in_region (err e) s = err (checked e)
if_in_region panic s = panic

abbrev pub after_checks :
    Region → BatchSplitRequest → Outcome ExecError (List Bytes) → Outcome ExecError SplitRegion
after_checks region req (ok keys) =
    if_in_region (check_key_in_region (get_last_or region.start_key keys) region)
      (split_at_keys req.right_derive (next_epoch region (length req.requests)) req.requests keys)
after_checks region req (err e) = err e
after_checks region req panic = panic

abbrev pub is_missing : List SplitRequest → Bool
is_missing [] = true
is_missing (r ∷ rs) = false

unfoldable pub exec_batch_split : Region → BatchSplitRequest → Outcome ExecError SplitRegion
unfolding check_splits split_at_keys
exec_batch_split region req =
    if is_missing req.requests
    then err missing_split_key
    else after_checks region req (check_splits (length region.peers) region.start_key req.requests)

unfoldable pub exec_split : Region → SplitRequest → Outcome ExecError SplitRegion
unfolding exec_batch_split
exec_split region split =
    exec_batch_split region (record { requests = split ∷ []; right_derive = split.right_derive })
