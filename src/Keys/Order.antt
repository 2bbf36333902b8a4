-- ===== src/Keys/Order.antt =====
-- The order of the keys in the raft engine.
use unistore.Base.{
  ℕ, suc, ◌≡◌, compare, Ordering, then_compare, [], ◌∷◌, IsU64, compare_bytes, put_be,
  compare_bytes-put_be, arith,
}
use unistore.Keys.{
  raft_log_key, make_raft_region_key, make_raft_region_prefix, region_raft_prefix_key,
}

-- Raft log keys of 64-bit regions and indexes are ordered by region and then by index.
compare_bytes-raft_log_key :
    (r s i j : ℕ)
    → IsU64 r
    → IsU64 s
    → IsU64 i
    → IsU64 j
    → compare_bytes (raft_log_key r i) (raft_log_key s j) ≡ then_compare (compare r s) (compare i j)
unfolding raft_log_key compare_bytes
compare_bytes-raft_log_key r s i j hr hs hi hj = ground (
  arith,
  compare_bytes-put_be 8 r s (1 ∷ put_be 8 i []) (1 ∷ put_be 8 j []) hr hs,
  compare_bytes-put_be 8 i j [] [] hi hj,
)

-- The raft keys of a region stand between its prefix key and the prefix key of the next region
-- id.
raft_region_range :
    (r suffix i : ℕ)
    → IsU64 (suc r)
    → (compare_bytes (region_raft_prefix_key r) (make_raft_region_key r suffix i) ≡ Ordering.lt)
      × (compare_bytes (make_raft_region_key r suffix i) (region_raft_prefix_key (suc r))
          ≡ Ordering.lt)
      × (compare_bytes (region_raft_prefix_key r) (make_raft_region_prefix r suffix) ≡ Ordering.lt)
      × (compare_bytes (make_raft_region_prefix r suffix) (region_raft_prefix_key (suc r))
          ≡ Ordering.lt)
unfolding region_raft_prefix_key make_raft_region_key make_raft_region_prefix compare_bytes
raft_region_range r suffix i h = (
  ground (arith, compare_bytes-put_be 8 r r [] (suffix ∷ put_be 8 i [])),
  ground (arith, compare_bytes-put_be 8 r (suc r) (suffix ∷ put_be 8 i []) []),
  ground (arith, compare_bytes-put_be 8 r r [] (suffix ∷ [])),
  ground (arith, compare_bytes-put_be 8 r (suc r) (suffix ∷ []) []),
)
