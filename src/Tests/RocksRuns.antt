-- ===== src/Tests/RocksRuns.antt =====
-- Runs of the code for RocksDB's tables, and its theorems at concrete inputs.
use unistore.RocksDb.Varint.{append_varint32, encode_varint32}
use Prim.Native.Nat.{bit_or, ℕ, Ordering}
use unistore.Base.{
  [], ◌∷◌, some, true, inl, inr, compare_bytes, ℕ, List, ◌≡◌, arith, Bytes, Ordering, refl, put_le,
}
use unistore.RocksDb.Block.{
  new_block_builder, read_whole_block, add_all_to_block, finish_block, reset_block_builder,
  add_block_entry, shared_prefix, difference_offset, append_block_entry, put_restarts,
}
use unistore.RocksDb.BlockRoundTrip.{add_entries, AreShort, read_whole_block-finish_block}
use unistore.RocksDb.InternalKey.{
  InternalKey, encode_key, compare_internal_key, compare_internal_key-encode_key,
}
use unistore.RocksDb.Bloom.{set_bit, rocks_hash, bloom_hash}
use unistore.RocksDb.BloomMatches.{may_match}
use unistore.RocksDb.HashTail.{rocks_hash-tail}
use unistore.RocksDb.Filter.{
  fixed_prefix_slice_transform, finish_filter, add_filter_keys, new_full_filter_block_builder,
  prefix_of, FullFilterBlockBuilder,
}
use unistore.RocksDb.FilterKeys.{Holds}
use unistore.RocksDb.FilterMatches.{finish_filter-may_match}

-- `v | 1<<k`, by the digits and by the native operation.
set_bit_runs : (set_bit 3 0x50 ≡ bit_or 0x50 8) × (set_bit 4 0x50 ≡ bit_or 0x50 16)
unfolding set_bit
set_bit_runs = (refl, refl)

abbrev three_entries : List (Bytes × Bytes)
three_entries = (1 ∷ 2 ∷ [], 7 ∷ []) ∷ (1 ∷ 2 ∷ 3 ∷ [], []) ∷ (1 ∷ 4 ∷ [], 8 ∷ 9 ∷ []) ∷ []

read_whole_block-finish_block_example :
    (add_all_to_block (reset_block_builder (new_block_builder 2)) three_entries
      ≡ some (add_entries (reset_block_builder (new_block_builder 2)) three_entries))
    × (read_whole_block 4
          (finish_block (add_entries (reset_block_builder (new_block_builder 2)) three_entries))
        ≡ some three_entries)
unfolding new_block_builder reset_block_builder add_entries AreShort add_block_entry shared_prefix
    difference_offset append_block_entry append_varint32 encode_varint32 finish_block put_restarts
    put_le
read_whole_block-finish_block_example =
    read_whole_block-finish_block (new_block_builder 2) three_entries (omega arith) (omega arith)
      (omega arith)

abbrev put_of : ℕ → InternalKey
put_of n = record { user_key = 5 ∷ []; sequence_number = n; value_type = 1 }

compare_internal_key-encode_key_example :
    compare_internal_key compare_bytes (encode_key (put_of 9)) (encode_key (put_of 3))
    ≡ some Ordering.lt
unfolding compare_bytes
compare_internal_key-encode_key_example =
    compare_internal_key-encode_key compare_bytes (put_of 9) (put_of 3) (omega arith, omega arith)
      (omega arith, omega arith)

rocks_hash-tail_example :
    rocks_hash (1 ∷ 2 ∷ 3 ∷ 4 ∷ 5 ∷ 6 ∷ []) 7 ≡ rocks_hash (1 ∷ 2 ∷ 3 ∷ 4 ∷ 8 ∷ 9 ∷ []) 7
rocks_hash-tail_example =
    rocks_hash-tail 1 7 (1 ∷ 2 ∷ 3 ∷ 4 ∷ []) (5 ∷ 6 ∷ []) (8 ∷ 9 ∷ []) (omega arith) refl
      (omega arith) (omega arith) refl

-- Both keys have the prefix of one byte.
finish_filter-may_match_example :
    (b : FullFilterBlockBuilder) × (filter : Bytes) × (finish_filter (
        add_filter_keys
          (new_full_filter_block_builder (some (fixed_prefix_slice_transform 1)) true 10 6)
          ((1 ∷ 2 ∷ []) ∷ (1 ∷ 3 ∷ []) ∷ []))
      ≡ some (b, filter))
    × (may_match filter (bloom_hash (1 ∷ [])) ≡ true)
unfolding prefix_of Holds
finish_filter-may_match_example =
    finish_filter-may_match (some (fixed_prefix_slice_transform 1)) true 10 6
      ((1 ∷ 2 ∷ []) ∷ (1 ∷ 3 ∷ []) ∷ []) (1 ∷ 3 ∷ []) (bloom_hash (1 ∷ [])) (omega arith)
      (omega arith) (inr (inl refl)) (inr (1 ∷ [], refl, λ w e. absurd (cc), refl))
