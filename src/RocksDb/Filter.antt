-- ===== src/RocksDb/Filter.antt =====
-- rocksdb/filter_builder.go, rocksdb/slice_transform.go: which hashes go into a table's filter.
use unistore.Base.{
  [], ◌∷◌, Option, some, none, ◌+◌, ◌||◌, leb, ◌==◌, not, true, false, ℕ, List, Bool, Bytes,
  if◌then◌else◌, take, length, ◌-◌, compare_bytes, Ordering,
}
use unistore.RocksDb.Bloom.{FullFilterBitsBuilder, add_key_hash, finish_bits}

-- What the filter asks of a prefix extractor.
pub record SliceTransform : Type 0 where
  pub transform : Bytes → Bytes
  pub in_domain : Bytes → Bool

abbrev pub fixed_prefix_slice_transform : ℕ → SliceTransform
fixed_prefix_slice_transform n = record {
  transform = take n;
  in_domain = λ (key : Bytes). leb n (length key);
}

abbrev pub fixed_suffix_slice_transform : ℕ → SliceTransform
fixed_suffix_slice_transform n = record {
  transform = λ (key : Bytes). take (length key - n) key;
  in_domain = λ (key : Bytes). leb n (length key);
}

abbrev pub noop_slice_transform : SliceTransform
noop_slice_transform = record {
  transform = λ (key : Bytes). key;
  in_domain = λ (key : Bytes). true;
}

pub record FullFilterBlockBuilder : Type 0 where
  pub prefix_extractor : Option SliceTransform
  pub bits_builder : FullFilterBitsBuilder
  pub whole_key_filtering : Bool
  pub last_whole_key_recorded : Bool
  pub last_whole_key : Bytes
  pub last_prefix_recorded : Bool
  pub last_prefix : Bytes
  pub num_added : ℕ

unfoldable pub new_full_filter_block_builder :
    Option SliceTransform → Bool → ℕ → ℕ → FullFilterBlockBuilder
new_full_filter_block_builder extractor whole_key_filtering bits_per_key num_probes = record {
  prefix_extractor = extractor;
  bits_builder = record { bits_per_key = bits_per_key; num_probes = num_probes; hash_entries = [] };
  whole_key_filtering = whole_key_filtering;
  last_whole_key_recorded = false;
  last_whole_key = [];
  last_prefix_recorded = false;
  last_prefix = [];
  num_added = 0;
}

unfoldable pub add_key : FullFilterBlockBuilder → Bytes → FullFilterBlockBuilder
add_key b key = record b {
  bits_builder = add_key_hash b.bits_builder key;
  num_added = b.num_added + 1;
}

unfoldable pub bytes_equal : Bytes → Bytes → Bool
bytes_equal a b = elim (compare_bytes a b) [ Ordering.eq ↦ true | other ↦ false ]

unfoldable pub add_whole_key : FullFilterBlockBuilder → Bool → Bytes → FullFilterBlockBuilder
unfolding add_key bytes_equal
add_whole_key b with_prefix key =
    if not with_prefix
    then add_key b key
    else if not b.last_whole_key_recorded || not (bytes_equal b.last_whole_key key)
    then record (add_key b key) { last_whole_key_recorded = true; last_whole_key = key }
    else b

-- `addPrefix` of a key with the prefix.
unfoldable pub add_prefix : FullFilterBlockBuilder → Bytes → FullFilterBlockBuilder
unfolding add_key bytes_equal
add_prefix b prefix =
    if b.whole_key_filtering
    then if not b.last_whole_key_recorded || not (bytes_equal b.last_prefix prefix)
      then record (add_key b prefix) { last_prefix_recorded = true; last_prefix = prefix }
      else b
    else add_key b prefix

-- The prefix of a key in the extractor's domain.
unfoldable pub prefix_of : Option SliceTransform → Bytes → Option Bytes
prefix_of none key = none
prefix_of (some e) key = if e.in_domain key then some (e.transform key) else none

abbrev pub after_whole : FullFilterBlockBuilder → Bool → Bytes → FullFilterBlockBuilder
after_whole b with_prefix key = if b.whole_key_filtering then add_whole_key b with_prefix key else b

unfoldable pub add_with_prefix :
    FullFilterBlockBuilder → Bytes → Option Bytes → FullFilterBlockBuilder
unfolding add_whole_key add_prefix
add_with_prefix b key none = after_whole b false key
add_with_prefix b key (some prefix) = add_prefix (after_whole b true key) prefix

-- `Add`.
unfoldable pub add_filter_key : FullFilterBlockBuilder → Bytes → FullFilterBlockBuilder
unfolding add_with_prefix prefix_of
add_filter_key b key = add_with_prefix b key (prefix_of b.prefix_extractor key)

-- The table builder's loop, a key at a time.
unfoldable pub add_filter_keys : FullFilterBlockBuilder → List Bytes → FullFilterBlockBuilder
unfolding add_filter_key
add_filter_keys b [] = b
add_filter_keys b (key ∷ keys) = add_filter_keys (add_filter_key b key) keys

-- `Finish`; no bytes are the nil slice, and `none` is a panic.
unfoldable pub finish_filter : FullFilterBlockBuilder → Option (FullFilterBlockBuilder × Bytes)
unfolding finish_bits
finish_filter b = if b.num_added == 0 then some (b, []) else elim (finish_bits b.bits_builder) [
  | none ↦ none
  | some filter ↦ some (record b { num_added = 0 }, filter)
]
