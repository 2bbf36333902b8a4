-- ===== src/Keys/Codec.antt =====
-- Decoding the keys that the store writes.
use unistore.Base.{
  ℕ, ◌≡◌, ◌≢◌, refl, ap, [], ◌∷◌, ◌++◌, IsU64, Bytes, All, length, drop, put_be, get_be,
  get_be-put_be, put_be-get_be, get_be-IsDefined, drop-put_be_onto, get_last_or-put_be, get_last_or,
  IsByte, length-put_be, length-drop, ok, panic, some, arith,
}
use unistore.Keys.{
  raft_log_key, region_state_key, decode_region_meta_key, raft_log_index, region_state_suffix,
  region_meta_min_key,
}

-- DecodeRegionMetaKey reads back the region of a region state key, with its suffix.
pub decode_region_meta_key-region_state_key :
    (r : ℕ) → IsU64 r → decode_region_meta_key (region_state_key r) ≡ ok (r, region_state_suffix)
unfolding region_state_key decode_region_meta_key
decode_region_meta_key-region_state_key r h =
    ground
      (arith, get_be-put_be 8 r (1 ∷ []), length-put_be 8 r (1 ∷ []), get_last_or-put_be 8 r 3 1 [])

-- RaftLogIndex reads back the index of a raft log key.
pub raft_log_index-raft_log_key : (r i : ℕ) → IsU64 i → raft_log_index (raft_log_key r i) ≡ ok i
unfolding raft_log_index raft_log_key
raft_log_index-raft_log_key r i h = ground (
  arith,
  get_be-put_be 8 i [],
  drop-put_be_onto 8 1 9 r (1 ∷ put_be 8 i []),
  length-put_be 8 r (1 ∷ put_be 8 i []),
  length-put_be 8 i [],
)

singleton_of_length : (bs : Bytes) → length bs ≡ 1 → (x : ℕ) × (bs ≡ x ∷ [])
singleton_of_length [] h = absurd (omega arith)
singleton_of_length (x ∷ []) h = (x, refl)
singleton_of_length (x ∷ y ∷ bs) h = absurd (omega arith)

decode_tail :
    (bs : Bytes)
    → length bs ≡ 9
    → All IsByte bs
    → (r : ℕ) × (x : ℕ) × (get_be 8 0 bs ≡ some (r, x ∷ [])) × (bs ≡ put_be 8 r (x ∷ []))
decode_tail bs len h =
    let (r, rest, p, q) = get_be-IsDefined 8 0 bs (omega arith) in
    let (x, e) = singleton_of_length rest (omega arith) in
    let p' : get_be 8 0 bs ≡ some (r, x ∷ []) = cc in (r, x, p', put_be-get_be 8 bs r (x ∷ []) h p')

-- A key of bytes that decodeRegionMetaKey accepts is the metadata prefix, the decoded region and
-- the decoded suffix.
decode_region_meta_key-inj :
    (key : Bytes) (r suffix : ℕ)
    → All IsByte key
    → decode_region_meta_key key ≡ ok (r, suffix)
    → key ≡ region_meta_min_key ++ put_be 8 r (suffix ∷ [])
unfolding decode_region_meta_key
decode_region_meta_key-inj [] r suffix h e = cc
decode_region_meta_key-inj (a ∷ []) r suffix h e = cc
decode_region_meta_key-inj (a ∷ b ∷ bs) r suffix h e =
    let len : length bs ≡ 9 = ground arith in
    let (v, x, p, q) = decode_tail bs len h.1.1 in
    ground (arith, p, q, get_last_or-put_be 8 v b x [], ap (get_last_or b) q)

-- Decoding never panics: the length test comes before the reads.
pub decode_region_meta_key-ne-panic : (key : Bytes) → decode_region_meta_key key ≢ panic
unfolding decode_region_meta_key
decode_region_meta_key-ne-panic key e =
    ground (arith, get_be-IsDefined 8 0 (drop 2 key), length-drop 2 key)

pub raft_log_index-ne-panic : (key : Bytes) → raft_log_index key ≢ panic
unfolding raft_log_index
raft_log_index-ne-panic key e =
    ground (arith, get_be-IsDefined 8 0 (drop 11 key), length-drop 11 key)
