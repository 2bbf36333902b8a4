-- ===== src/RocksDb/Bloom.antt =====
-- rocksdb/filter_builder.go, rocksdb/utils.go: the bits of a Bloom filter, of which all bits for one
-- hash lie in one cache line. Fields that the code joins by `|` and that lie apart are added.
use Prim.Native.Nat.{bit_xor, ℕ}
use unistore.Base.{
  [], ◌∷◌, Option, some, none, ◌+◌, zero, suc, ◌||◌, ◌&&◌, ltb, leb, ◌==◌, not, ℕ, Bytes, ◌/◌, ◌*◌,
  length, ◌%◌, List, if◌then◌else◌, take, get_last_or, ◌^◌, put_le, replicate, ◌-◌, ◌++◌, drop,
}

-- `v | 1<<k`, digit by digit.
unfoldable pub set_bit : ℕ → ℕ → ℕ
set_bit zero v = v / 2 * 2 + 1
set_bit (suc k) v = set_bit k (v / 2) * 2 + v % 2

-- `uint32(int8(b))`.
abbrev sign_extend : ℕ → ℕ
sign_extend b = if ltb b 128 then b else b + (2 ^ 32 - 256)

-- The byte of a slice that is long enough.
unfoldable pub byte_at : Bytes → ℕ → ℕ
byte_at [] i = 0
byte_at (x ∷ xs) zero = x
byte_at (x ∷ xs) (suc i) = byte_at xs i

abbrev pub hash_word : ℕ → ℕ → ℕ
hash_word h w = let mixed = (h + w) % 2 ^ 32 * 0xc6a4a793 % 2 ^ 32 in bit_xor mixed (mixed / 2 ^ 16)

-- The loop over words, while more than four bytes are left: the hash and the number of bytes left.
unfoldable pub hash_words : ℕ → Bytes → ℕ × ℕ
hash_words h (a ∷ b ∷ c ∷ d ∷ bs) =
    let rest = hash_words (hash_word h (a + 256 * (b + 256 * (c + 256 * d)))) bs in
    if 0 == length bs then (h, 4) else rest
hash_words h bs = (h, length bs)

-- The bytes that are left are read from the front of the data.
unfoldable pub hash_remain : Bytes → ℕ × ℕ → ℕ
hash_remain bytes (h, remain) =
    let h3 =
      if remain == 3 then (h + sign_extend (byte_at bytes 2) * 2 ^ 16 % 2 ^ 32) % 2 ^ 32 else h in
    let h2 =
      if leb 2 remain then (h3 + sign_extend (byte_at bytes 1) * 2 ^ 8 % 2 ^ 32) % 2 ^ 32 else h3 in
    let h1 = (h2 + sign_extend (byte_at bytes 0)) % 2 ^ 32 * 0xc6a4a793 % 2 ^ 32 in
    if leb 1 remain then bit_xor h1 (h1 / 2 ^ 24) else h2

unfoldable pub rocks_hash : Bytes → ℕ → ℕ
unfolding hash_words hash_remain
rocks_hash bytes seed =
    hash_remain bytes (hash_words (bit_xor seed (length bytes * 0xc6a4a793 % 2 ^ 32)) bytes)

unfoldable pub bloom_hash : Bytes → ℕ
unfolding rocks_hash
bloom_hash key = rocks_hash key 0xbc9f1d34

pub record FullFilterBitsBuilder : Type 0 where
  pub bits_per_key : ℕ
  pub num_probes : ℕ
  pub hash_entries : List ℕ

-- `AddKey`, which leaves out a hash that was the last one.
unfoldable pub add_key_hash : FullFilterBitsBuilder → Bytes → FullFilterBitsBuilder
add_key_hash b key =
    let hash = bloom_hash key in
    if length b.hash_entries == 0 || not (hash == get_last_or 0 b.hash_entries)
    then record b { hash_entries = b.hash_entries ++ (hash ∷ []) }
    else b

-- The number of lines, which is odd, and of bits.
unfoldable pub optimize_bits_for_locality : ℕ → ℕ × ℕ
optimize_bits_for_locality bits =
    let lines = (bits + 511) % 2 ^ 32 / 512 in
    let num_lines = if lines % 2 == 0 then lines + 1 else lines in
    (num_lines, num_lines * 512 % 2 ^ 32)

-- The number of lines and of bits, for a buffer of the bits and five bytes.
unfoldable pub prepare_filter_buffer : FullFilterBitsBuilder → Bytes × ℕ × ℕ
unfolding optimize_bits_for_locality
prepare_filter_buffer b =
    let (num_lines, total_bits) =
      (if length b.hash_entries == 0
        then (0, 0)
        else optimize_bits_for_locality (length b.hash_entries * b.bits_per_key % 2 ^ 32)) in
    (replicate (total_bits / 8 + 5) 0, total_bits, num_lines)

-- `buf[i] |= 1 << k`; `none` is the panic past the end.
unfoldable pub or_at : ℕ → ℕ → Bytes → Option Bytes
unfolding set_bit
or_at i k [] = none
or_at zero k (x ∷ xs) = some (set_bit k x ∷ xs)
or_at (suc i) k (x ∷ xs) = elim (or_at i k xs) [ none ↦ none | some ys ↦ some (x ∷ ys) ]

-- The bit of a probe in the line that begins at `base`.
abbrev pub bit_pos : ℕ → ℕ → ℕ
bit_pos base hash = (base + hash % 512) % 2 ^ 32

unfoldable pub add_probes : ℕ → ℕ → ℕ → ℕ → Bytes → Option Bytes
unfolding or_at
add_probes zero hash delta base buf = some buf
add_probes (suc n) hash delta base buf =
    elim (or_at (bit_pos base hash / 8) (bit_pos base hash % 8) buf) [
      | none ↦ none
      | some buf' ↦ add_probes n ((hash + delta) % 2 ^ 32) delta base buf'
    ]

-- `hash` turned by 17 bits.
abbrev pub probe_delta : ℕ → ℕ
probe_delta hash = hash / 2 ^ 17 + hash * 2 ^ 15 % 2 ^ 32

abbrev pub line_base : ℕ → ℕ → ℕ
line_base hash num_lines = hash % num_lines * 512 % 2 ^ 32

unfoldable pub add_hash : ℕ → ℕ → ℕ → Bytes → Option Bytes
unfolding add_probes
add_hash num_probes num_lines hash buf =
    add_probes num_probes hash (probe_delta hash) (line_base hash num_lines) buf

unfoldable pub add_hashes : ℕ → ℕ → List ℕ → Bytes → Option Bytes
unfolding add_hash
add_hashes num_probes num_lines [] buf = some buf
add_hashes num_probes num_lines (h ∷ hs) buf = elim (add_hash num_probes num_lines h buf) [
  | none ↦ none
  | some buf' ↦ add_hashes num_probes num_lines hs buf'
]

-- Bytes written over those from an index on; `none` is the panic past the end.
unfoldable pub put_at : ℕ → Bytes → Bytes → Option Bytes
put_at i bytes buf =
    if leb (i + length bytes) (length buf)
    then some (take i buf ++ (bytes ++ drop (i + length bytes) buf))
    else none

-- `Finish` of the bits.
unfoldable pub finish_bits : FullFilterBitsBuilder → Option Bytes
unfolding add_hashes put_at
finish_bits b =
    let (buf, total_bits, num_lines) = prepare_filter_buffer b in
    let hashed =
      (if not (total_bits == 0) && not (num_lines == 0)
        then add_hashes b.num_probes num_lines b.hash_entries buf
        else some buf) in
    elim hashed [
      | none ↦ none
      | some buf' ↦ elim (put_at (total_bits / 8) ((b.num_probes % 256) ∷ []) buf') [
        | none ↦ none
        | some buf2 ↦ put_at (total_bits / 8 + 1) (put_le 4 num_lines []) buf2
      ]
    ]
