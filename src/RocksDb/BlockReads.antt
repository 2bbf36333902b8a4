-- ===== src/RocksDb/BlockReads.antt =====
-- An entry of a block is read back by one step of the iterator.
use unistore.Base.{
  ℕ, Bytes, ◌<◌, ◌++◌, ◌≡◌, append_assoc, length, ◌^◌, ◌-◌, arith, some, drop, ap₂, ◌∙◌,
  drop-length_append, length-append, sym, ap, refl, ◌≤◌, take, ◌+◌, length-drop, take-length_append,
  take-append-drop, ◌%◌,
}
use unistore.RocksDb.Varint.{encode_varint32, append_varint32, decode_varint32}
use unistore.RocksDb.VarintLaws.{decode_varint32-encode_varint32}
use unistore.RocksDb.Block.{
  BlockIterator, append_block_entry, read_number, read_numbers, read_entry, next_entry,
}

-- The bytes of an entry.
pub entry_bytes : ℕ → Bytes → Bytes → Bytes
entry_bytes p key value =
    encode_varint32 p
    ++ (encode_varint32 ((length key % 2 ^ 32 + (2 ^ 32 - p)) % 2 ^ 32)
        ++ (encode_varint32 (length value % 2 ^ 32) ++ (drop p key ++ value)))

pub append_block_entry_lem :
    (buf : Bytes) (p : ℕ) (key value : Bytes)
    → append_block_entry buf p key value ≡ buf ++ entry_bytes p key value
unfolding append_block_entry append_varint32 entry_bytes
append_block_entry_lem buf p key value = simp (append_assoc)

pub encode_varint32_pos : (v : ℕ) → 0 < length (encode_varint32 v)
unfolding encode_varint32
encode_varint32_pos v = ground arith

-- A number stands at the cursor, with what follows it.
abbrev pub At : BlockIterator → Bytes → Bytes → Type 0
At it pre rest = (it.content ≡ pre ++ rest) × (it.cursor ≡ length pre)

read_number_lem :
    (it : BlockIterator) (pre rest : Bytes) (v : ℕ)
    → At it pre (encode_varint32 v ++ rest)
    → v < 2 ^ 32
    → read_number it ≡ some (record it { cursor = length (pre ++ encode_varint32 v) }, some v)
unfolding read_number
read_number_lem it pre rest v (c, k) h =
    let here : drop it.cursor it.content ≡ encode_varint32 v ++ rest =
      ap₂ drop k c ∙ drop-length_append pre (encode_varint32 v ++ rest) in
    let d = decode_varint32-encode_varint32 v rest h in
    let n = encode_varint32_pos v in
    let len = length-append pre (encode_varint32 v) in ground (arith, ap decode_varint32 here ∙ d)

-- The three numbers of an entry, with the bytes of its key and value behind them.
read_numbers_lem :
    (it : BlockIterator) (pre rest : Bytes) (a b c : ℕ)
    → At it pre (encode_varint32 a ++ (encode_varint32 b ++ (encode_varint32 c ++ rest)))
    → a < 2 ^ 32
    → b < 2 ^ 32
    → c < 2 ^ 32
    → read_numbers it
      ≡ some (
        record it {
          cursor = length (((pre ++ encode_varint32 a) ++ encode_varint32 b) ++ encode_varint32 c);
        },
        some (a, b, c),
      )
unfolding read_numbers
read_numbers_lem it pre rest a b c (e, k) ha hb hc =
    let p1 = pre ++ encode_varint32 a in
    let p2 = p1 ++ encode_varint32 b in
    let p3 = p2 ++ encode_varint32 c in
    let it1 = record it { cursor = length p1 } in
    let it2 = record it { cursor = length p2 } in
    let e1 =
      e
      ∙ sym (
          append_assoc pre (encode_varint32 a)
            (encode_varint32 b ++ (encode_varint32 c ++ rest))) in
    let e2 = e1 ∙ sym (append_assoc p1 (encode_varint32 b) (encode_varint32 c ++ rest)) in
    let r1 =
      read_number_lem it pre (encode_varint32 b ++ (encode_varint32 c ++ rest)) a (e, k) ha in
    let r2 = read_number_lem it1 p1 (encode_varint32 c ++ rest) b (e1, refl) hb in
    let r3 = read_number_lem it2 p2 rest c (e2, refl) hc in ground arith

-- The key and the value stand at the cursor, and the key's prefix in the iterator.
read_entry_lem :
    (it : BlockIterator) (pre rest key value : Bytes) (p : ℕ)
    → At it pre (drop p key ++ (value ++ rest))
    → p ≤ length it.key_buf
    → p ≤ length key
    → take p it.key_buf ≡ take p key
    → read_entry p (length key - p) (length value) it
      ≡ some (record it {
        key_buf = key;
        value_buf = value;
        cursor = length pre + (length key - p) + length value;
      })
unfolding read_entry
read_entry_lem it pre rest key value p (e, c) hp hk ht =
    let l1 : length (drop p key) ≡ length key - p = length-drop p key in
    let d1 : drop it.cursor it.content ≡ drop p key ++ (value ++ rest) =
      ap₂ drop c e ∙ drop-length_append pre (drop p key ++ (value ++ rest)) in
    let k1 : take (length key - p) (drop it.cursor it.content) ≡ drop p key =
      ap₂ take (sym l1) d1 ∙ take-length_append (drop p key) (value ++ rest) in
    let pk = pre ++ drop p key in
    let lpk : it.cursor + (length key - p) ≡ length pk =
      omega (arith, l1, c, length-append pre (drop p key)) in
    let e2 : it.content ≡ pk ++ (value ++ rest) =
      e ∙ sym (append_assoc pre (drop p key) (value ++ rest)) in
    let d2 : drop (it.cursor + (length key - p)) it.content ≡ value ++ rest =
      ap₂ drop lpk e2 ∙ drop-length_append pk (value ++ rest) in
    let v1 : take (length value) (drop (it.cursor + (length key - p)) it.content) ≡ value =
      ap (take (length value)) d2 ∙ take-length_append value rest in
    let len : it.cursor + (length key - p) + length value ≤ length it.content =
      omega
        (arith, ap length e2, length-append pk (value ++ rest), length-append value rest, lpk) in
    let whole : take p it.key_buf ++ take (length key - p) (drop it.cursor it.content) ≡ key =
      ap₂ ◌++◌ ht k1 ∙ take-append-drop p key in
    ground arith

pub next_entry-entry_bytes :
    (it : BlockIterator) (pre rest key value : Bytes) (p : ℕ)
    → At it pre (entry_bytes p key value ++ rest)
    → p ≤ length it.key_buf
    → p ≤ length key
    → take p it.key_buf ≡ take p key
    → length key < 2 ^ 32
    → length value < 2 ^ 32
    → next_entry it
      ≡ some (record it {
        key_buf = key;
        value_buf = value;
        cursor = length (pre ++ entry_bytes p key value);
      })
unfolding next_entry entry_bytes
next_entry-entry_bytes it pre rest key value p (e, c) hp hk ht lk lv =
    let a = encode_varint32 p in
    let x = (length key % 2 ^ 32 + (2 ^ 32 - p)) % 2 ^ 32 in
    let y = length value % 2 ^ 32 in
    let ex : x ≡ length key - p = omega arith in
    let ey : y ≡ length value = omega arith in
    let b = encode_varint32 x in
    let d = encode_varint32 y in
    let tail = drop p key ++ (value ++ rest) in
    let e1 : it.content ≡ pre ++ (a ++ (b ++ (d ++ tail))) = e ∙ simp (append_assoc) in
    let p3 = ((pre ++ a) ++ b) ++ d in
    let e3 : it.content ≡ p3 ++ tail = e1 ∙ simp (append_assoc) in
    let it3 = record it { cursor = length p3 } in
    let r1 = read_numbers_lem it pre tail p x y (e1, c) (omega arith) (omega arith) (omega arith) in
    let r2 =
      ap₂ (λ u v. read_entry p u v it3) ex ey
      ∙ read_entry_lem it3 p3 rest key value p (e3, refl) hp hk ht in
    let pos = encode_varint32_pos p in
    let len1 : length pre < length it.content = omega (
      arith,
      ap length e1,
      length-append pre (a ++ (b ++ (d ++ tail))),
      length-append a (b ++ (d ++ tail)),
      pos,
    ) in
    let cur : length p3 + (length key - p) + length value
        ≡ length (pre ++ entry_bytes p key value) =
      simp (length-append, length-drop) (omega arith) in
    ground arith
