-- ===== src/RocksDb/Varint.antt =====
-- rocksdb/utils.go: numbers in seven bits a byte, of which all but the last have the high bit set.
-- The bits that the code joins by `|` lie apart, so they are added here.
use unistore.Base.{
  ℕ, Bytes, ◌%◌, ◌∷◌, Option, ◌++◌, if◌then◌else◌, ltb, ◌+◌, none, ◌^◌, ◌*◌, some, leb, [], ◌/◌,
}

-- `byte(v | 128)`.
abbrev with_more : ℕ → ℕ
with_more v = v % 128 + 128

unfoldable pub encode_varint32 : ℕ → Bytes
encode_varint32 v =
    if ltb v (2 ^ 7)
    then v ∷ []
    else if ltb v (2 ^ 14)
    then with_more v ∷ (v / 2 ^ 7) ∷ []
    else if ltb v (2 ^ 21)
    then with_more v ∷ with_more (v / 2 ^ 7) ∷ (v / 2 ^ 14) ∷ []
    else if ltb v (2 ^ 28)
    then with_more v ∷ with_more (v / 2 ^ 7) ∷ with_more (v / 2 ^ 14) ∷ (v / 2 ^ 21) ∷ []
    else with_more v
      ∷ with_more (v / 2 ^ 7)
      ∷ with_more (v / 2 ^ 14)
      ∷ with_more (v / 2 ^ 21)
      ∷ (v / 2 ^ 28)
      ∷ []

unfoldable pub append_varint32 : Bytes → ℕ → Bytes
unfolding encode_varint32
append_varint32 buf v = buf ++ encode_varint32 v

-- The value and the number of bytes read, which is 0 if there is no number.
unfoldable pub decode_varint32_slow : ℕ → ℕ → ℕ → Bytes → ℕ × ℕ
decode_varint32_slow result shift i [] = (0, 0)
decode_varint32_slow result shift i (b ∷ bs) =
    let rest =
      decode_varint32_slow (result + b % 128 * 2 ^ shift % 2 ^ 32) (shift + 7) (i + 1) bs in
    if leb shift 28
    then if leb 128 b then rest else (result + b * 2 ^ shift % 2 ^ 32, i + 1)
    else (0, 0)

-- `none` is the panic on an empty buffer.
unfoldable pub decode_varint32 : Bytes → Option (ℕ × ℕ)
unfolding decode_varint32_slow
decode_varint32 [] = none
decode_varint32 (b ∷ bs) = some (if ltb b 128 then (b, 1) else decode_varint32_slow 0 0 0 (b ∷ bs))
