-- ===== src/RocksDb/InternalKey.antt =====
-- rocksdb/types.go: internal keys, which are a user key with a sequence number and a type.
use unistore.Base.{
  ◌≡◌, ◌<◌, ℕ, Bytes, length, ◌*◌, Ordering, some, ◌^◌, ◌++◌, Option, then_compare, ◌%◌, put_le,
  if◌then◌else◌, ltb, ◌+◌, [], compare, ◌||◌, drop, none, get_le, take, length-append, ◌-◌, ◌/◌,
  ◌∙◌, arith, length-put_le, drop-length_append, take-length_append, get_le-put_le, false, ap,
}

pub record InternalKey : Type 0 where
  pub user_key : Bytes
  pub sequence_number : ℕ
  pub value_type : ℕ

-- `SequenceNumber<<8 | ValueType`, in 64 bits; the type has eight bits.
unfoldable pub pack_seq_and_type : InternalKey → ℕ
pack_seq_and_type k = k.sequence_number * 2 ^ 8 % 2 ^ 64 + k.value_type

unfoldable pub encode_key : InternalKey → Bytes
encode_key k = k.user_key ++ put_le 8 (pack_seq_and_type k) []

-- A key of bytes, and `none` for the panic on a short one.
unfoldable pub decode_key : Bytes → Option InternalKey
decode_key encoded =
    if ltb (length encoded) 8 then none else elim (get_le 8 (drop (length encoded - 8) encoded)) [
      | none ↦ none
      | some (pack, rest) ↦ some (record {
        user_key = take (length encoded - 8) encoded;
        sequence_number = pack / 2 ^ 8;
        value_type = pack % 2 ^ 8;
      })
    ]

-- The order of the user keys, and the later sequence number first.
unfoldable pub compare_internal_key : (Bytes → Bytes → Ordering) → Bytes → Bytes → Option Ordering
compare_internal_key c key1 key2 =
    if ltb (length key1) 8 || ltb (length key2) 8
    then none
    else elim (c (take (length key1 - 8) key1) (take (length key2 - 8) key2)) [
      | Ordering.eq ↦ elim (get_le 8 (drop (length key1 - 8) key1)) [
        | none ↦ none
        | some (num1, r) ↦ elim (get_le 8 (drop (length key2 - 8) key2)) [
          | none ↦ none
          | some (num2, s) ↦ some (compare num2 num1)
        ]
      ]
      | other ↦ some other
    ]

abbrev pub IsInternal : InternalKey → Type 0
IsInternal k = (k.sequence_number < 2 ^ 56) × (k.value_type < 2 ^ 8)

-- The two parts of a key that ends in a number.
internal_parts :
    (user : Bytes) (n : ℕ)
    → let key = user ++ put_le 8 n [] in
      (ltb (length key) 8 ≡ false)
      × (drop (length key - 8) key ≡ put_le 8 n [])
      × (take (length key - 8) key ≡ user)
internal_parts user n =
    let key = user ++ put_le 8 n [] in
    let len : length key ≡ length user + 8 =
      length-append user (put_le 8 n []) ∙ omega (arith, length-put_le 8 n []) in
    let front : length key - 8 ≡ length user = omega arith in
    (
      ground arith,
      ap (λ i. drop i key) front ∙ drop-length_append user (put_le 8 n []),
      ap (λ i. take i key) front ∙ take-length_append user (put_le 8 n []),
    )

pack_range :
    (k : InternalKey)
    → IsInternal k
    → pack_seq_and_type k ≡ k.sequence_number * 2 ^ 8 + k.value_type
unfolding pack_seq_and_type
pack_range k h = omega arith

-- main1
pub decode_key-encode_key : (k : InternalKey) → IsInternal k → decode_key (encode_key k) ≡ some k
unfolding decode_key encode_key
decode_key-encode_key k h =
    let n = pack_seq_and_type k in
    let (l, d, t) = internal_parts k.user_key n in
    let e = pack_range k h in ground (arith, get_le-put_le 8 n [] (omega (arith, e)))

-- Encoded internal keys with sequence numbers below 2^56 and types of a byte are ordered by the
-- order of their user keys, then by decreasing sequence number and then by decreasing type.
pub compare_internal_key-encode_key :
    (c : Bytes → Bytes → Ordering) (k l : InternalKey)
    → IsInternal k
    → IsInternal l
    → compare_internal_key c (encode_key k) (encode_key l)
      ≡ some (
          then_compare (c k.user_key l.user_key) (
            then_compare
              (compare l.sequence_number k.sequence_number)
              (compare l.value_type k.value_type)))
unfolding compare_internal_key encode_key
compare_internal_key-encode_key c k l h g =
    let n = pack_seq_and_type k in
    let m = pack_seq_and_type l in
    let (l1, d1, t1) = internal_parts k.user_key n in
    let (l2, d2, t2) = internal_parts l.user_key m in
    let e1 = pack_range k h in
    let e2 = pack_range l g in
    ground
      (arith, get_le-put_le 8 n [] (omega (arith, e1)), get_le-put_le 8 m [] (omega (arith, e2)))
