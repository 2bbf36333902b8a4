-- ===== src/RocksDb/VarintLaws.antt =====
-- A number that was written is read back.
use unistore.Base.{ℕ, Bytes, ◌<◌, ◌^◌, ◌++◌, ◌≡◌, some, length, arith}
use unistore.RocksDb.Varint.{encode_varint32, decode_varint32}

pub decode_varint32-encode_varint32 :
    (v : ℕ) (rest : Bytes)
    → v < 2 ^ 32
    → decode_varint32 (encode_varint32 v ++ rest) ≡ some (v, length (encode_varint32 v))
unfolding encode_varint32 decode_varint32
decode_varint32-encode_varint32 v rest h = ground arith
