-- ===== src/RocksDb.antt =====
-- rocksdb/: the tables that are written in RocksDB's format: numbers, keys and blocks.
pub mod Varint
pub mod VarintLaws
pub mod Block
pub mod BlockReads
pub mod BlockRoundTrip
pub mod InternalKey
pub mod Bloom
pub mod BloomBits
pub mod BloomMatches
pub mod Filter
pub mod FilterKeys
pub mod FilterMatches
pub mod HashTail
