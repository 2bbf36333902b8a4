-- ===== src/Tests.antt =====
-- Concrete runs of the definitions, and the theorems at concrete inputs.
mod ApplierRuns
mod CodecRuns
mod LeaseRuns
mod MemTable
mod ProposeRuns
mod RegionRuns
mod StorageRuns
mod StoreRuns
mod PeerRuns
mod RocksRuns
mod TickerRuns
