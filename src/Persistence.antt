-- ===== src/Persistence.antt =====
-- freqtrade/persistence: pair locks, and the trades with their orders.
pub mod PairLock
pub mod PairLocks
pub mod Order
pub mod Trade
pub mod KeyValueStore
