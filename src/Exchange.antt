-- ===== src/Exchange.antt =====
-- freqtrade/exchange: the parts of the exchange layer that the other components calculate with.
pub mod Fees
pub mod Timeframe
pub mod Precision
