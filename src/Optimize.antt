-- ===== src/Optimize.antt =====
-- freqtrade/optimize: backtesting.
pub mod CloseRate
pub mod Orders
