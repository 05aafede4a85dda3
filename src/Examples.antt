-- ===== src/Examples.antt =====
-- Concrete instances of the parameters, sample data, and the theorems applied to them.
pub mod Setting
pub mod Locks
pub mod Trades
pub mod Guards
pub mod Strategies
pub mod Environments
pub mod Ledgers
pub mod Stops
pub mod Stores
pub mod Backtests
pub mod Bots
pub mod Trading
pub mod Entries
pub mod Exits
