-- ===== src/Plugins.antt =====
-- freqtrade/plugins: the protections and their manager.
pub mod Protections
pub mod ProtectionManager
