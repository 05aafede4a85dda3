-- ===== src/Freqai.antt =====
-- freqtrade/freqai: the environments for reinforcement learning.
pub mod Environment
