-- ===== src/Onchain.antt =====
-- sentinel_hft/onchain: the records of on-chain traces, their files, and the streaming metrics.
pub mod Record
pub mod Analyzer
mod Tests
