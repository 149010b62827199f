-- ===== src/Hyperliquid.antt =====
-- sentinel_hft/hyperliquid: the scorer of toxic flow, the guard that reads it, and the runner.
pub mod Fixture
pub mod Scorer
pub mod Guard
pub mod Runner
mod Tests
