-- ===== src/Compliance.antt =====
-- sentinel_hft/compliance: the observers that watch every intent for the regulators.
pub mod Mar
pub mod Otr
pub mod SelfTrade
pub mod FatFinger
pub mod Cat
pub mod Stack
mod Tests
