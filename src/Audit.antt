-- ===== src/Audit.antt =====
-- The tamper-evident audit trail (sentinel_hft/audit): records, the logger that chains them, and
-- the verifier that walks the chain.
mod Tests
pub mod Digest
pub mod Record
pub mod Logger
pub mod Verifier
pub mod Alert
