-- ===== src/Triage.antt =====
-- sentinel_hft/ai: the detectors of the online triage, and the agent that logs what they find.
pub mod Detectors
pub mod Agent
mod Tests
