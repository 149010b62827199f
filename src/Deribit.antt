-- ===== src/Deribit.antt =====
-- sentinel_hft/deribit: the demo pipeline around the risk gate, from the ticks of a venue over the
-- book and the quoting strategy to the audit log and the trace records.
pub mod Book
pub mod Strategy
pub mod Pipeline
pub mod Samples
mod Tests
