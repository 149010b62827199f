-- ===== src/Streaming.antt =====
-- sentinel_hft/streaming: quantile sketches, the rolling window and the metrics of a trace stream.
pub mod Sketch
pub mod Window
pub mod Metrics
pub mod Attribution
mod Tests
