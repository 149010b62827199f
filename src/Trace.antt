-- ===== src/Trace.antt =====
-- Binary traces: the adapters of the record formats v1.0, v1.1 and v1.2, the file header, the
-- detection of a file's format, and the reader (sentinel_hft/adapters, sentinel_hft/formats).
pub mod Adapters
pub mod Header
pub mod Reader
mod Tests
