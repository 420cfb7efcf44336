-- ===== src/Records.antt =====
-- internal/sebrecords: record batches in memory and the file format that stores them.
pub mod Batch
pub mod Bytes
pub mod File
pub mod Tests
