-- ===== src/Topic.antt =====
-- internal/sebtopic/topic.go: a topic, the log of record batches with the offsets of its records.
pub mod Files
pub mod Paths
pub mod State
pub mod Add
pub mod Read
pub mod Memory
pub mod S3
pub mod Disk
pub mod Store
pub mod Log
pub mod Open
pub mod Example
mod Tests
