-- ===== src/Storage.antt =====
-- internal/storage/log.go: the segmented write-ahead log of a partition.
pub mod Record
pub mod Segment
pub mod Index
pub mod IndexFile
pub mod Log
mod Examples
