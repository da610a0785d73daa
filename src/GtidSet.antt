-- ===== src/GtidSet.antt =====
-- GtidMessage of binlog/ob_log_event.{h,cpp} and `merge_gtid_before` of binlog/gtid_manager.cpp:
-- for each server, by its UUID of 16 bytes, the ranges of transactions that it has.
pub mod Message
pub mod Merge
pub mod Uuid
pub mod Before
pub mod Format
