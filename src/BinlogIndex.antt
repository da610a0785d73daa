-- ===== src/BinlogIndex.antt =====
-- binlog/binlog_index.{h,cpp}: the records of the index of binlog files and the index file.
pub mod Record
pub mod Manager
pub mod Purge
pub mod Update
pub mod Refine
