-- ===== src/GtidManager.antt =====
-- binlog/gtid_manager.{h,cpp}: the sequence of GTID checkpoints of a tenant, in memory and in the
-- file binlog_tenant_gtid_seq.meta, and the sets of purged and of executed GTIDs.
pub mod Seq
pub mod Search
pub mod State
pub mod Restart
pub mod Reach
