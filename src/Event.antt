-- ===== src/Event.antt =====
-- binlog/ob_log_event.{h,cpp} and oblogevent_type.h: the common part of the binlog events.
-- An event's `flush_to_buff` is the list of bytes that it writes from the start of the buffer, and
-- `deserialize` reads a buffer; `none` is a read past its end or a failed `assert`.
pub mod Header
pub mod Checksum
pub mod Framing
pub mod Verify
pub mod Xid
pub mod Gtid
pub mod Rotate
pub mod FormatDescription
pub mod Memory
pub mod Query
pub mod Rows
pub mod TableMap
pub mod PreviousGtids
pub mod Scan
