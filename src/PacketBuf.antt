-- ===== src/PacketBuf.antt =====
-- PacketBuf (binlog/mysql-protocol/packet_buf.h, packet_buf.inl) and byte_order.h: the buffer that
-- the MySQL packets are written to and read from.
pub mod State
pub mod ByteOrder
pub mod Contents
pub mod Room
pub mod Integer
pub mod Text
