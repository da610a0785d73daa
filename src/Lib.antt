-- ===== src/Lib.antt =====
-- oblogproxy: the parts of the binlog service that encode, decode and account for things, modelled
-- from the C++ sources, with the theorems about them.
--
-- The program writes MySQL binlog files from a stream of changes and serves them over the MySQL
-- protocol. Events (src/binlog/ob_log_event.{h,cpp}) write themselves into a buffer and are read back
-- from one; they use the integer stores and loads of src/codec/byte_decoder.h and the length-encoded
-- integers of src/obaccess/ob_mysql_packet.cpp. The sets of GTIDs that an event holds are merged when
-- sets are joined. BinlogIndexManager (src/binlog/binlog_index.{h,cpp}) keeps a record of each binlog
-- file in a text file, and GtidManager (src/binlog/gtid_manager.{h,cpp}) the sequence of GTID
-- checkpoints in another; purging the index tells GtidManager which GTIDs are gone. The packets of
-- src/binlog/mysql-protocol go through PacketBuf (packet_buf.{h,inl} there). The manager of the
-- instances takes their ports from TcpPortPool (src/binlog/tcp_port_pool.{h,cpp}), and their nodes from
-- SelectionStrategy (src/binlog/selection_strategy.{h,cpp}). The values of a row event are converted
-- from texts by src/binlog/data_type.{h,cpp} into a MsgBuf (src/common/msg_buf.{h,cpp}), a message in
-- chunks that readers walk over.
--
-- Files and what they model:
--   Common: the names that all others share, with native-number lists and tests in its children.
--   Bytes: the stores and loads of src/codec/byte_decoder.h, and reads from the front of a buffer.
--   Lenenc: `packet_store_length`, `write_lenenc_uint`, `get_lenenc_uint`, `get_packed_integer`.
--   Event: one file per event class (Xid, Gtid, Rotate, Query, FormatDescription, PreviousGtids,
--     TableMap, Rows), each with `flush_to_buff` and `deserialize`; Header and Checksum for what they
--     have in common and for `verify_event_checksum`; Memory for C strings; Scan for
--     `seek_and_verify_complete_trx`, which finds the last complete transaction of a file, with Trx for
--     what events are to it and Last for what it finds.
--   GtidSet: GtidMessage and `merge_txn_range`; Before for `merge_gtid_before`, Uuid and Format for
--     the texts of a UUID and of a set.
--   Text: `split` of src/common/str.cpp, decimal numbers and lines as the C++ library reads them.
--   GtidManager: Seq for GtidSeq and its text, State for what marks, saves and purges, Restart for
--     the start on an existing file and the look-ups, Search for `binary_search_gtid_seq`; Reach for
--     the histories of such steps.
--   BinlogIndex: Record for a record and its line, Manager for the operations on the index file,
--     Purge and Update for those that take records out or replace the last one; Refine for the index
--     file as a list of records.
--   MsgBuf: the chunks and both readers; Contents and Queue for the view as a queue of bytes, Reads,
--     Back and Next for the loops that go forward and back, Mysql for the length-encoded reads.
--   DataType: the metadata of columns; Numbers, Texts and Dates for the converters of values, Value for
--     `get_column_val_bytes`, `col_val_bytes` and `fill_bitmap`. Int and Moments hold what the
--     statements need: signed integers, and the texts of dates.
--   Selection: nodes and instances; Filters and Weights for the filters, Balance for
--     `load_balancing_node`, Master for `select_master_instance`, Point for
--     `filter_instance_by_initial_point`.
--   PacketBuf: State for the indices and the capacity, ByteOrder for byte_order.h, Integer and Text
--     for the reads and writes; Contents and Room for the view of the buffer as a queue of bytes.
--   Packet: `serialize` of the packets in ok_packet, err_packet, eof_packet, column_packet,
--     column_count_packet and handshake_packet (src/binlog/mysql-protocol), as sequences of writes to a
--     PacketBuf; Handshake for the scramble of a new handshake, Image for the layout of each packet,
--     apart from the writes, Writes and Sequences for what the writes add, Sends for `serialize`.
--   TcpPortPool: `init`, `take_port`, `return_port`, `mark_port`, `test_and_reset_ports_in_used`.
--   Tests: the theorems at concrete inputs.
--
-- How the code corresponds: a buffer is the list of its bytes. `flush_to_buff` gives the bytes written
-- from the start of the buffer, and `deserialize` is a read from its front; `none` is a read outside a
-- buffer, a null pointer that is read, or a failed assert, all of which end the program. An operation
-- that changes an object gives the changed object. Integers are natural numbers with the wrap around
-- of their width written out where the source computes with them.
--
-- What is not under src/ is a parameter: `crc32` (zlib's function), `fresh` (what new memory holds),
-- `heap` (what stands behind a buffer), `used` (the answers of the system to a bind),
-- `rand_r` (the C library's) and `reported` (the instances that the metadata database gives). The index and the GTID manager take how each call
-- of the file system ends (`Io`, `GtidIo`), their configuration, and the clock; `convert_ts` asks for
-- the local time zone. `Floats` is the arithmetic of doubles and floats, `draw` the random number of
-- the weighted selection, `query`, `boundary_gtid_seq` and `node_of` what the cluster answers, and
-- `Column` what the closed library that delivers changes says of a column; a precision and a scale
-- are not negative there. `Converters` stands for the conversions of floats, which are the C++
-- library's, and of decimals, JSON and geometries, which are not modelled; that of geometries
-- gives its returned number too. `get_number_len`, which
-- rounds a logarithm, counts the digits. A write that fails leaves its file as it was.
--
-- Fuel: the inner loop of `take_port` runs on the number of reserved ports, which its index passes
-- after as many steps. Its outer loop runs on fuel, and three rounds are shown to be enough without a
-- reset, if the indices behind the range are marked, as `init` leaves them. The scan of a file runs on
-- fuel too, and one unit more than the file has events is shown to be enough. The binary search runs on
-- one unit more than there are sequences, which is enough for sequences in order. The digits of a
-- number of 64 bits are counted on fuel 20, as many as it has at most.
--
-- Not modelled: the other two scans of binlog files and the GTID variables that they fill, the values
-- of decimals, the message codecs and the token bucket, which are to follow; the parsers of JSON and
-- of geometries; the copies of backup_binlog and the wait of is_behind_current_pos; locks;
-- floating-point stores; threads, sockets, files, the metadata database, logging and configuration,
-- which are I/O; the copies of other projects under src/disruptor and src/sqlparser;
-- src/binlog/binlog_state_machine.cpp, which is commented out.
pub mod Common
pub mod Bytes
pub mod Lenenc
pub mod Event
pub mod GtidSet
pub mod MsgBuf
pub mod DataType
pub mod Selection
pub mod PacketBuf
pub mod TcpPortPool
pub mod Text
pub mod Packet
pub mod GtidManager
pub mod BinlogIndex
pub mod Tests
