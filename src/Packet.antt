-- ===== src/Packet.antt =====
-- The packets that the service sends, binlog/mysql-protocol/{ok,err,eof,column_count,column,handshake}_packet:
-- each `serialize` is the sequence of its writes to a PacketBuf, whose sizes it adds up.
pub mod Writes
pub mod Handshake
pub mod Image
pub mod Sequences
pub mod Sends
use oblogproxy.Common.{
  ℕ, ◌+◌, ◌-◌, ◌/◌, ◌%◌, ◌^◌, List, [], ◌∷◌, ◌++◌, Bool, true, false, not, ◌&&◌, ◌||◌,
  if◌then◌else◌, ltb, ◌==◌, Option, none, some, length, replicate, drop,
}
use oblogproxy.PacketBuf.State.{PacketBuf, is_fast_writable_for}
use oblogproxy.PacketBuf.Integer.{Written, write_uint1, write_uint2, write_uint4, write_uint}
use oblogproxy.PacketBuf.Text.{write_string, write_std_string, write_c_string}

-- Is bit `n` set in the flags? Those of the client are capabilities, those of an OK packet a status.
abbrev pub has_bit : ℕ → ℕ → Bool
has_bit flags n = flags / 2 ^ n % 2 == 1

abbrev pub client_protocol_41 : ℕ
client_protocol_41 = 9

abbrev pub client_transactions : ℕ
client_transactions = 13

abbrev pub client_session_track : ℕ
client_session_track = 23

abbrev pub session_state_changed : ℕ
session_state_changed = 14

pub record OkPacket : Type 0 where
  pub affected_rows : ℕ
  pub last_insert_id : ℕ
  pub status_flags : ℕ
  pub warnings : ℕ
  pub info : List ℕ

-- `sql_state` is the five characters of the array, without the NUL behind them.
pub record ErrPacket : Type 0 where
  pub err_code : ℕ
  pub err_msg : List ℕ
  pub sql_state : List ℕ

pub record EofPacket : Type 0 where
  pub eof_warnings : ℕ
  pub eof_status_flags : ℕ

pub record ColumnPacket : Type 0 where
  pub schema : List ℕ
  pub table : List ℕ
  pub origin_table : List ℕ
  pub name : List ℕ
  pub origin_name : List ℕ
  pub character_set : ℕ
  pub column_length : ℕ
  pub column_type : ℕ
  pub flags : ℕ
  pub decimals : ℕ

-- `scramble` is the twenty characters of the array, without the NUL behind them.
pub record HandshakePacket : Type 0 where
  pub thread_id : ℕ
  pub character_set_nr : ℕ
  pub server_status_flags : ℕ
  pub scramble : List ℕ

-- "5.7.35-obs"
abbrev pub mysql_server_version : List ℕ
mysql_server_version = b'5' ∷ b'.' ∷ b'7' ∷ b'.' ∷ b'3' ∷ b'5' ∷ b'-' ∷ b'o' ∷ b'b' ∷ b's' ∷ []

-- "mysql_native_password"
abbrev pub auth_plugin_name : List ℕ
auth_plugin_name =
    b'm' ∷ b'y' ∷ b's' ∷ b'q' ∷ b'l' ∷ b'_' ∷ b'n' ∷ b'a' ∷ b't' ∷ b'i' ∷ b'v' ∷ b'e' ∷ b'_' ∷ b'p'
    ∷ b'a' ∷ b's' ∷ b's' ∷ b'w' ∷ b'o' ∷ b'r' ∷ b'd' ∷ []

-- The classes that derive from `DataPacket`.
pub data DataPacket : Type 0 where
  ok_packet : OkPacket → DataPacket
  err_packet : ErrPacket → DataPacket
  eof_packet : EofPacket → DataPacket
  column_packet : ColumnPacket → DataPacket
  column_count_packet : ℕ → DataPacket
  handshake_packet : HandshakePacket → DataPacket

-- The size of a write, which is -1 where there is no room: nothing stops at that.
abbrev pub size_of : ℕ → Option ℕ → ℕ
size_of word none = word - 1
size_of word (some n) = n

-- Writes one after another, with the sum of their sizes as an unsigned number below `word`.
unfoldable pub run_writes : ℕ → List (PacketBuf → Written) → ℕ × PacketBuf → ℕ × PacketBuf
run_writes word [] s = s
run_writes word (w ∷ ws) (sz, p) =
    let (n, q) = w p in run_writes word ws ((sz + size_of word n) % word, q)

module _ (fresh : ℕ → List ℕ) where
  unfoldable pub ok_writes : OkPacket → ℕ → List (PacketBuf → Written)
  ok_writes k capabilities =
      write_uint1 fresh 0
      ∷ write_uint fresh k.affected_rows
      ∷ write_uint fresh k.last_insert_id
      ∷ ((if has_bit capabilities client_protocol_41
            then write_uint2 fresh k.status_flags ∷ write_uint2 fresh k.warnings ∷ []
            else if has_bit capabilities client_transactions
            then write_uint2 fresh k.status_flags ∷ []
            else [])
          ++ (if ltb 0 (length k.info) then write_std_string fresh k.info true ∷ [] else []))

  -- `none` is the failed assert of a status that is not supported.
  unfoldable pub serialize_ok : OkPacket → ℕ → PacketBuf → Option (ℕ × PacketBuf)
  unfolding ok_writes run_writes
  serialize_ok k capabilities p =
      if has_bit capabilities client_session_track && has_bit k.status_flags session_state_changed
      then none
      else some (run_writes (2 ^ 32) (ok_writes k capabilities) (0, p))

  -- `sql_state` is written without a length, as is the message.
  unfoldable pub err_writes : ErrPacket → ℕ → List (PacketBuf → Written)
  err_writes e capabilities =
      write_uint1 fresh 0xff
      ∷ write_uint2 fresh e.err_code
      ∷ ((if has_bit capabilities client_protocol_41
            then write_uint1 fresh b'#' ∷ write_string fresh e.sql_state 5 false ∷ []
            else [])
          ++ write_std_string fresh e.err_msg false ∷ [])

  unfoldable pub eof_writes : EofPacket → ℕ → List (PacketBuf → Written)
  eof_writes e capabilities =
      write_uint1 fresh 0xfe
      ∷ (if has_bit capabilities client_protocol_41
          then write_uint2 fresh e.eof_warnings ∷ write_uint2 fresh e.eof_status_flags ∷ []
          else [])

  -- The catalog is "def", and 12 is the length of the fields of fixed length, which follow it.
  unfoldable pub column_writes : ColumnPacket → List (PacketBuf → Written)
  column_writes c =
      write_std_string fresh (b'd' ∷ b'e' ∷ b'f' ∷ []) true
      ∷ write_std_string fresh c.schema true
      ∷ write_std_string fresh c.table true
      ∷ write_std_string fresh c.origin_table true
      ∷ write_std_string fresh c.name true
      ∷ write_std_string fresh c.origin_name true
      ∷ write_uint fresh 12
      ∷ write_uint2 fresh c.character_set
      ∷ write_uint4 fresh c.column_length
      ∷ write_uint1 fresh c.column_type
      ∷ write_uint2 fresh c.flags
      ∷ write_uint1 fresh c.decimals
      ∷ write_uint2 fresh 0
      ∷ []

  unfoldable pub serialize_column : ColumnPacket → PacketBuf → ℕ × PacketBuf
  unfolding column_writes run_writes
  serialize_column c p = run_writes (2 ^ 64) (column_writes c) (0, p)

  -- The scramble is written in two parts, of which the second ends with its NUL.
  unfoldable pub handshake_writes : HandshakePacket → ℕ → List (PacketBuf → Written)
  handshake_writes h capabilities =
      write_uint1 fresh 10
      ∷ write_c_string fresh (mysql_server_version ++ 0 ∷ [])
      ∷ write_uint4 fresh h.thread_id
      ∷ write_string fresh (h.scramble ++ 0 ∷ []) 8 false
      ∷ write_uint1 fresh 0
      ∷ write_uint2 fresh (capabilities % 2 ^ 16)
      ∷ write_uint1 fresh h.character_set_nr
      ∷ write_uint2 fresh h.server_status_flags
      ∷ write_uint2 fresh (capabilities / 2 ^ 16 % 2 ^ 16)
      ∷ write_uint1 fresh 21
      ∷ write_string fresh (replicate 10 0) 10 false
      ∷ write_c_string fresh (drop 8 (h.scramble ++ 0 ∷ []))
      ∷ write_c_string fresh (auth_plugin_name ++ 0 ∷ [])
      ∷ []

  unfoldable pub serialize_handshake : HandshakePacket → ℕ → PacketBuf → ℕ × PacketBuf
  unfolding handshake_writes run_writes
  serialize_handshake h capabilities p =
      run_writes (2 ^ 64) (handshake_writes h capabilities) (0, p)

  unfoldable pub serialize_column_count : ℕ → PacketBuf → Written
  unfolding write_uint
  serialize_column_count nof_columns = write_uint fresh nof_columns

  -- The asserts: there is room at once, and the sizes add up.
  abbrev pub asserted : ℕ → List (PacketBuf → Written) → PacketBuf → Option (ℕ × PacketBuf)
  asserted serialized_sz ws p =
      let r = run_writes (2 ^ 32) ws (0, p) in
      if is_fast_writable_for serialized_sz p && (serialized_sz == r.0) then some r else none

  unfoldable pub serialize_err : ErrPacket → ℕ → PacketBuf → Option (ℕ × PacketBuf)
  unfolding err_writes is_fast_writable_for run_writes
  serialize_err e capabilities =
      asserted (3 + (if has_bit capabilities client_protocol_41 then 6 else 0) + length e.err_msg)
        (err_writes e capabilities)

  unfoldable pub serialize_eof : EofPacket → ℕ → PacketBuf → Option (ℕ × PacketBuf)
  unfolding eof_writes is_fast_writable_for run_writes
  serialize_eof e capabilities =
      asserted (1 + (if has_bit capabilities client_protocol_41 then 4 else 0))
        (eof_writes e capabilities)

  -- `DataPacket` and its `serialize`.
  unfoldable pub serialize : DataPacket → ℕ → PacketBuf → Option (ℕ × PacketBuf)
  unfolding serialize_ok serialize_err serialize_eof serialize_column serialize_column_count
      serialize_handshake
  serialize (ok_packet k) capabilities p = serialize_ok k capabilities p
  serialize (err_packet e) capabilities p = serialize_err e capabilities p
  serialize (eof_packet e) capabilities p = serialize_eof e capabilities p
  serialize (column_packet c) capabilities p = some (serialize_column c p)
  serialize (column_count_packet n) capabilities p =
      let (sz, q) = serialize_column_count n p in some (size_of (2 ^ 64) sz, q)
  serialize (handshake_packet h) capabilities p = some (serialize_handshake h capabilities p)
