-- ===== src/PacketBuf/Integer.antt =====
-- The reads and writes of integers in packet_buf.inl. The result of an operation is the number of
-- its bytes, or `none` for -1, and for a read the value too; what it leaves of the buffer is beside it.
pub mod Encoded
pub mod Writes
pub mod Reads
use oblogproxy.Common.{
  ℕ, ◌+◌, ◌%◌, ◌^◌, List, [], ◌∷◌, Option, none, some, Bool, true, false, if◌then◌else◌, ltb, ◌==◌,
}
use oblogproxy.Bytes.{le_value}
use oblogproxy.PacketBuf.State.{
  PacketBuf, ErrorMsg, ensure_writable, ensure_readable, peek, advance,
}
use oblogproxy.PacketBuf.ByteOrder.{
  encoded_bytes_length, write_htole8, write_htole16, write_htole24, write_htole32, write_htole48,
  write_htole64, read_le8toh, read_le16toh, read_le24toh, read_le32toh, read_le48toh, read_le64toh,
}

abbrev pub Written : Type 0
Written = Option ℕ × PacketBuf

abbrev pub ReadBack : Type 0
ReadBack = Option (ℕ × ℕ) × PacketBuf

-- An operation that needs room or bytes fails with -1 and an error message if they are not there.
abbrev pub guarded :
    {A : Type 0} → (PacketBuf → Option A × PacketBuf) → Bool × PacketBuf → Option A × PacketBuf
guarded k (false, q) = (none, q)
guarded k (true, q) = k q

unfoldable pub store_uint : ℕ → PacketBuf → PacketBuf
store_uint v p =
    if encoded_bytes_length v == 1
    then write_htole8 v p
    else if encoded_bytes_length v == 3
    then write_htole16 v (write_htole8 0xfc p)
    else if encoded_bytes_length v == 4
    then write_htole24 v (write_htole8 0xfd p)
    else write_htole64 v (write_htole8 0xfe p)

module _ (fresh : ℕ → List ℕ) where
  -- What every write of an integer does with its width and its store.
  abbrev pub write_fixed : ℕ → (PacketBuf → PacketBuf) → PacketBuf → Written
  write_fixed n store p = guarded (λ q. (some n, store q)) (ensure_writable fresh n p)

  unfoldable pub write_uint1 : ℕ → PacketBuf → Written
  write_uint1 v = write_fixed 1 (write_htole8 v)

  unfoldable pub write_uint2 : ℕ → PacketBuf → Written
  write_uint2 v = write_fixed 2 (write_htole16 v)

  unfoldable pub write_uint3 : ℕ → PacketBuf → Written
  write_uint3 v = write_fixed 3 (write_htole24 v)

  unfoldable pub write_uint4 : ℕ → PacketBuf → Written
  write_uint4 v = write_fixed 4 (write_htole32 v)

  unfoldable pub write_uint6 : ℕ → PacketBuf → Written
  write_uint6 v = write_fixed 6 (write_htole48 v)

  unfoldable pub write_uint8 : ℕ → PacketBuf → Written
  write_uint8 v = write_fixed 8 (write_htole64 v)

  -- The integer with an encoded length.
  unfoldable pub write_uint : ℕ → PacketBuf → Written
  write_uint v = write_fixed (encoded_bytes_length v) (store_uint v)

abbrev pub read_fixed : ℕ → (PacketBuf → ℕ × PacketBuf) → PacketBuf → ReadBack
read_fixed n load p = guarded (λ q. (some (n, (load q).0), (load q).1)) (ensure_readable n p)

unfoldable pub read_uint1 : PacketBuf → ReadBack
read_uint1 = read_fixed 1 read_le8toh

unfoldable pub read_uint2 : PacketBuf → ReadBack
read_uint2 = read_fixed 2 read_le16toh

unfoldable pub read_uint3 : PacketBuf → ReadBack
read_uint3 = read_fixed 3 read_le24toh

unfoldable pub read_uint4 : PacketBuf → ReadBack
read_uint4 = read_fixed 4 read_le32toh

unfoldable pub read_uint6 : PacketBuf → ReadBack
read_uint6 = read_fixed 6 read_le48toh

unfoldable pub read_uint8 : PacketBuf → ReadBack
read_uint8 = read_fixed 8 read_le64toh

-- The `switch` on the first byte; the index moves past it once the rest is known to be readable.
unfoldable pub read_tagged : ℕ → PacketBuf → ReadBack
read_tagged first_byte p =
    if first_byte == 0xfc
    then read_fixed 3 (λ q. read_le16toh (advance 1 q)) p
    else if first_byte == 0xfd
    then read_fixed 4 (λ q. read_le24toh (advance 1 q)) p
    else if first_byte == 0xfe
    then read_fixed 9 (λ q. read_le64toh (advance 1 q)) p
    else (none, record p { error_msg = ErrorMsg.bad_first_byte first_byte })

abbrev pub read_first : ℕ → PacketBuf → ReadBack
read_first first_byte p =
    if ltb first_byte 0xfb then (some (1, first_byte), advance 1 p) else read_tagged first_byte p

unfoldable pub read_uint : PacketBuf → ReadBack
read_uint p = guarded (λ q. read_first (le_value (peek 1 q)) q) (ensure_readable 1 p)
