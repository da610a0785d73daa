-- ===== src/PacketBuf/ByteOrder.antt =====
-- byte_order.h: little-endian integers at the two indices.
use oblogproxy.Common.{ℕ, ◌+◌, ◌*◌, ◌/◌, ◌^◌, if◌then◌else◌, ltb}
use oblogproxy.Bytes.{le_bytes, le_value}
use oblogproxy.PacketBuf.State.{PacketBuf, put, peek, advance}

unfoldable pub encoded_bytes_length : ℕ → ℕ
encoded_bytes_length v =
    if ltb v 0xfb then 1 else if ltb v (2 ^ 16) then 3 else if ltb v (2 ^ 24) then 4 else 9

unfoldable pub write_htole8 : ℕ → PacketBuf → PacketBuf
write_htole8 v p = put (le_bytes 1 v) p

unfoldable pub write_htole16 : ℕ → PacketBuf → PacketBuf
write_htole16 v p = put (le_bytes 2 v) p

unfoldable pub write_htole24 : ℕ → PacketBuf → PacketBuf
write_htole24 v p = write_htole8 (v / 2 ^ 16) (write_htole16 v p)

unfoldable pub write_htole32 : ℕ → PacketBuf → PacketBuf
write_htole32 v p = put (le_bytes 4 v) p

unfoldable pub write_htole48 : ℕ → PacketBuf → PacketBuf
write_htole48 v p = write_htole16 (v / 2 ^ 32) (write_htole32 v p)

unfoldable pub write_htole64 : ℕ → PacketBuf → PacketBuf
write_htole64 v p = put (le_bytes 8 v) p

-- A read gives the value and the buffer with its index behind the bytes.
abbrev pub read_le : ℕ → PacketBuf → ℕ × PacketBuf
read_le n p = (le_value (peek n p), advance n p)

unfoldable pub read_le8toh : PacketBuf → ℕ × PacketBuf
read_le8toh = read_le 1

unfoldable pub read_le16toh : PacketBuf → ℕ × PacketBuf
read_le16toh = read_le 2

-- The two parts have no bit in common, and `|` is their sum.
unfoldable pub read_le24toh : PacketBuf → ℕ × PacketBuf
read_le24toh p =
    let low = read_le16toh p in
    let middle = read_le8toh low.1 in (middle.0 * 2 ^ 16 + low.0, middle.1)

unfoldable pub read_le32toh : PacketBuf → ℕ × PacketBuf
read_le32toh = read_le 4

unfoldable pub read_le48toh : PacketBuf → ℕ × PacketBuf
read_le48toh p =
    let low = read_le32toh p in
    let middle = read_le16toh low.1 in (middle.0 * 2 ^ 32 + low.0, middle.1)

unfoldable pub read_le64toh : PacketBuf → ℕ × PacketBuf
read_le64toh = read_le 8
