-- ===== src/PacketBuf/Text.antt =====
-- The reads and writes of strings and of bytes in packet_buf.inl.
pub mod RoundTrip
use oblogproxy.Common.{
  ℕ, ◌+◌, ◌%◌, ◌^◌, List, [], ◌∷◌, ◌++◌, Option, none, some, Bool, true, false, if◌then◌else◌, take,
  drop, length,
}
use oblogproxy.Event.Memory.{c_string}
use oblogproxy.PacketBuf.State.{
  PacketBuf, ensure_writable, ensure_readable, put, peek, advance, sub32,
}
use oblogproxy.PacketBuf.ByteOrder.{encoded_bytes_length}
use oblogproxy.PacketBuf.Integer.{Written, guarded, write_uint, read_uint}

abbrev pub ReadBytes : Type 0
ReadBytes = Option (ℕ × List ℕ) × PacketBuf

-- The `uint32_t` sum of the length of the prefix and the length.
abbrev pub total_len : ℕ → Bool → ℕ
total_len len prefix_with_encoded_len =
    ((if prefix_with_encoded_len then encoded_bytes_length len else 0) + len) % 2 ^ 32

module _ (fresh : ℕ → List ℕ) where
  -- `write_string(const char*, uint32_t, bool)`; `str` holds `len` bytes at least.
  unfoldable pub write_string : List ℕ → ℕ → Bool → PacketBuf → Written
  write_string str len prefix_with_encoded_len p =
      guarded
        (λ q.
          let prefixed = if prefix_with_encoded_len then (write_uint fresh len q).1 else q in
          (some (total_len len prefix_with_encoded_len), put (take len str) prefixed))
        (ensure_writable fresh (total_len len prefix_with_encoded_len) p)

  -- `write_string(const std::string&, bool)`.
  unfoldable pub write_std_string : List ℕ → Bool → PacketBuf → Written
  write_std_string str prefix_with_encoded_len =
      write_string str (length str % 2 ^ 32) prefix_with_encoded_len

  -- `write_string(const char*)`, of memory that holds a NUL.
  unfoldable pub write_c_string : List ℕ → PacketBuf → Written
  unfolding write_string
  write_c_string str =
      write_string (c_string str ++ 0 ∷ []) ((length (c_string str) + 1) % 2 ^ 32) false

unfoldable pub read_fixed_length_string : ℕ → PacketBuf → ReadBytes
read_fixed_length_string len p =
    guarded (λ q. (some (len, peek len q), advance len q)) (ensure_readable len p)

-- The length is passed on as a `uint32_t`. A string that is not all there gives its length back too.
abbrev pub back_off : ℕ → ReadBytes → ReadBytes
back_off len_read_sz (none, q) = (none, record q { read_index = sub32 q.read_index len_read_sz })
back_off len_read_sz (some (str_read_sz, str), q) = (some (len_read_sz + str_read_sz, str), q)

abbrev pub after_length : Option (ℕ × ℕ) × PacketBuf → ReadBytes
after_length (none, q) = (none, q)
after_length (some (len_read_sz, len), q) =
    back_off len_read_sz (read_fixed_length_string (len % 2 ^ 32) q)

unfoldable pub read_length_encoded_string : PacketBuf → ReadBytes
read_length_encoded_string p = after_length (read_uint p)

-- The string goes on to the first NUL in memory, which may stand behind the buffer, in `heap`.
pub read_null_terminated_string : List ℕ → PacketBuf → ReadBytes
read_null_terminated_string heap p =
    let str = c_string (drop p.read_index p.buf ++ heap) in
    let read_sz = (length str + 1) % 2 ^ 32 in (some (read_sz, str), advance read_sz p)

-- `read_bytes` gives a pointer into the buffer: the bytes there now.
unfoldable pub read_bytes : ℕ → PacketBuf → ReadBytes
read_bytes len p = guarded (λ q. (some (len, peek len q), advance len q)) (ensure_readable len p)

unfoldable pub read_skip : ℕ → PacketBuf → Written
read_skip len p = guarded (λ q. (some len, advance len q)) (ensure_readable len p)

unfoldable pub read_remaining_bytes : PacketBuf → (ℕ × List ℕ) × PacketBuf
read_remaining_bytes p =
    let sz = sub32 p.write_index p.read_index in
    ((sz, peek sz p), record p { read_index = p.write_index })
