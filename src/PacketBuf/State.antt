-- ===== src/PacketBuf/State.antt =====
-- The state of a PacketBuf, and the operations on its indices and its capacity. An index is a
-- `uint32_t`. `fresh n` is what a new array of `n` bytes holds.
use Prim.Native.Nat.{min}
use oblogproxy.Common.{
  ℕ, ◌+◌, ◌-◌, ◌*◌, ◌/◌, ◌%◌, ◌^◌, List, ◌++◌, Bool, true, false, if◌then◌else◌, ltb, leb, take,
  drop, length,
}

pub data ErrorMsg : Type 0 where
  no_error : ErrorMsg
  too_large : (new_write_index max_capacity : ℕ) → ErrorMsg
  only_readable : (bytes readable : ℕ) → ErrorMsg
  bad_first_byte : ℕ → ErrorMsg

pub record PacketBuf : Type 0 where
  pub buf : List ℕ
  pub capacity : ℕ
  pub min_capacity : ℕ
  pub max_capacity : ℕ
  pub read_index : ℕ
  pub write_index : ℕ
  pub error_msg : ErrorMsg

abbrev pub io_size : ℕ
io_size = 4096

-- `a - b` of two `uint32_t`.
abbrev pub sub32 : ℕ → ℕ → ℕ
sub32 a b = (a + 2 ^ 32 - b) % 2 ^ 32

pub is_readable : PacketBuf → Bool
is_readable p = ltb p.read_index p.write_index

abbrev pub readable_bytes : PacketBuf → ℕ
readable_bytes p = sub32 p.write_index p.read_index

abbrev pub is_readable_for : ℕ → PacketBuf → Bool
is_readable_for nof_bytes p = leb nof_bytes (readable_bytes p)

pub is_fast_writable : PacketBuf → Bool
is_fast_writable p = ltb p.write_index p.capacity

unfoldable pub fast_writable_bytes : PacketBuf → ℕ
fast_writable_bytes p = sub32 p.capacity p.write_index

unfoldable pub is_fast_writable_for : ℕ → PacketBuf → Bool
unfolding fast_writable_bytes
is_fast_writable_for nof_bytes p = leb nof_bytes (fast_writable_bytes p)

unfoldable pub clear : PacketBuf → PacketBuf
clear p = record p { read_index = 0; write_index = 0; error_msg = no_error }

unfoldable pub ensure_readable : ℕ → PacketBuf → Bool × PacketBuf
ensure_readable bytes p =
    if is_readable_for bytes p
    then (true, p)
    else (false, record p { error_msg = only_readable bytes (readable_bytes p) })

-- `memcpy` of some bytes to `buf + write_index`, and the index behind them.
unfoldable pub put : List ℕ → PacketBuf → PacketBuf
put bs p = record p {
  buf = take p.write_index p.buf ++ (bs ++ drop (p.write_index + length bs) p.buf);
  write_index = (p.write_index + length bs) % 2 ^ 32;
}

-- The bytes at `buf + read_index`, and the index behind them.
unfoldable pub peek : ℕ → PacketBuf → List ℕ
peek n p = take n (drop p.read_index p.buf)

unfoldable pub advance : ℕ → PacketBuf → PacketBuf
advance n p = record p { read_index = (p.read_index + n) % 2 ^ 32 }

-- `(n + io_size - 1) & ~(io_size - 1)` of a `uint32_t`.
abbrev pub rounded : ℕ → ℕ
rounded n = (n + io_size - 1) % 2 ^ 32 / io_size * io_size

module _ (fresh : ℕ → List ℕ) where
  unfoldable pub new_packet_buf : (min_capacity max_capacity : ℕ) → PacketBuf
  new_packet_buf min_capacity max_capacity = record {
    buf = fresh min_capacity;
    capacity = min_capacity;
    min_capacity = min_capacity;
    max_capacity = max_capacity;
    read_index = 0;
    write_index = 0;
    error_msg = no_error;
  }

  unfoldable pub reset : PacketBuf → PacketBuf
  unfolding clear
  reset p =
      if ltb p.min_capacity p.capacity
      then record (clear p) { buf = fresh p.min_capacity; capacity = p.min_capacity }
      else clear p

  -- Only what stands between the two indices is copied.
  unfoldable pub extend : ℕ → PacketBuf → PacketBuf
  extend new_capacity p = record p {
    buf =
        take p.read_index (fresh new_capacity)
        ++ (drop p.read_index (take p.write_index p.buf)
            ++ drop p.write_index (fresh new_capacity));
    capacity = new_capacity;
  }

  unfoldable pub ensure_writable : ℕ → PacketBuf → Bool × PacketBuf
  ensure_writable bytes p =
      let new_write_index = (p.write_index + bytes) % 2 ^ 32 in
      if leb new_write_index p.capacity
      then (true, p)
      else if ltb p.max_capacity new_write_index
      then (false, record p { error_msg = too_large new_write_index p.max_capacity })
      else (true, extend (min (rounded new_write_index) p.max_capacity) p)
