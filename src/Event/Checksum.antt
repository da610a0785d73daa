-- ===== src/Event/Checksum.antt =====
-- ObLogEvent: the header and the checksum flag, the four bytes of CRC32 behind an event, and
-- `verify_event_checksum`. `crc32` is zlib's function, from its initial value, over some bytes.
-- A file is the list of its bytes; FsUtil::read_file (common/fs_util.cpp) fails unless it gets all
-- the bytes asked for. Other I/O errors are left out.
use oblogproxy.Common.{
  ℕ, ◌+◌, ◌-◌, ◌%◌, ◌^◌, ◌≤◌, ◌≡◌, List, [], ◌++◌, Option, none, some, Bool, false, if◌then◌else◌,
  ◌==◌, leb, not, length, take, drop, arith, append-nil, length-append,
}
use oblogproxy.Bytes.{int4store, int4load}
use oblogproxy.Bytes.RoundTrip.{length-int4store}
use oblogproxy.Event.Header.{OblogEventHeader, deserialize_header, common_header_length}

abbrev pub off : ℕ
off = 0

abbrev pub crc32_flag : ℕ
crc32_flag = 1

abbrev pub common_checksum_length : ℕ
common_checksum_length = 4

pub record ObLogEvent : Type 0 where
  pub header : OblogEventHeader
  pub checksum_flag : ℕ

unfoldable pub get_checksum_len : ℕ → ℕ
get_checksum_len flag = if flag == off then 0 else common_checksum_length

pub get_checksum_len-le : (flag : ℕ) → get_checksum_len flag ≤ common_checksum_length
unfolding get_checksum_len
get_checksum_len-le flag = ground arith

unfoldable pub read_file : List ℕ → ℕ → ℕ → Option (List ℕ)
read_file file start_pos len =
    if leb (start_pos + len) (length file) then some (take len (drop start_pos file)) else none

module _ (crc32 : List ℕ → ℕ) where
  -- The bytes that end up before `pos`, given those that are there already.
  unfoldable pub write_checksum : ℕ → List ℕ → List ℕ
  write_checksum flag buff = if flag == crc32_flag then buff ++ int4store (crc32 buff) else buff

  -- It only adds bytes at the end.
  abbrev pub checksum_bytes : ℕ → List ℕ → List ℕ
  checksum_bytes flag buff = if flag == crc32_flag then int4store (crc32 buff) else []

  pub write_checksum-append :
      (flag : ℕ) (buff : List ℕ) → write_checksum flag buff ≡ buff ++ checksum_bytes flag buff
  unfolding write_checksum
  write_checksum-append flag buff = ground (arith, append-nil buff)

  pub length-write_checksum :
      (flag : ℕ) (buff : List ℕ)
      → flag ≤ crc32_flag
      → length (write_checksum flag buff) ≡ length buff + get_checksum_len flag
  unfolding write_checksum get_checksum_len
  length-write_checksum flag buff h =
      ground (arith, length-append buff (int4store (crc32 buff)), length-int4store (crc32 buff))

  -- The checksum stands in the last four bytes of the event.
  unfoldable pub compare_checksum : List ℕ → ℕ → Option Bool
  compare_checksum buffer check_sum_pos = elim (int4load (drop check_sum_pos buffer)) [
    | none ↦ none
    | some (check_sum_read, _) ↦ some (check_sum_read == crc32 (take check_sum_pos buffer) % 2 ^ 32)
  ]

  -- `some true` is OMS_OK and `some false` OMS_FAILED; `none` is a read outside the event's buffer.
  unfoldable pub verify_event_checksum : List ℕ → ℕ → Bool → Option Bool
  verify_event_checksum file start_pos require_event_existed =
      elim (read_file file start_pos common_header_length) [
        | none ↦ some (not require_event_existed)
        | some header_buff ↦ elim (deserialize_header header_buff) [
          | none ↦ none
          | some (header, _) ↦ elim (read_file file start_pos header.event_length) [
            | none ↦ some false
            | some buffer ↦ compare_checksum buffer ((header.event_length + 2 ^ 32 - 4) % 2 ^ 32)
          ]
        ]
      ]
