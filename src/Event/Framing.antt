-- ===== src/Event/Framing.antt =====
-- What all events share when they are read back: the header first, the checksum last.
use oblogproxy.Common.{ℕ, ◌+◌, ◌≤◌, ◌≡◌, List, ◌++◌, arith, length, append_assoc, length-append}
use oblogproxy.Bytes.{Read, ◌>>=◌, run}
use oblogproxy.Event.Header.{
  OblogEventHeader, IsHeader, flush_header, deserialize_header, common_header_length,
  length-flush_header, deserialize_header-flush_header,
}
use oblogproxy.Event.Checksum.{
  ObLogEvent, write_checksum, get_checksum_len, checksum_bytes, write_checksum-append, crc32_flag,
  length-write_checksum,
}

-- The header's fields are in range, the checksum is off or CRC32, and the length is that of an
-- event with `n` bytes between the header and the checksum.
pub record IsEvent (e : ObLogEvent) (n : ℕ) : Type 0 where
  pub header_fits : IsHeader e.header
  pub checksum_known : e.checksum_flag ≤ crc32_flag
  pub sized : e.header.event_length ≡ common_header_length + n + get_checksum_len e.checksum_flag

module _ (crc32 : List ℕ → ℕ) (e : ObLogEvent) (body rest : List ℕ) where
  -- What follows the body of an event in its buffer.
  abbrev pub behind : List ℕ
  behind = checksum_bytes crc32 e.checksum_flag (flush_header e.header ++ body) ++ rest

  pub run_framed :
      {A : Type 0} (f : OblogEventHeader → Read A)
      → IsEvent e (length body)
      → run
          (deserialize_header >>= f)
          (write_checksum crc32 e.checksum_flag (flush_header e.header ++ body) ++ rest)
        ≡ run (f e.header) (body ++ behind)
  run_framed f v = rw (write_checksum-append crc32) (
      simp append_assoc (rw (deserialize_header-flush_header e.header _ v.header_fits, run, ◌>>=◌)))

  -- Such an event fills exactly the length that its header states.
  pub length-framed :
      (n : ℕ)
      → IsEvent e n
      → length body ≡ n
      → length (write_checksum crc32 e.checksum_flag (flush_header e.header ++ body))
        ≡ e.header.event_length
  length-framed n v h = omega (
    arith,
    length-write_checksum crc32 e.checksum_flag (flush_header e.header ++ body) v.checksum_known,
    length-append (flush_header e.header) body,
    length-flush_header e.header,
  )
