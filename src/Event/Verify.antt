-- ===== src/Event/Verify.antt =====
-- What `verify_event_checksum` decides of an event that stands in a file.
use oblogproxy.Common.{
  ℕ, ◌+◌, ◌-◌, ◌%◌, ◌^◌, ◌<◌, ◌≡◌, List, [], ◌++◌, some, Bool, ◌==◌, length, arith, length-append,
  append_assoc, take-append, drop-append, append-nil, subst,
}
use oblogproxy.Bytes.{int4store, int4load}
use oblogproxy.Bytes.RoundTrip.{length-int4store, int4load-int4store}
use oblogproxy.Event.Header.{
  OblogEventHeader, IsHeader, flush_header, deserialize_header, common_header_length,
  length-flush_header, deserialize_header-flush_header,
}
use oblogproxy.Event.Checksum.{read_file, verify_event_checksum, compare_checksum}

pub read_file-append :
    (n : ℕ) (before part after : List ℕ)
    → length part ≡ n
    → read_file (before ++ (part ++ after)) (length before) n ≡ some part
unfolding read_file
read_file-append n before part after e =
    rw (← e, drop-append before (part ++ after), take-append part after)
      (ground (arith, length-append before (part ++ after), length-append part after))

module _ (crc32 : List ℕ → ℕ) (h : OblogEventHeader) (body before after : List ℕ) (stored : ℕ)
    (h_fits : IsHeader h) (sized : h.event_length ≡ common_header_length + length body + 4)
    (stored_fits : stored < 2 ^ 32) where
  abbrev covered : List ℕ
  covered = flush_header h ++ body

  abbrev file : List ℕ
  file = before ++ ((covered ++ int4store stored) ++ after)

  length-covered : length covered ≡ common_header_length + length body
  length-covered = omega (arith, length-append (flush_header h) body, length-flush_header h)

  reads_header : read_file file (length before) common_header_length ≡ some (flush_header h)
  reads_header =
      simp append_assoc
        (read_file-append common_header_length before (flush_header h) _ (length-flush_header h))

  reads_event : read_file file (length before) h.event_length ≡ some (covered ++ int4store stored)
  reads_event = read_file-append h.event_length before (covered ++ int4store stored) after (
      omega (
        arith,
        length-append covered (int4store stored),
        length-int4store stored,
        length-covered,
        sized,
      ))

  check_sum_pos : (h.event_length + 2 ^ 32 - 4) % 2 ^ 32 ≡ length covered
  check_sum_pos = omega (arith, length-covered, sized, h_fits.event_length_fits)

  reads_stored : int4load (int4store stored) ≡ some (stored, [])
  reads_stored =
      subst (λ s. int4load s ≡ some (stored, [])) (append-nil (int4store stored))
        (int4load-int4store stored [] stored_fits)

  compares :
      compare_checksum crc32 (covered ++ int4store stored) (length covered)
      ≡ some (stored == crc32 covered % 2 ^ 32)
  unfolding compare_checksum
  compares = rw (
    drop-append covered (int4store stored),
    compare_checksum,
    reads_stored,
    take-append covered (int4store stored),
  )

  -- In a file that holds an event in range, its length set right, with `stored` in the place of the
  -- checksum, the check succeeds exactly if `stored` is the low 32 bits of the CRC32 of the bytes
  -- before it.
  pub verify_event_checksum-stored :
      (required : Bool)
      → verify_event_checksum crc32 file (length before) required
        ≡ some (stored == crc32 covered % 2 ^ 32)
  unfolding verify_event_checksum
  verify_event_checksum-stored required =
      rw (reads_header, verify_event_checksum, reads_fields, reads_event, check_sum_pos) compares
    where
      reads_fields : deserialize_header (flush_header h) ≡ some (h, [])
      reads_fields = rw append-nil at (deserialize_header-flush_header h [] h_fits)
