-- ===== src/Event/Header.antt =====
-- OblogEventHeader, the 19 bytes before each event. An event type is its number.
use oblogproxy.Common.{
  ℕ, ◌+◌, ◌^◌, ◌<◌, ◌≡◌, refl, List, ◌++◌, some, length, append_assoc, length-append, take, drop,
}
use oblogproxy.Bytes.{
  Read, ◌>>=◌, pure, int1store, int2store, int4store, int1load, int2load, int4load, le_bytes,
}
use oblogproxy.Bytes.RoundTrip.{
  int1load-int1store, int2load-int2store, int4load-int4store, store_lengths,
}

abbrev pub query_event : ℕ
query_event = 2

abbrev pub rotate_event : ℕ
rotate_event = 4

abbrev pub format_description_event : ℕ
format_description_event = 15

abbrev pub xid_event : ℕ
xid_event = 16

abbrev pub table_map_event : ℕ
table_map_event = 19

abbrev pub write_rows_event : ℕ
write_rows_event = 30

abbrev pub update_rows_event : ℕ
update_rows_event = 31

abbrev pub delete_rows_event : ℕ
delete_rows_event = 32

abbrev pub gtid_log_event : ℕ
gtid_log_event = 33

abbrev pub previous_gtids_log_event : ℕ
previous_gtids_log_event = 35

abbrev pub partial_update_rows_event : ℕ
partial_update_rows_event = 39

abbrev pub common_header_length : ℕ
common_header_length = 19

pub record OblogEventHeader : Type 0 where
  pub timestamp : ℕ
  pub type_code : ℕ
  pub server_id : ℕ
  pub event_length : ℕ
  pub next_position : ℕ
  pub flags : ℕ

-- The ranges of the fields; `timestamp` is 64 bits wide in memory and 32 in the buffer.
pub record IsHeader (h : OblogEventHeader) : Type 0 where
  pub timestamp_fits : h.timestamp < 2 ^ 32
  pub type_code_fits : h.type_code < 2 ^ 8
  pub server_id_fits : h.server_id < 2 ^ 32
  pub event_length_fits : h.event_length < 2 ^ 32
  pub next_position_fits : h.next_position < 2 ^ 32
  pub flags_fits : h.flags < 2 ^ 16

unfoldable pub flush_header : OblogEventHeader → List ℕ
flush_header h =
    int4store h.timestamp
    ++ (int1store h.type_code
        ++ (int4store h.server_id
            ++ (int4store h.event_length ++ (int4store h.next_position ++ int2store h.flags))))

abbrev pub flags_offset : ℕ
flags_offset = 17

-- Bytes written over others at a position.
pub store_at : ℕ → List ℕ → List ℕ → List ℕ
store_at pos bytes buff = take pos buff ++ (bytes ++ drop (pos + length bytes) buff)

-- Flags that are written over those in a buffer are those of the header there.
pub store_at-flags :
    (h : OblogEventHeader) (flags : ℕ) (rest : List ℕ)
    → store_at flags_offset (int2store flags) (flush_header h ++ rest)
      ≡ flush_header (record h { flags = flags }) ++ rest
unfolding store_at flush_header int1store int2store int4store le_bytes
store_at-flags h flags rest = refl

unfoldable pub deserialize_header : Read OblogEventHeader
deserialize_header = do
  timestamp ← int4load
  type_code ← int1load
  server_id ← int4load
  event_length ← int4load
  next_position ← int4load
  flags ← int2load
  pure (record {
    timestamp = timestamp;
    type_code = type_code;
    server_id = server_id;
    event_length = event_length;
    next_position = next_position;
    flags = flags;
  })

pub length-flush_header : (h : OblogEventHeader) → length (flush_header h) ≡ common_header_length
unfolding flush_header
length-flush_header h = simp (length-append, store_lengths)

-- A header in range is read back from what `flush_to_buff` wrote, whatever follows it.
pub deserialize_header-flush_header :
    (h : OblogEventHeader) (rest : List ℕ)
    → IsHeader h
    → deserialize_header (flush_header h ++ rest) ≡ some (h, rest)
unfolding deserialize_header flush_header
deserialize_header-flush_header h rest v = simp append_assoc (
    rw (
      int4load-int4store h.timestamp _ v.timestamp_fits,
      ◌>>=◌,
      int1load-int1store h.type_code _ v.type_code_fits,
      ◌>>=◌,
      int4load-int4store h.server_id _ v.server_id_fits,
      ◌>>=◌,
      int4load-int4store h.event_length _ v.event_length_fits,
      ◌>>=◌,
      int4load-int4store h.next_position _ v.next_position_fits,
      ◌>>=◌,
      int2load-int2store h.flags _ v.flags_fits,
    ))
