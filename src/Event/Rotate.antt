-- ===== src/Event/Rotate.antt =====
-- RotateEvent. `_index`, `_existed` and the previous gtids never reach a buffer.
use oblogproxy.Common.{
  ℕ, ◌+◌, ◌-◌, ◌%◌, ◌^◌, ◌<◌, ◌≤◌, ◌≡◌, ◌∙◌, List, [], true, ◌++◌, Option, some, ◌==◌, arith,
  length, append_assoc, length-append, eq→==,
}
use oblogproxy.Bytes.{Read, ◌>>=◌, ◌>>◌, pure, assert, run, load_bytes, int8store, int8load}
use oblogproxy.Bytes.RoundTrip.{load_bytes-append, int8load-int8store, length-int8store}
use oblogproxy.Event.Header.{
  OblogEventHeader, flush_header, deserialize_header, common_header_length, rotate_event,
}
use oblogproxy.Event.Checksum.{
  ObLogEvent, write_checksum, get_checksum_len, get_checksum_len-le, crc32_flag,
}
use oblogproxy.Event.Framing.{IsEvent, run_framed, length-framed}

pub data Op : Type 0 where
  init rotate : Op

pub record RotateEvent : Type 0 where
  pub event : ObLogEvent
  pub open event use *
  pub next_binlog_position : ℕ
  pub next_binlog_file_name : List ℕ
  pub op : Op

abbrev rotate_header_len : ℕ
rotate_header_len = 8

-- The constructor; `_op` is not set by it. The server's id and the checksum flag come from the
-- configuration; the flags of such a header are 1.
pub new_rotate :
    (server_id flag : ℕ) → ℕ → List ℕ → (timestamp begin_position : ℕ) → Op → RotateEvent
new_rotate server_id flag next_binlog_position name timestamp begin_position op =
    let event_len =
      (common_header_length + rotate_header_len + length name + get_checksum_len flag) % 2 ^ 32 in
    let end_position = (begin_position + event_len) % 2 ^ 32 in
    record {
      event = record {
        header = record {
          timestamp = timestamp;
          type_code = rotate_event;
          server_id = server_id;
          event_length = event_len;
          next_position = end_position;
          flags = 1;
        };
        checksum_flag = flag;
      };
      next_binlog_position = next_binlog_position;
      next_binlog_file_name = name;
      op = op;
    }

abbrev body : RotateEvent → List ℕ
body e = int8store e.next_binlog_position ++ e.next_binlog_file_name

pub flush_to_buff : (List ℕ → ℕ) → RotateEvent → List ℕ
flush_to_buff crc32 e = write_checksum crc32 e.checksum_flag (flush_header e.header ++ body e)

-- The length of the name is what the header's length leaves, as a `uint64_t`.
read_body : ℕ → OblogEventHeader → Read RotateEvent
read_body flag header = do
  next_binlog_position ← int8load
  let pos = common_header_length + 8
  let binlog_file_name_len = (header.event_length + 2 ^ 64 - get_checksum_len flag - pos) % 2 ^ 64
  name ← load_bytes binlog_file_name_len
  assert (pos + binlog_file_name_len + get_checksum_len flag == header.event_length)
  pure (record {
    event = record { header = header; checksum_flag = flag };
    next_binlog_position = next_binlog_position;
    next_binlog_file_name = name;
    op = rotate;
  })

pub deserialize : ℕ → List ℕ → Option RotateEvent
unfolding read_body
deserialize flag = run (deserialize_header >>= read_body flag)

pub record IsValid (e : RotateEvent) : Type 0 where
  pub event_fits : IsEvent e.event (8 + length e.next_binlog_file_name)
  pub next_binlog_position_fits : e.next_binlog_position < 2 ^ 64

length-body : (e : RotateEvent) → length (body e) ≡ 8 + length e.next_binlog_file_name
length-body e = omega (
  arith,
  length-append (int8store e.next_binlog_position) e.next_binlog_file_name,
  length-int8store e.next_binlog_position,
)

name_len :
    (e : RotateEvent)
    → IsValid e
    → length e.next_binlog_file_name
      ≡ (e.header.event_length
          + 2 ^ 64
          - get_checksum_len e.checksum_flag
          - (common_header_length + 8))
        % 2 ^ 64
name_len e v = omega (arith, v.event_fits.sized, v.event_fits.header_fits.event_length_fits)

ends_right :
    (e : RotateEvent)
    → IsValid e
    → (common_header_length + 8 + length e.next_binlog_file_name + get_checksum_len e.checksum_flag
        == e.header.event_length)
      ≡ true
ends_right e v = eq→== _ _ (omega (arith, v.event_fits.sized))

-- An event in range whose length is set right is read back from what `flush_to_buff` wrote, with
-- its operation set to `rotate`.
pub deserialize-flush_to_buff_rotate :
    (crc32 : List ℕ → ℕ) (e : RotateEvent) (rest : List ℕ)
    → IsValid e
    → deserialize e.checksum_flag (flush_to_buff crc32 e ++ rest) ≡ some (record e { op = rotate })
unfolding deserialize flush_to_buff
deserialize-flush_to_buff_rotate crc32 e rest v =
    run_framed crc32 e.event (body e) rest _ (rw (length-body e) v.event_fits)
    ∙ simp append_assoc (
        rw (
          int8load-int8store e.next_binlog_position _ v.next_binlog_position_fits,
          run,
          ◌>>=◌,
          load_bytes-append _ e.next_binlog_file_name _ (name_len e v),
          ◌>>=◌,
          ← name_len e v,
          ends_right e v,
        ))

module _ (server_id flag position : ℕ) (name : List ℕ) (timestamp begin_position : ℕ) (op : Op)
    (server_id_fits : server_id < 2 ^ 32) (flag_known : flag ≤ crc32_flag)
    (position_fits : position < 2 ^ 64) (timestamp_fits : timestamp < 2 ^ 32)
    (has_room : begin_position + length name + 31 < 2 ^ 32) where
  new_length :
      (common_header_length + rotate_header_len + length name + get_checksum_len flag) % 2 ^ 32
      ≡ common_header_length + rotate_header_len + length name + get_checksum_len flag
  new_length = omega (arith, get_checksum_len-le flag)

  abbrev new_event : RotateEvent
  new_event = new_rotate server_id flag position name timestamp begin_position op

  new_rotate-IsValid' : IsValid new_event
  unfolding new_rotate
  new_rotate-IsValid' = omega (arith, new_length, get_checksum_len-le flag)

  -- A new event in range, with room for its position, is valid; it fills the length that it
  -- states, and the position that it states is where it ends.
  pub new_rotate-IsValid :
      (crc32 : List ℕ → ℕ)
      → IsValid new_event
        × (length (flush_to_buff crc32 new_event) ≡ new_event.header.event_length)
        × (new_event.header.next_position ≡ begin_position + length (flush_to_buff crc32 new_event))
  unfolding flush_to_buff new_rotate
  new_rotate-IsValid crc32 =
      (new_rotate-IsValid', filled, omega (arith, filled, new_length, get_checksum_len-le flag))
    where
      filled : length (flush_to_buff crc32 new_event) ≡ new_event.header.event_length
      filled =
          length-framed crc32 new_event.event (body new_event) [] (8 + length name)
            new_rotate-IsValid'.event_fits (length-body new_event)
