-- ===== src/Event/FormatDescription.antt =====
-- FormatDescriptionEvent; what is proved of it is in RoundTrip.
pub mod RoundTrip
use oblogproxy.Common.{
  ℕ, suc, zero, ◌+◌, ◌-◌, ◌%◌, ◌^◌, ◌<◌, ◌≤◌, ◌≡◌, ◌∙◌, refl, List, [], ◌∷◌, ◌++◌, Option, none,
  some, Bool, true, ◌==◌, leb, if◌then◌else◌, arith, length, append_assoc, length-append, eq→==,
  take, drop, replicate, All, take-length,
}
use oblogproxy.Bytes.{
  Read, ◌>>=◌, ◌>>◌, pure, assert, run, load_bytes, int1store, int2store, int4store, int1load,
  int2load, int4load,
}
use oblogproxy.Bytes.RoundTrip.{
  load_bytes-append, int1load-int1store, int2load-int2store, int4load-int4store, store_lengths,
}
use oblogproxy.Event.Header.{
  OblogEventHeader, flush_header, deserialize_header, common_header_length,
  format_description_event, store_at, flags_offset,
}
use oblogproxy.Event.Checksum.{ObLogEvent, write_checksum, get_checksum_len}
use oblogproxy.Event.Framing.{IsEvent, run_framed}
use oblogproxy.Event.Memory.{c_string, NonZero}

abbrev pub st_server_ver_len : ℕ
st_server_ver_len = 50

abbrev pub log_event_types : ℕ
log_event_types = 39

pub record FormatDescriptionEvent : Type 0 where
  pub event : ObLogEvent
  pub open event use *
  pub version : ℕ
  pub server_version : List ℕ
  pub timestamp : ℕ
  pub header_len : ℕ
  pub event_type_header_len : List ℕ

-- The lengths of the fixed parts, by event type.
abbrev server_event_header_length : List ℕ
server_event_header_length =
    56 ∷ 13 ∷ 0 ∷ 8 ∷ 0 ∷ 18 ∷ 0 ∷ 4 ∷ 4 ∷ 4 ∷ 4 ∷ 18 ∷ 0 ∷ 0 ∷ 96 ∷ 0 ∷ 4 ∷ 26 ∷ 8 ∷ 0 ∷ 0 ∷ 0 ∷ 8
    ∷ 8 ∷ 8 ∷ 2 ∷ 0 ∷ 0 ∷ 0 ∷ 10 ∷ 10 ∷ 10 ∷ 42 ∷ 42 ∷ 0 ∷ 18 ∷ 52 ∷ 0 ∷ 10 ∷ []

-- The constructor from a timestamp: version 4 of "5.7.38", the flag `LOG_EVENT_BINLOG_IN_USE_F` set.
unfoldable pub new_format_description : (server_id flag timestamp : ℕ) → FormatDescriptionEvent
new_format_description server_id flag timestamp =
    let event_len = get_checksum_len flag + 1 + common_header_length + 96 in
    record {
      event = record {
        header = record {
          timestamp = timestamp;
          type_code = format_description_event;
          server_id = server_id;
          event_length = event_len;
          next_position = 4 + event_len;
          flags = 1;
        };
        checksum_flag = flag;
      };
      version = 4;
      server_version = b'5' ∷ b'.' ∷ b'7' ∷ b'.' ∷ b'3' ∷ b'8' ∷ [];
      timestamp = timestamp;
      header_len = common_header_length;
      event_type_header_len = server_event_header_length;
    }

-- `memset` of 50 bytes and `strncpy` of 49 at most.
pub server_version_field : List ℕ → List ℕ
server_version_field s =
    let copied = take (st_server_ver_len - 1) (c_string s) in
    copied ++ replicate (st_server_ver_len - length copied) 0

pub header_lens : List ℕ → List ℕ
header_lens [] = []
header_lens (n ∷ ns) = int1store n ++ header_lens ns

abbrev pub body : FormatDescriptionEvent → List ℕ
body e =
    int2store e.version
    ++ (server_version_field e.server_version
        ++ (int4store e.timestamp
            ++ (int1store e.header_len
                ++ (header_lens e.event_type_header_len ++ int1store e.checksum_flag))))

abbrev pub in_use : OblogEventHeader → Bool
in_use h = h.flags % 2 == 1

-- The checksum is computed with the flags cleared if the binlog is marked as in use, and they are
-- written back behind it.
pub flush_to_buff : (List ℕ → ℕ) → FormatDescriptionEvent → List ℕ
unfolding server_version_field header_lens
flush_to_buff crc32 e =
    let written = flush_header e.header ++ body e in
    let cleared =
      if in_use e.header then store_at flags_offset (int2store 0) written else written in
    let summed = write_checksum crc32 e.checksum_flag cleared in
    if in_use e.header then store_at flags_offset (int2store e.header.flags) summed else summed

pub read_lens : ℕ → Read (List ℕ)
read_lens zero = pure []
read_lens (suc n) = do b ← int1load; bs ← read_lens n; pure (b ∷ bs)

-- The checksum's flag is the one that the event holds.
pub read_body : OblogEventHeader → Read FormatDescriptionEvent
unfolding read_lens
read_body header = do
  version ← int2load
  server_version ← load_bytes st_server_ver_len
  timestamp ← int4load
  header_len ← int1load
  assert (leb (common_header_length + 57 + log_event_types) header.event_length)
  lens ← read_lens log_event_types
  flag ← int1load
  pure (record {
    event = record { header = header; checksum_flag = flag };
    version = version;
    server_version = c_string server_version;
    timestamp = timestamp;
    header_len = header_len;
    event_type_header_len = lens;
  })

pub deserialize : List ℕ → Option FormatDescriptionEvent
unfolding read_body
deserialize = run (deserialize_header >>= read_body)
