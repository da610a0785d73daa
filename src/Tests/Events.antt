-- ===== src/Tests/Events.antt =====
-- Binlog events at concrete inputs, with a sum of the bytes in the place of CRC32.
use oblogproxy.Common.{
  ℕ, ◌+◌, ◌%◌, ◌^◌, ◌≡◌, refl, List, [], ◌∷◌, ◌++◌, some, true, replicate, length, arith,
  length-replicate, ◌==◌,
}
use oblogproxy.Bytes.{int4store, int8store, le_bytes}
use oblogproxy.GtidSet.Message.{GtidMessage}
use oblogproxy.Event.Header.{OblogEventHeader, flush_header, common_header_length}
use oblogproxy.Event.Checksum.{ObLogEvent, get_checksum_len, verify_event_checksum}
use oblogproxy.Event.Verify.{verify_event_checksum-stored}
use oblogproxy.Event.Memory.{c_string}
use oblogproxy.Event.Xid
use oblogproxy.Event.Gtid
use oblogproxy.Event.Rotate
use oblogproxy.Event.Query
use oblogproxy.Event.FormatDescription
use oblogproxy.Event.FormatDescription.RoundTrip.{
  IsValid, deserialize-flush_to_buff_format_description,
}
use oblogproxy.Event.PreviousGtids
use oblogproxy.Event.PreviousGtids.RoundTrip.{deserialize-flush_to_buff_previous_gtids}

abbrev pub crc : List ℕ → ℕ
crc [] = 1
crc (b ∷ bs) = b + crc bs

-- A header of an event of `n` bytes.
abbrev pub header : ℕ → OblogEventHeader
header n = record {
  timestamp = 1700000000;
  type_code = 16;
  server_id = 1;
  event_length = n;
  next_position = 4 + n;
  flags = 1;
}

-- An event with a checksum, of `n` bytes between the header and the checksum.
abbrev pub event : ℕ → ObLogEvent
event n = record { header = header (common_header_length + n + 4); checksum_flag = 1 }

abbrev xid_event : Xid.XidEvent
xid_event = record { event = event 8; xid = 77 }

abbrev uuid : List ℕ
uuid = 1 ∷ 2 ∷ 3 ∷ 4 ∷ 5 ∷ 6 ∷ 7 ∷ 8 ∷ 9 ∷ 10 ∷ 11 ∷ 12 ∷ 13 ∷ 14 ∷ 15 ∷ 16 ∷ []

abbrev gtid_event : Gtid.GtidLogEvent
gtid_event = record {
  event = event 42;
  commit_flag = 1;
  gtid_uuid = uuid;
  gtid_txn_id = 100;
  ts_type = 2;
  last_committed = 3;
  sequence_number = 4;
}

abbrev name : List ℕ
name = 97 ∷ 46 ∷ 49 ∷ []

abbrev rotate_event : Rotate.RotateEvent
rotate_event = record {
  event = event 11;
  next_binlog_position = 4;
  next_binlog_file_name = name;
  op = Rotate.init;
}

abbrev new_event : Rotate.RotateEvent
new_event = Rotate.new_rotate 1 1 4 name 1700000000 500 Rotate.init

new_rotate-IsValid_example :
    Rotate.IsValid new_event
    × (length (Rotate.flush_to_buff crc new_event) ≡ new_event.header.event_length)
    × (new_event.header.next_position ≡ 500 + length (Rotate.flush_to_buff crc new_event))
new_rotate-IsValid_example =
    Rotate.new_rotate-IsValid 1 1 4 name 1700000000 500 Rotate.init (omega arith) (omega arith)
      (omega arith) (omega arith) (omega arith) crc

abbrev front : List ℕ
front = 7 ∷ []

-- Two bytes behind another event's end, and a checksum that is not that of the event.
verify_event_checksum-stored_example :
    verify_event_checksum crc
      (front ++ (((flush_header (header 25) ++ (5 ∷ 6 ∷ [])) ++ int4store 99) ++ (8 ∷ [])))
      (length front)
      true
    ≡ some (99 == crc (flush_header (header 25) ++ (5 ∷ 6 ∷ [])) % 2 ^ 32)
verify_event_checksum-stored_example =
    verify_event_checksum-stored crc (header 25) (5 ∷ 6 ∷ []) front (8 ∷ []) 99 (omega arith) refl
      (omega arith) true

abbrev pub fresh : ℕ → List ℕ
fresh n = replicate n 170

pub fresh_sized : (n : ℕ) → length (fresh n) ≡ n
fresh_sized n = length-replicate {A = ℕ} n 170

abbrev begin : List ℕ
begin = 66 ∷ 69 ∷ 71 ∷ 73 ∷ 78 ∷ []

-- A status variable that begins with a NUL.
abbrev query_event : Query.QueryEvent
query_event = record {
  event = event (14 + 5 + 2 + 5);
  thread_id = 1;
  query_exec_time = 0;
  db_len = 2;
  error_code = 0;
  status_var_len = 5;
  status_vars = 0 ∷ 1 ∷ 2 ∷ 3 ∷ 4 ∷ [];
  dbname = 100 ∷ 98 ∷ [];
  sql_statment_len = 5;
  sql_statment = begin;
}

deserialize-flush_to_buff_query_example :
    Query.deserialize [] 1 (Query.flush_to_buff crc fresh query_event ++ (9 ∷ []))
    ≡ some (record query_event { status_vars = c_string (query_event.status_vars ++ []) })
unfolding get_checksum_len
deserialize-flush_to_buff_query_example =
    Query.deserialize-flush_to_buff_query crc fresh [] query_event (9 ∷ []) fresh_sized (record {
      event_fits = omega arith;
      thread_id_fits = omega arith;
      query_exec_time_fits = omega arith;
      error_code_fits = omega arith;
      status_vars_sized = refl;
      status_vars_fit = omega arith;
      dbname_sized = refl;
      dbname_fits = omega arith;
      dbname_text = (λ e. cc, (λ e. cc, tt));
      sql_statment_sized = refl;
    })

abbrev format_description : FormatDescription.FormatDescriptionEvent
format_description = FormatDescription.new_format_description 1 1 1700000000

format_description-IsValid : IsValid format_description
unfolding FormatDescription.new_format_description get_checksum_len
format_description-IsValid = record {
  header_fits = omega arith;
  has_room = omega arith;
  version_fits = omega arith;
  server_version_fits = omega arith;
  server_version_text = (λ e. cc, (λ e. cc, (λ e. cc, (λ e. cc, (λ e. cc, (λ e. cc, tt))))));
  timestamp_fits = omega arith;
  header_len_fits = omega arith;
  lens_counted = refl;
  lens_fit = omega arith;
  checksum_flag_fits = omega arith;
}

deserialize-flush_to_buff_format_description_example :
    FormatDescription.deserialize
      (FormatDescription.flush_to_buff crc format_description ++ (9 ∷ []))
    ≡ some format_description
deserialize-flush_to_buff_format_description_example =
    deserialize-flush_to_buff_format_description crc format_description (9 ∷ [])
      format_description-IsValid

abbrev gtid_set : GtidMessage
gtid_set = record { gtid_uuid = uuid; gtid_txn_id_intervals = 2; txn_range = (1, 5) ∷ (7, 9) ∷ [] }

abbrev previous_gtids : PreviousGtids.PreviousGtidsLogEvent
previous_gtids = record { event = event 64; gtid_uuid_num = 1; gtid_messages = gtid_set ∷ [] }

deserialize-flush_to_buff_previous_gtids_example :
    (bs : List ℕ) × (PreviousGtids.flush_to_buff crc previous_gtids ≡ some bs)
    × (PreviousGtids.deserialize 1 (bs ++ (9 ∷ [])) ≡ some previous_gtids)
unfolding get_checksum_len PreviousGtids.flush_messages PreviousGtids.flush_message
    PreviousGtids.flush_ranges int8store le_bytes
deserialize-flush_to_buff_previous_gtids_example =
    deserialize-flush_to_buff_previous_gtids crc previous_gtids (9 ∷ []) (record {
      event_fits = omega arith;
      counted = refl;
      count_fits = omega arith;
      messages_fit = (
        record {
          uuid_sized = refl;
          counted = refl;
          count_fits = omega arith;
          ranges_fit = omega arith;
        },
        tt,
      );
      messages_ascend = (tt, tt);
    })
