-- ===== src/Event/Gtid.antt =====
-- GtidLogEvent. The UUID is its 16 bytes.
use oblogproxy.Common.{
  ℕ, ◌^◌, ◌<◌, ◌≡◌, ◌∙◌, List, ◌++◌, Option, some, length, append_assoc, length-append,
}
use oblogproxy.Bytes.{Read, ◌>>=◌, pure, run, load_bytes, int1store, int8store, int1load, int8load}
use oblogproxy.Bytes.RoundTrip.{
  load_bytes-append, int1load-int1store, int8load-int8store, store_lengths,
}
use oblogproxy.Event.Header.{OblogEventHeader, flush_header, deserialize_header}
use oblogproxy.Event.Checksum.{ObLogEvent, write_checksum}
use oblogproxy.Event.Framing.{IsEvent, run_framed}

abbrev pub server_uuid_len : ℕ
server_uuid_len = 16

pub record GtidLogEvent : Type 0 where
  pub event : ObLogEvent
  pub open event use *
  pub commit_flag : ℕ
  pub gtid_uuid : List ℕ
  pub gtid_txn_id : ℕ
  pub ts_type : ℕ
  pub last_committed : ℕ
  pub sequence_number : ℕ

abbrev body : GtidLogEvent → List ℕ
body e =
    int1store e.commit_flag
    ++ (e.gtid_uuid
        ++ (int8store e.gtid_txn_id
            ++ (int1store e.ts_type
                ++ (int8store e.last_committed ++ int8store e.sequence_number))))

pub flush_to_buff : (List ℕ → ℕ) → GtidLogEvent → List ℕ
flush_to_buff crc32 e = write_checksum crc32 e.checksum_flag (flush_header e.header ++ body e)

unfoldable read_body : ℕ → OblogEventHeader → Read GtidLogEvent
read_body flag header = do
  commit_flag ← int1load
  gtid_uuid ← load_bytes server_uuid_len
  gtid_txn_id ← int8load
  ts_type ← int1load
  last_committed ← int8load
  sequence_number ← int8load
  pure (record {
    event = record { header = header; checksum_flag = flag };
    commit_flag = commit_flag;
    gtid_uuid = gtid_uuid;
    gtid_txn_id = gtid_txn_id;
    ts_type = ts_type;
    last_committed = last_committed;
    sequence_number = sequence_number;
  })

unfoldable pub deserialize : ℕ → List ℕ → Option GtidLogEvent
unfolding read_body
deserialize flag = run (deserialize_header >>= read_body flag)

pub record IsValid (e : GtidLogEvent) : Type 0 where
  pub event_fits : IsEvent e.event 42
  pub commit_flag_fits : e.commit_flag < 2 ^ 8
  pub uuid_sized : length e.gtid_uuid ≡ server_uuid_len
  pub gtid_txn_id_fits : e.gtid_txn_id < 2 ^ 64
  pub ts_type_fits : e.ts_type < 2 ^ 8
  pub last_committed_fits : e.last_committed < 2 ^ 64
  pub sequence_number_fits : e.sequence_number < 2 ^ 64

length-body : (e : GtidLogEvent) → IsValid e → length (body e) ≡ 42
length-body e v = simp (length-append, store_lengths, v.uuid_sized)

-- An event in range whose length is set right is read back from what `flush_to_buff` wrote,
-- whatever follows it in the buffer.
pub deserialize-flush_to_buff_gtid :
    (crc32 : List ℕ → ℕ) (e : GtidLogEvent) (rest : List ℕ)
    → IsValid e
    → deserialize e.checksum_flag (flush_to_buff crc32 e ++ rest) ≡ some e
unfolding deserialize flush_to_buff
deserialize-flush_to_buff_gtid crc32 e rest v =
    run_framed crc32 e.event (body e) rest _ (rw (length-body e v) v.event_fits)
    ∙ simp append_assoc (
        rw (
          int1load-int1store e.commit_flag _ v.commit_flag_fits,
          run,
          ◌>>=◌,
          load_bytes-append server_uuid_len e.gtid_uuid _ v.uuid_sized,
          ◌>>=◌,
          int8load-int8store e.gtid_txn_id _ v.gtid_txn_id_fits,
          ◌>>=◌,
          int1load-int1store e.ts_type _ v.ts_type_fits,
          ◌>>=◌,
          int8load-int8store e.last_committed _ v.last_committed_fits,
          ◌>>=◌,
          int8load-int8store e.sequence_number _ v.sequence_number_fits,
        ))
