-- ===== src/Tests/Scans.antt =====
-- The scan of a file: the previous GTIDs, a GTID, the end of its transaction, and one event more.
use oblogproxy.Common.{
  ℕ, ◌+◌, ◌≡◌, refl, inl, List, [], ◌∷◌, ◌++◌, true, false, ◌||◌, some, if◌then◌else◌, arith,
  length,
}
use oblogproxy.Bytes.{
  int4load, load_le, load_bytes, int4store, le_bytes, int1store, int2store, int1load, int2load,
  int8load, le_value,
}
use oblogproxy.Event.Header.{OblogEventHeader}
use oblogproxy.Event.Header
use oblogproxy.Event.Checksum.{read_file, verify_event_checksum}
use oblogproxy.Event.Gtid
use oblogproxy.Event.Scan.{BinlogTrxOverview, Scanned, binlog_magic, seek_and_verify_complete_trx}
use oblogproxy.Event.Scan.Layout.{bytes, LaidOut}
use oblogproxy.Event.Scan.Trx.{Kind, Event, raws, overview_of, has_previous, Kinds}
use oblogproxy.Event.Scan.Last.{seek_and_verify_complete_trx-overview_of}
use oblogproxy.Tests.Events.{crc, fresh}

abbrev header : (type_code event_length next_position : ℕ) → OblogEventHeader
header type_code event_length next_position = record {
  timestamp = 1700000000;
  type_code = type_code;
  server_id = 1;
  event_length = event_length;
  next_position = next_position;
  flags = 0;
}

-- The transaction 100 of a server.
abbrev gtid_body : List ℕ
gtid_body =
    1 ∷ 1 ∷ 2 ∷ 3 ∷ 4 ∷ 5 ∷ 6 ∷ 7 ∷ 8 ∷ 9 ∷ 10 ∷ 11 ∷ 12 ∷ 13 ∷ 14 ∷ 15 ∷ 16 ∷ 100 ∷ 0 ∷ 0 ∷ 0 ∷ 0
    ∷ 0 ∷ 0 ∷ 0 ∷ 2 ∷ 3 ∷ 0 ∷ 0 ∷ 0 ∷ 0 ∷ 0 ∷ 0 ∷ 0 ∷ 4 ∷ 0 ∷ 0 ∷ 0 ∷ 0 ∷ 0 ∷ 0 ∷ 0 ∷ []

abbrev gtid_event : Gtid.GtidLogEvent
gtid_event = record {
  event = record { header = header 33 61 86; checksum_flag = 0 };
  commit_flag = 1;
  gtid_uuid = 1 ∷ 2 ∷ 3 ∷ 4 ∷ 5 ∷ 6 ∷ 7 ∷ 8 ∷ 9 ∷ 10 ∷ 11 ∷ 12 ∷ 13 ∷ 14 ∷ 15 ∷ 16 ∷ [];
  gtid_txn_id = 100;
  ts_type = 2;
  last_committed = 3;
  sequence_number = 4;
}

abbrev before : List Event
before =
    (Kind.previous, (header 35 21 25, 1 ∷ 2 ∷ []))
    ∷ (Kind.gtid 100, (header 33 61 86, gtid_body))
    ∷ []

abbrev ending : OblogEventHeader
ending = header 16 21 107

abbrev after : List Event
after = (Kind.passes, (header 4 19 126, [])) ∷ []

abbrev events : List Event
events = before ++ (Kind.ends, (ending, 3 ∷ 4 ∷ [])) ∷ after

laid_out : LaidOut 4 (raws events)
laid_out = (omega arith, refl, (omega arith, refl, (omega arith, refl, (omega arith, refl, tt))))

abbrev file : List ℕ
file = binlog_magic ++ bytes (raws events)

gtid_read :
    Gtid.deserialize 0 (Header.flush_header (header 33 61 86) ++ gtid_body) ≡ some gtid_event
unfolding Gtid.deserialize Header.deserialize_header int4load load_le load_bytes Header.flush_header
    int4store le_bytes int1store int2store int1load int2load int8load le_value
gtid_read = refl

gtid_there : read_file file 25 61 ≡ some (Header.flush_header (header 33 61 86) ++ gtid_body)
unfolding read_file Header.flush_header int4store le_bytes int1store int2store
gtid_there = refl

abbrev overview : BinlogTrxOverview
overview = record {
  has_previous_gtids_event = false;
  last_complete_trx_end_pos = 0;
  last_complete_trx_gtid = 0;
  trx_need_truncated_gtid = 0;
  trx_specify_truncated_gtid = 0;
  trx_specify_truncated_end_pos = 0;
}

kinds : Kinds [] 0 file 4 events
kinds = (
  refl,
  (
    (
      refl,
      Header.flush_header (header 33 61 86) ++ gtid_body,
      gtid_event,
      gtid_there,
      gtid_read,
      refl,
    ),
    (
      inl refl,
      (inl ((λ e. omega arith), (λ e. omega arith), (λ e. omega arith), (λ e. omega arith)), tt),
    ),
  ),
)

seek_and_verify_complete_trx-overview_of_example :
    seek_and_verify_complete_trx crc fresh [] 0 file 5 overview ≡ (
      Scanned.finished (overview_of overview events 107, 4 + length (bytes (raws before))),
      if false || has_previous events
          then verify_event_checksum crc file (4 + length (bytes (raws before))) true
          else some true,
    )
seek_and_verify_complete_trx-overview_of_example =
    seek_and_verify_complete_trx-overview_of crc fresh [] 0 before after Kind.ends ending
      (3 ∷ 4 ∷ []) 5 overview refl laid_out kinds tt ((λ c. c), tt) (omega arith)

-- The GTID of the transaction that ended is the one read, and none is open.
found : overview_of overview events 107 ≡ record {
  has_previous_gtids_event = true;
  last_complete_trx_end_pos = 107;
  last_complete_trx_gtid = 100;
  trx_need_truncated_gtid = 0;
  trx_specify_truncated_gtid = 0;
  trx_specify_truncated_end_pos = 0;
}
found = refl
