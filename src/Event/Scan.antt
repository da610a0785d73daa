-- ===== src/Event/Scan.antt =====
-- `seek_and_verify_complete_trx`: the scan of a binlog file for its last complete transaction.
-- `flag` is the checksum flag of a new event, `heap` what stands behind a buffer, and `fresh` what
-- new memory holds.
pub mod Layout
pub mod Verified
pub mod Trx
pub mod Last
pub mod Bounds
use oblogproxy.Common.{
  ℕ, zero, suc, ◌+◌, ◌<◌, List, [], ◌∷◌, ◌++◌, Option, none, some, Bool, true, false, not, ◌&&◌,
  ◌||◌, if◌then◌else◌, ltb, ◌==◌, length, take, drop,
}
use oblogproxy.Event.Header.{
  OblogEventHeader, deserialize_header, common_header_length, previous_gtids_log_event,
  gtid_log_event, xid_event, query_event,
}
use oblogproxy.Event.Checksum.{read_file, verify_event_checksum}
use oblogproxy.Event.Memory.{c_string}
use oblogproxy.Event.Gtid
use oblogproxy.Event.Query

pub record BinlogTrxOverview : Type 0 where
  pub has_previous_gtids_event : Bool
  pub last_complete_trx_end_pos : ℕ
  pub last_complete_trx_gtid : ℕ
  pub trx_need_truncated_gtid : ℕ
  pub trx_specify_truncated_gtid : ℕ
  pub trx_specify_truncated_end_pos : ℕ

-- The overview, and `last_event_start_pos_in_complete_trx`.
abbrev pub State : Type 0
State = BinlogTrxOverview × ℕ

abbrev pub binlog_magic : List ℕ
binlog_magic = 254 ∷ 98 ∷ 105 ∷ 110 ∷ []

abbrev pub begin_var : List ℕ
begin_var = b'B' ∷ b'E' ∷ b'G' ∷ b'I' ∷ b'N' ∷ []

-- `memcmp` or `strcmp` that gives 0.
abbrev pub same_bytes : List ℕ → List ℕ → Bool
same_bytes [] [] = true
same_bytes [] (b ∷ bs) = false
same_bytes (a ∷ rest) [] = false
same_bytes (a ∷ rest) (b ∷ bs) = (a == b) && same_bytes rest bs

-- How a loop over a file ends; `crashed` is a read outside a buffer or a failed assert, and
-- `unfinished` a loop cut off by its fuel.
pub data Scanned (S : Type 0) : Type 0 where
  finished : S → Scanned S
  crashed : Scanned S
  unfinished : Scanned S

-- At the end of a transaction.
abbrev pub complete : OblogEventHeader → ℕ → State → State
complete header cur_pos (trx, start) = (
  record trx {
    last_complete_trx_gtid = trx.trx_need_truncated_gtid;
    trx_need_truncated_gtid = 0;
    last_complete_trx_end_pos = header.next_position;
    trx_specify_truncated_end_pos =
        if trx.trx_need_truncated_gtid == trx.trx_specify_truncated_gtid
        then header.next_position
        else trx.trx_specify_truncated_end_pos;
  },
  cur_pos,
)

abbrev pub at_previous_gtids : OblogEventHeader → ℕ → State → State
at_previous_gtids header cur_pos (trx, start) = (
  record trx { has_previous_gtids_event = true; last_complete_trx_end_pos = header.next_position },
  cur_pos,
)

module _ (heap : List ℕ) (flag : ℕ) (file : List ℕ) where
  -- An event that cannot be read whole is passed over.
  unfoldable pub at_gtid : OblogEventHeader → ℕ → State → Option State
  at_gtid header cur_pos (trx, start) = elim (read_file file cur_pos header.event_length) [
    | none ↦ some (trx, start)
    | some buffer ↦ elim (Gtid.deserialize flag buffer) [
      | none ↦ none
      | some e ↦ some (record trx { trx_need_truncated_gtid = e.gtid_txn_id }, start)
    ]
  ]

  unfoldable pub at_query : OblogEventHeader → ℕ → State → Option State
  at_query header cur_pos s = elim (read_file file cur_pos header.event_length) [
    | none ↦ some s
    | some buffer ↦ elim (Query.deserialize heap flag buffer) [
      | none ↦ none
      | some e ↦
          some (
            if same_bytes (c_string e.sql_statment) begin_var then s else complete header cur_pos s)
    ]
  ]

  -- The `switch` on the type of an event.
  unfoldable pub at_event : OblogEventHeader → ℕ → State → Option State
  unfolding at_gtid at_query
  at_event header cur_pos s =
      if header.type_code == previous_gtids_log_event
      then some (at_previous_gtids header cur_pos s)
      else if header.type_code == gtid_log_event
      then at_gtid header cur_pos s
      else if header.type_code == xid_event
      then some (complete header cur_pos s)
      else if header.type_code == query_event
      then at_query header cur_pos s
      else some s

  -- The loop, on fuel: a header that cannot be read ends it.
  unfoldable pub scan_trx : ℕ → ℕ → State → Scanned State
  scan_trx zero cur_pos s = unfinished
  scan_trx (suc n) cur_pos s =
      if not (ltb cur_pos (length file))
      then finished s
      else elim (read_file file cur_pos common_header_length) [
        | none ↦ finished s
        | some header_buff ↦ elim (deserialize_header header_buff) [
          | none ↦ crashed
          | some (header, rest) ↦ elim (at_event header cur_pos s) [
            | none ↦ crashed
            | some s' ↦ scan_trx n header.next_position s'
          ]
        ]
      ]

module _ (crc32 : List ℕ → ℕ) (fresh : ℕ → List ℕ) (heap : List ℕ) (flag : ℕ) (file : List ℕ) where
  abbrev pub magic_read : List ℕ
  magic_read = take 4 file ++ drop (length file) (fresh 4)

  -- The state at the end, and the result: `none` for a crash or a read outside a buffer, `some false`
  -- for OMS_FAILED.
  abbrev pub verified : Scanned State → Scanned State × Option Bool
  verified (finished (trx, start)) = (
    finished (trx, start),
    if trx.has_previous_gtids_event then verify_event_checksum crc32 file start true else some true,
  )
  verified crashed = (crashed, none)
  verified unfinished = (unfinished, none)

  unfoldable pub seek_and_verify_complete_trx : ℕ → BinlogTrxOverview → Scanned State × Option Bool
  unfolding scan_trx
  seek_and_verify_complete_trx fuel trx =
      if same_bytes magic_read binlog_magic
      then verified (scan_trx heap flag file fuel 4 (trx, 0))
      else (finished (trx, 0), some true)
