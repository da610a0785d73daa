-- ===== src/Event/PreviousGtids.antt =====
-- PreviousGtidsLogEvent; what is proved of it is in RoundTrip. Its `std::map` from the UUID in hexadecimal is the list of the messages in
-- the order of their UUIDs, which is the order of the keys.
pub mod RoundTrip
use oblogproxy.Common.{
  length, some, none, ℕ, zero, suc, ◌+◌, ◌-◌, ◌%◌, ◌^◌, ◌<◌, ◌≤◌, ◌≡◌, ◌∙◌, refl, List, [], ◌∷◌,
  ◌++◌, Option, Bool, true, false, if◌then◌else◌, ltb, ◌==◌, arith, append_assoc, length-append,
  All,
}
use oblogproxy.Bytes.{Read, ◌>>=◌, pure, run, load_bytes, int8store, int8load}
use oblogproxy.Bytes.RoundTrip.{load_bytes-append, int8load-int8store, length-int8store}
use oblogproxy.GtidSet.Message.{GtidMessage, TxnRange}
use oblogproxy.Event.Header.{
  OblogEventHeader, flush_header, deserialize_header, common_header_length,
  previous_gtids_log_event,
}
use oblogproxy.Event.Checksum.{ObLogEvent, write_checksum, get_checksum_len}
use oblogproxy.Event.Framing.{IsEvent, run_framed}
use oblogproxy.Event.Gtid.{server_uuid_len}

pub record PreviousGtidsLogEvent : Type 0 where
  pub event : ObLogEvent
  pub open event use *
  pub gtid_uuid_num : ℕ
  pub gtid_messages : List GtidMessage

-- The order of two keys.
pub data Order : Type 0 where
  before same after : Order

unfoldable pub uuid_order : List ℕ → List ℕ → Order
uuid_order [] [] = same
uuid_order [] (b ∷ bs) = before
uuid_order (a ∷ rest_a) [] = after
uuid_order (a ∷ rest_a) (b ∷ bs) =
    let rest = uuid_order rest_a bs in if ltb a b then before else if ltb b a then after else rest

-- `emplace` keeps a message that is there already under the key.
pub emplace : GtidMessage → List GtidMessage → List GtidMessage
emplace m [] = m ∷ []
emplace m (k ∷ ks) =
    let further = emplace m ks in
    elim (uuid_order m.gtid_uuid k.gtid_uuid) [
      | before ↦ m ∷ k ∷ ks
      | same ↦ k ∷ ks
      | after ↦ k ∷ further
    ]

-- `set_gtid_messages` adds to the messages that are there.
pub set_gtid_messages : List GtidMessage → List GtidMessage → List GtidMessage
unfolding emplace
set_gtid_messages gtid_messages [] = gtid_messages
set_gtid_messages gtid_messages (m ∷ ms) = set_gtid_messages (emplace m gtid_messages) ms

-- Ranges are stored closed on the left and open on the right.
unfoldable pub flush_ranges : List TxnRange → List ℕ
flush_ranges [] = []
flush_ranges ((first, second) ∷ rs) = int8store first ++ (int8store (second + 1) ++ flush_ranges rs)

unfoldable pub flush_message : GtidMessage → List ℕ
unfolding flush_ranges
flush_message m = m.gtid_uuid ++ (int8store m.gtid_txn_id_intervals ++ flush_ranges m.txn_range)

unfoldable pub flush_messages : List GtidMessage → List ℕ
flush_messages [] = []
flush_messages (m ∷ ms) = flush_message m ++ flush_messages ms

abbrev pub body : PreviousGtidsLogEvent → List ℕ
body e = int8store e.gtid_uuid_num ++ flush_messages e.gtid_messages

-- `none` is a failed assert: the number of UUIDs is that of the messages. A UUID is its 16 bytes.
pub flush_to_buff : (List ℕ → ℕ) → PreviousGtidsLogEvent → Option (List ℕ)
unfolding flush_messages
flush_to_buff crc32 e =
    if e.gtid_uuid_num == length e.gtid_messages
    then some (write_checksum crc32 e.checksum_flag (flush_header e.header ++ body e))
    else none

pub read_range : Read TxnRange
read_range = do
  txn_start ← int8load
  txn_end ← int8load
  pure (txn_start, (if txn_start == txn_end then txn_end else (txn_end + 2 ^ 64 - 1) % 2 ^ 64))

pub read_ranges : ℕ → Read (List TxnRange)
unfolding read_range
read_ranges zero = pure []
read_ranges (suc n) = do r ← read_range; rs ← read_ranges n; pure (r ∷ rs)

pub read_message : Read GtidMessage
unfolding read_ranges
read_message = do
  uuid ← load_bytes server_uuid_len
  intervals ← int8load
  ranges ← read_ranges intervals
  pure (record { gtid_uuid = uuid; gtid_txn_id_intervals = intervals; txn_range = ranges })

pub read_messages : ℕ → Read (List GtidMessage)
read_messages zero = pure []
read_messages (suc n) = do m ← read_message; ms ← read_messages n; pure (m ∷ ms)

pub read_body : ℕ → OblogEventHeader → Read PreviousGtidsLogEvent
unfolding read_messages set_gtid_messages
read_body flag header = do
  gtid_uuid_num ← int8load
  gtid_messages ← read_messages gtid_uuid_num
  pure (record {
    event = record { header = header; checksum_flag = flag };
    gtid_uuid_num = gtid_uuid_num;
    gtid_messages = set_gtid_messages [] gtid_messages;
  })

pub deserialize : ℕ → List ℕ → Option PreviousGtidsLogEvent
unfolding read_body
deserialize flag = run (deserialize_header >>= read_body flag)
