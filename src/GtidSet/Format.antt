-- ===== src/GtidSet/Format.antt =====
-- The text of a GTID set: `format_string` and `deserialize_gtid_set` of binlog/ob_log_event.cpp.
pub mod RoundTrip
use oblogproxy.Common.{
  ℕ, zero, suc, ◌+◌, List, [], ◌∷◌, ◌++◌, Bool, true, false, if◌then◌else◌, ◌==◌, Option, none,
  some,
}
use oblogproxy.Text.Split.{split}
use oblogproxy.Text.Decimal.{to_string, atoll}
use oblogproxy.GtidSet.Message.{TxnRange, GtidMessage, merge_txn_range}
use oblogproxy.GtidSet.Uuid.{uuid_hex_bin_to_str_with_delim, uuid_str_to_hex_bin}

unfoldable pub range_text : TxnRange → List ℕ
unfolding to_string
range_text (first, second) =
    if second == first then to_string first else to_string first ++ b'-' ∷ to_string second

abbrev pub ranges_text : List TxnRange → List ℕ
ranges_text [] = []
ranges_text (r ∷ rs) = b':' ∷ (range_text r ++ ranges_text rs)

unfoldable pub format_string : GtidMessage → List ℕ
unfolding uuid_hex_bin_to_str_with_delim range_text
format_string m = uuid_hex_bin_to_str_with_delim m.gtid_uuid ++ ranges_text m.txn_range

-- One part is both ends of its range, two are its ends.
abbrev pub range_of_parts : List (List ℕ) → Option TxnRange
range_of_parts (one ∷ []) = some (atoll one, atoll one)
range_of_parts (first ∷ second ∷ []) = some (atoll first, atoll second)
range_of_parts _ = none

abbrev pub with_range : Option TxnRange → Option (List TxnRange) → Option (List TxnRange)
with_range none ranges = none
with_range (some range) none = none
with_range (some range) (some ranges) = some (range ∷ ranges)

unfoldable pub ranges_of : List (List ℕ) → Option (List TxnRange)
unfolding split
ranges_of [] = some []
ranges_of (part ∷ parts) = with_range (range_of_parts (split part b'-' false)) (ranges_of parts)

-- The object with a UUID and more ranges, merged with itself.
abbrev pub with_ranges : GtidMessage → Option (List ℕ) → Option (List TxnRange) → Option GtidMessage
with_ranges old none ranges = none
with_ranges old (some uuid) none = none
with_ranges old (some uuid) (some ranges) =
    let m = record old { gtid_uuid = uuid; txn_range = old.txn_range ++ ranges } in
    some (merge_txn_range m m)

abbrev pub of_gtid_parts : GtidMessage → List (List ℕ) → Option GtidMessage
of_gtid_parts old [] = none
of_gtid_parts old (uuid ∷ []) = none
of_gtid_parts old (uuid ∷ part ∷ parts) =
    with_ranges old (uuid_str_to_hex_bin uuid) (ranges_of (part ∷ parts))

-- `none` is OMS_FAILED.
unfoldable pub deserialize_gtid_set : GtidMessage → List ℕ → Option GtidMessage
unfolding split uuid_str_to_hex_bin ranges_of merge_txn_range
deserialize_gtid_set old gtid_set = of_gtid_parts old (split gtid_set b':' false)
