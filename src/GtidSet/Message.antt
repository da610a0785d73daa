-- ===== src/GtidSet/Message.antt =====
-- GtidMessage and the merging of its ranges. A range holds its two ends.
use Prim.Native.Nat.{max}
use oblogproxy.Common.{
  ℕ, ◌+◌, ◌*◌, ◌%◌, ◌^◌, Bool, false, ◌&&◌, ◌||◌, List, [], ◌∷◌, ◌++◌, if◌then◌else◌, leb, ◌==◌,
  length,
}

abbrev pub TxnRange : Type 0
TxnRange = ℕ × ℕ

pub record GtidMessage : Type 0 where
  pub gtid_uuid : List ℕ
  pub gtid_txn_id_intervals : ℕ
  pub txn_range : List TxnRange

pub get_gtid_length : GtidMessage → ℕ
get_gtid_length m = 16 + 8 + length m.txn_range * 16

-- The loop of `merge_txn_range`: `start` and `end` are its variables, and 0 for `start` says that
-- no range is open. `end + 1` is that of a `uint64_t`.
unfoldable pub merge_loop : List TxnRange → ℕ → ℕ → List TxnRange
merge_loop [] start end = if start == 0 then [] else (start, end) ∷ []
merge_loop ((first, second) ∷ ranges) start end =
    let open_first = merge_loop ranges first second in
    let extended = merge_loop ranges start (max end second) in
    if start == 0
    then open_first
    else if leb first ((end + 1) % 2 ^ 64)
    then extended
    else (start, end) ∷ open_first

-- The ranges that `target` has afterwards; its other fields stay.
unfoldable pub merge_txn_range : GtidMessage → GtidMessage → GtidMessage
unfolding merge_loop
merge_txn_range message target = record target {
  txn_range = merge_loop (message.txn_range ++ target.txn_range) 0 0;
}

-- Is a transaction in one of the ranges?
abbrev pub covers : ℕ → List TxnRange → Bool
covers x [] = false
covers x ((first, second) ∷ ranges) = (leb first x && leb x second) || covers x ranges
