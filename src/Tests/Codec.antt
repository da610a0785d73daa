-- ===== src/Tests/Codec.antt =====
-- Integers in buffers, and ranges of transactions, at concrete inputs.
use oblogproxy.Common.{
  ℕ, ◌^◌, ◌<◌, ◌≤◌, ◌≡◌, ◌⊎◌, refl, List, [], ◌∷◌, ◌++◌, some, ◌||◌, length, arith,
}
use oblogproxy.Bytes.{le_bytes}
use oblogproxy.Lenenc.{write_lenenc_uint, get_lenenc_uint, packet_store_length, get_packed_integer}
use oblogproxy.Lenenc.Agreement.{
  get_lenenc_uint-write_lenenc_uint, get_lenenc_uint-packet_store_length,
  get_packed_integer-write_lenenc_uint,
}
use oblogproxy.GtidSet.Message.{GtidMessage, covers, merge_txn_range}
use oblogproxy.GtidSet.Merge.{SeparatedFrom, merge_txn_range-covers}

abbrev written : List ℕ
written = 253 ∷ 17 ∷ 1 ∷ 0 ∷ []

-- 70000 is read back as 273.
get_lenenc_uint-write_lenenc_uint_example :
    get_lenenc_uint (written ++ (9 ∷ [])) ≡ some (273, 9 ∷ [])
unfolding write_lenenc_uint le_bytes
get_lenenc_uint-write_lenenc_uint_example =
    get_lenenc_uint-write_lenenc_uint 9 70000 written (9 ∷ []) (omega arith) refl

get_lenenc_uint-packet_store_length_example :
    get_lenenc_uint (packet_store_length 70000 ++ (9 ∷ [])) ≡ some (70000, 9 ∷ [])
get_lenenc_uint-packet_store_length_example =
    get_lenenc_uint-packet_store_length 70000 (9 ∷ []) (omega arith)

-- 70000 takes four bytes, and three are predicted.
get_packed_integer-write_lenenc_uint_example :
    (length written ≡ get_packed_integer 70000)
    ⊎ ((2 ^ 16 ≤ 70000) × (70000 < 2 ^ 17) × (length written ≡ 4) × (get_packed_integer 70000 ≡ 3))
    ⊎ ((2 ^ 24 ≤ 70000) × (70000 < 2 ^ 25) × (length written ≡ 9) × (get_packed_integer 70000 ≡ 4))
unfolding write_lenenc_uint le_bytes
get_packed_integer-write_lenenc_uint_example =
    get_packed_integer-write_lenenc_uint 9 70000 written (omega arith) refl

abbrev left : GtidMessage
left = record { gtid_uuid = 1 ∷ []; gtid_txn_id_intervals = 1; txn_range = (1, 5) ∷ [] }

abbrev right : GtidMessage
right = record { gtid_uuid = 1 ∷ []; gtid_txn_id_intervals = 2; txn_range = (4, 8) ∷ (20, 30) ∷ [] }

merge_txn_range-covers_example :
    ((x : ℕ)
      → covers x (merge_txn_range left right).txn_range
        ≡ (covers x left.txn_range || covers x right.txn_range))
    × SeparatedFrom 0 (merge_txn_range left right).txn_range
merge_txn_range-covers_example = merge_txn_range-covers left right (omega arith) (omega arith)
