-- ===== src/Lenenc.antt =====
-- Length-encoded integers, which the program implements more than once: `packet_store_length` of
-- codec/byte_decoder.h, `write_lenenc_uint`, `get_lenenc_uint` and `get_packed_integer` of
-- obaccess/ob_mysql_packet.cpp.
pub mod Agreement
use oblogproxy.Common.{
  ℕ, zero, suc, ◌+◌, ◌-◌, ◌*◌, ◌/◌, ◌%◌, ◌^◌, List, [], ◌∷◌, ◌++◌, Option, none, some, Bool, true,
  false, ltb, leb, ◌==◌, if◌then◌else◌, drop,
}
use oblogproxy.Bytes.{
  Read, ◌>>=◌, pure, ◌>>◌, skip, le_bytes, int2store, int3store, int8store, int1load, load_le,
}

unfoldable pub packet_store_length : ℕ → List ℕ
packet_store_length length =
    if ltb length 251
    then length ∷ []
    else if ltb length 65536
    then 252 ∷ int2store length
    else if ltb length 16777216
    then 253 ∷ int3store length
    else 254 ∷ int8store length

abbrev pub ullong_max : ℕ
ullong_max = 2 ^ 64 - 1

-- `none` is `OMS_FAILED`, too small a buffer. In the third case the source copies
-- `(char*)&num + 1`, the three upper bytes of the four.
unfoldable pub write_lenenc_uint : ℕ → ℕ → Option (List ℕ)
write_lenenc_uint capacity integer =
    if ltb integer 251
    then (if leb 1 capacity then some (integer ∷ []) else none)
    else if ltb integer (2 ^ 16)
    then (if leb 3 capacity then some (0xfc ∷ le_bytes 2 integer) else none)
    else if ltb integer (2 ^ 24)
    then (if leb 4 capacity then some (0xfd ∷ drop 1 (le_bytes 4 integer)) else none)
    else if ltb integer ullong_max
    then (if leb 9 capacity then some (0xfe ∷ le_bytes 8 integer) else none)
    else if integer == ullong_max
    then (if leb 1 capacity then some (0xfb ∷ []) else none)
    else none

-- The last case reads four of the eight bytes and moves past all of them.
unfoldable pub get_lenenc_wide : Read ℕ
get_lenenc_wide = do v ← load_le 4; skip 4; pure v

unfoldable pub after_first : ℕ → Read ℕ
unfolding get_lenenc_wide
after_first num s =
    if ltb num 251
    then some (num, s)
    else if num == 251
    then some (ullong_max, s)
    else if num == 252
    then load_le 2 s
    else if num == 253
    then load_le 3 s
    else get_lenenc_wide s

unfoldable pub get_lenenc_uint : Read ℕ
get_lenenc_uint = do num ← int1load; after_first num

unfoldable pub get_packed_integer : ℕ → ℕ
get_packed_integer val =
    if ltb val 251
    then 1
    else if ltb val (2 * 2 ^ 16)
    then 3
    else if ltb val (2 * 2 ^ 24)
    then 4
    else 9
