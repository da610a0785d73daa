-- ===== src/DataType/Numbers.antt =====
-- binlog/data_type.cpp: integers, bits and years, and the length of a fraction.
use oblogproxy.Common.{
  ℕ, zero, suc, ◌+◌, ◌-◌, ◌*◌, ◌/◌, ◌%◌, ◌^◌, List, [], ◌∷◌, ◌&&◌, if◌then◌else◌, ltb, leb, ◌==◌,
  Option, none, some, length,
}
use oblogproxy.Bytes.{int1store, int_variable_store}
use oblogproxy.Event.Memory.{c_string}
use oblogproxy.Text.Decimal.{atoll, scan_sign, skip_space}
use oblogproxy.DataType.{ColMeta, ◌>>=◌}
use oblogproxy.DataType.Int.{ℤ, pos, pos_part, neg_part, ◌-ℤ◌}

-- `std::stoull`: a minus takes the negative modulo 2 ^ 64; `none` is the exception.
unfoldable pub stoull : List ℕ → Option ℕ
unfolding scan_sign skip_space
stoull s =
    let r = scan_sign (skip_space s) in
    if r.found && ltb r.magnitude (2 ^ 64)
    then some (if r.negative then (2 ^ 64 - r.magnitude) % 2 ^ 64 else r.magnitude)
    else none

-- The 32 bits of the `int` that `atoi` gives, and what they are as an unsigned 64-bit number.
unfoldable pub atoi : List ℕ → ℕ
unfolding atoll
atoi s = atoll s % 2 ^ 32

abbrev pub widened : ℕ → ℕ
widened v = if ltb v (2 ^ 31) then v else v + 2 ^ 64 - 2 ^ 32

-- The bytes that are written. 7 is no width of `int_two_complement`, nor of `int_variable_store`.
unfoldable pub int_two_complement : ℕ → List ℕ → Option (List ℕ)
unfolding stoull c_string
int_two_complement len text = do num ← stoull (c_string text); some (int_variable_store num len)

unfoldable pub convert_binlog_tiny : List ℕ → Option (List ℕ)
convert_binlog_tiny text = int_two_complement 1 text

unfoldable pub convert_binlog_short : List ℕ → Option (List ℕ)
convert_binlog_short text = int_two_complement 2 text

unfoldable pub convert_binlog_int24 : List ℕ → Option (List ℕ)
convert_binlog_int24 text = int_two_complement 3 text

unfoldable pub convert_binlog_long : List ℕ → Option (List ℕ)
convert_binlog_long text = int_two_complement 4 text

unfoldable pub convert_binlog_longlong : List ℕ → Option (List ℕ)
convert_binlog_longlong text = int_two_complement 8 text

-- The low `len` bytes, from the upper one down; `none` is the exception of `substr`.
unfoldable pub binary_to_hex : List ℕ → ℕ → Option (List ℕ)
unfolding stoull
binary_to_hex binary len = do
  real ← stoull binary
  if leb len 8 then some (from_upper len real) else none
  where
    from_upper : ℕ → ℕ → List ℕ
    from_upper zero v = []
    from_upper (suc n) v = v / 256 ^ n % 256 ∷ from_upper n v

unfoldable pub convert_binlog_bit : ColMeta → List ℕ → Option (List ℕ)
unfolding binary_to_hex c_string
convert_binlog_bit m text =
    let col_len = if m.precision == 0 then length text else m.precision in
    binary_to_hex (c_string text) ((col_len + 7) / 8)

unfoldable pub convert_binlog_year : List ℕ → Option (List ℕ)
unfolding atoi c_string int1store
convert_binlog_year text =
    let real_year = widened (atoi (c_string text)) in
    if leb real_year 2155
    then some (int1store (if real_year == 0 then 0 else real_year + 2 ^ 64 - 1900))
    else none

-- `get_number_len` takes the decimal logarithm; this counts the digits, of 20 at most.
unfoldable pub count_digits : ℕ → ℕ → ℕ
count_digits zero n = 1
count_digits (suc fuel) n =
    let more = suc (count_digits fuel (n / 10)) in if ltb n 10 then 1 else more

unfoldable pub get_number_len : ℕ → ℕ
unfolding count_digits
get_number_len n = count_digits 20 n

-- The loops of `cutout_or_pad_zero`, with the rounds that are left.
unfoldable pub padded : ℕ → ℕ → ℕ
padded zero number = number
padded (suc rounds) number = padded rounds (number * 10 % 2 ^ 64)

unfoldable pub cut_out : ℕ → ℕ → ℕ
cut_out zero number = number
cut_out (suc rounds) number = cut_out rounds (number / 10)

unfoldable pub cutout_or_pad_zero : ℕ → ℤ → ℕ
unfolding padded cut_out
cutout_or_pad_zero number target_length =
    let missing = target_length -ℤ pos (get_number_len number) in
    padded (pos_part missing) (cut_out (neg_part missing) number)
