-- ===== src/DataType/Dates.antt =====
-- binlog/data_type.cpp: dates and times, from the text that obcdc gives to the packed values of a row
-- event.
use oblogproxy.Common.{
  ℕ, ◌+◌, ◌-◌, ◌*◌, ◌%◌, ◌^◌, List, [], ◌∷◌, ◌++◌, Bool, true, false, ◌||◌, if◌then◌else◌, leb,
  ◌==◌, Option, none, some, length,
}
use Prim.Native.Nat.{bit_or}
use oblogproxy.Bytes.{int1store, int3store, be_int2store, be_int3store, be_int4store, be_int5store}
use oblogproxy.Event.Memory.{c_string}
use oblogproxy.Text.Split.{split}
use oblogproxy.Text.Decimal.{atoll}
use oblogproxy.DataType.{ColMeta, ◌>>=◌, buffer_len, in_buffer, codes}
use oblogproxy.DataType.Int.{ℤ, pos, ◌-ℤ◌}
use oblogproxy.DataType.Numbers.{atoi, widened, get_number_len, cutout_or_pad_zero}
use oblogproxy.DataType.Texts.{memcmp_eq}

-- The numbers are the 32 bits of an `int`, and `negative` is a sign of -1.
pub record IDate : Type 0 where
  pub year : ℕ
  pub month : ℕ
  pub day : ℕ
  pub hour : ℕ
  pub minute : ℕ
  pub second : ℕ
  pub mill_second : ℕ
  pub negative : Bool
  pub prefix_zero_num : ℤ

abbrev pub no_date : IDate
no_date = record {
  year = 0;
  month = 0;
  day = 0;
  hour = 0;
  minute = 0;
  second = 0;
  mill_second = 0;
  negative = false;
  prefix_zero_num = pos 0;
}

-- `none` is a failed assert.
abbrev pub of_ymd : IDate → List (List ℕ) → Option IDate
of_ymd date (y ∷ m ∷ d ∷ []) = some (record date { year = atoi y; month = atoi m; day = atoi d })
of_ymd date parts = none

unfoldable pub str_2_yyyymmdd : List ℕ → IDate → Option IDate
str_2_yyyymmdd str date = of_ymd date (split str b'-' false)

abbrev pub of_hms : IDate → List (List ℕ) → Option IDate
of_hms date (h ∷ m ∷ s ∷ []) =
    some (record date { hour = atoi h; minute = atoi m; second = atoi s })
of_hms date parts = none

abbrev pub with_fraction : List ℕ → IDate → IDate
with_fraction text date =
    let us = atoi text in
    record date {
      mill_second = us;
      prefix_zero_num = pos (length text) -ℤ pos (get_number_len (widened us));
    }

-- The parts at the point: the time of day, and one more part is its fraction.
abbrev pub of_points : IDate → List (List ℕ) → Option IDate
of_points date [] = none
of_points date (part ∷ []) = of_hms date (split part b':' false)
of_points date (part ∷ text ∷ []) =
    of_hms date (split part b':' false) >>= λ d. some (with_fraction text d)
of_points date (part ∷ text ∷ more) = of_hms date (split part b':' false)

unfoldable pub str_2_hhmmss : List ℕ → IDate → Option IDate
str_2_hhmmss str date = if length str == 0 then some date else of_points date (split str b'.' false)

unfoldable pub contains : ℕ → List ℕ → Bool
contains b [] = false
contains b (c ∷ s) = (c == b) || contains b s

-- The parts at the blank: a date and a time of day, or a text that is one of them.
unfoldable pub of_parts : IDate → List ℕ → List (List ℕ) → Option IDate
of_parts date str (ymd ∷ hms ∷ []) = str_2_yyyymmdd ymd date >>= str_2_hhmmss hms
of_parts date str parts =
    if contains b'-' str
    then str_2_yyyymmdd str date
    else if contains b':' str
    then str_2_hhmmss str date
    else some date

unfoldable pub str_2_idate : List ℕ → Option IDate
str_2_idate [] = some no_date
str_2_idate (c ∷ str) =
    if c == b'-'
    then of_parts (record no_date { negative = true }) str (split str b' ' false)
    else of_parts no_date (c ∷ str) (split (c ∷ str) b' ' false)

abbrev pub days : IDate → ℕ
days d = (d.day + d.month * 32 + d.year * 16 * 32) % 2 ^ 32

unfoldable pub convert_binlog_date : List ℕ → Option (List ℕ)
convert_binlog_date text = str_2_idate text >>= λ d. some (int3store (days d))

-- The bytes of a fraction: one for a precision up to 2, two up to 4, and three up to 6.
abbrev pub fraction : ℕ → ℕ → ℤ → List ℕ
fraction precision us prefix =
    if precision == 0
    then []
    else if leb precision 2
    then int1store (cutout_or_pad_zero us (pos 2 -ℤ prefix))
    else if leb precision 4
    then be_int2store (cutout_or_pad_zero us (pos 4 -ℤ prefix))
    else if leb precision 6
    then be_int3store (cutout_or_pad_zero us (pos 6 -ℤ prefix))
    else []

-- `time << k | v` on 64 bits.
abbrev pub shift_or : ℕ → ℕ → ℕ → ℕ
shift_or time k v = bit_or (time * 2 ^ k % 2 ^ 64) v

-- The fields packed from the sign, which is all ones for -1, down to the second.
unfoldable pub packed_datetime : IDate → ℕ
packed_datetime d =
    let sign = if d.negative then 2 ^ 64 - 1 else 0 in
    let months = widened ((d.year * 13 + d.month) % 2 ^ 32) in
    let date = bit_or (shift_or sign 17 months * 2 ^ 5 % 2 ^ 64) (widened d.day) in
    let hours = shift_or date 5 (widened d.hour) in
    shift_or (shift_or hours 6 (widened d.minute)) 6 (widened d.second)

abbrev pub time_zero_three : ℕ
time_zero_three = 0x800000

abbrev pub time_zero_five : ℕ
time_zero_five = 0x8000000000

-- An odd precision has its fraction multiplied by ten.
unfoldable pub convert_binlog_datetime : (ℕ → List ℕ) → ColMeta → List ℕ → Option (List ℕ)
unfolding buffer_len
convert_binlog_datetime fresh m text = do
  d ← str_2_idate text
  n ← buffer_len 5 m.scale
  in_buffer fresh
      (be_int5store ((packed_datetime d + time_zero_five) % 2 ^ 64)
        ++ fraction m.scale
            (widened (if m.scale % 2 == 0 then d.mill_second else d.mill_second * 10 % 2 ^ 32))
            d.prefix_zero_num)
      n

-- Hours, minutes and seconds as a number, where none of them is negative; a month says that the day is
-- not one more number of hours.
abbrev pub packed_time : IDate → ℕ
packed_time d =
    bit_or
      (bit_or (((if d.month == 0 then d.day * 24 else 0) + d.hour) * 2 ^ 12) (d.minute * 2 ^ 6))
      d.second

-- A negative time counts down from zero, and its fraction too.
unfoldable pub convert_binlog_time : (ℕ → List ℕ) → ColMeta → List ℕ → Option (List ℕ)
unfolding buffer_len
convert_binlog_time fresh m text = do
  d ← str_2_idate (c_string text)
  n ← buffer_len 3 m.scale
  in_buffer fresh (be_int3store ((time_zero_three + signed d) % 2 ^ 64) ++ signed_fraction d) n
  where
    signed : IDate → ℕ
    signed d =
        if d.negative
        then (if d.mill_second == 0 then 2 ^ 64 - packed_time d else 2 ^ 64 - (packed_time d + 1))
        else packed_time d

    up_to : Bool → ℕ → ℕ
    up_to negative v = if negative then (2 ^ 64 - v) % 2 ^ 64 else v

    signed_fraction : IDate → List ℕ
    signed_fraction d =
        if m.scale == 0
        then []
        else if leb m.scale 2
        then int1store (
            up_to d.negative
              (cutout_or_pad_zero (widened d.mill_second) (pos 2 -ℤ d.prefix_zero_num)))
        else if leb m.scale 4
        then be_int2store (
            up_to d.negative
              (cutout_or_pad_zero (widened d.mill_second) (pos 4 -ℤ d.prefix_zero_num)))
        else if leb m.scale 6
        then be_int3store (
            up_to d.negative
              (cutout_or_pad_zero (widened d.mill_second) (pos 6 -ℤ d.prefix_zero_num)))
        else []

pub record IUnixTime : Type 0 where
  pub sec : ℕ
  pub us : ℕ
  pub prefix_zero_num : ℤ

abbrev pub of_seconds : List (List ℕ) → IUnixTime
of_seconds [] = record { sec = 0; us = 0; prefix_zero_num = pos 0 }
of_seconds (s ∷ u ∷ []) = record {
  sec = atoll s;
  us = atoll u;
  prefix_zero_num = pos (length (c_string u)) -ℤ pos (get_number_len (atoll u));
}
of_seconds (s ∷ more) = record { sec = atoll s; us = 0; prefix_zero_num = pos 0 }

unfoldable pub str_2_unix_time : List ℕ → IUnixTime
str_2_unix_time str = of_seconds (split str b'.' false)

-- `std::equal` over the text, which may be shorter than the literal.
unfoldable pub is_zero_date : List ℕ → Bool
unfolding memcmp_eq
is_zero_date str = memcmp_eq str (codes "-9223372022400.000000" ++ 0 ∷ [])

unfoldable pub convert_binlog_timestamp : (ℕ → List ℕ) → ColMeta → List ℕ → Option (List ℕ)
unfolding buffer_len
convert_binlog_timestamp fresh m text =
    let t = str_2_unix_time text in
    buffer_len 4 m.scale >>= λ n.
    in_buffer fresh
      (be_int4store (if is_zero_date text then 0 else t.sec)
        ++ fraction m.scale t.us t.prefix_zero_num)
      n
