-- ===== src/Tests/Values.antt =====
-- The values of columns at concrete inputs.
use oblogproxy.Common.{
  All, ℕ, zero, suc, ◌+◌, ◌/◌, ◌%◌, ◌^◌, ◌<◌, ◌≡◌, ◌≢◌, refl, List, [], ◌∷◌, ◌++◌, false, none,
  some, arith, length, ap, ltb, if◌then◌else◌,
}
use oblogproxy.Bytes.{le_bytes, int1store, int2store}
use oblogproxy.Event.Rows.{RowsEventType}
use oblogproxy.Text.Decimal.{IsDigit, read_digits}
use oblogproxy.DataType.{FieldType, ColMeta}
use oblogproxy.DataType.Int.{negsuc}
use oblogproxy.DataType.Numbers.{int_two_complement}
use oblogproxy.DataType.Texts.{
  convert_binlog_enum, convert_binlog_set, convert_binlog_blob, find_value,
}
use oblogproxy.DataType.Dates.{convert_binlog_datetime}
use oblogproxy.DataType.Packing.{datetime_value}
use oblogproxy.DataType.Signed.{signed_text, bits_of, int_two_complement-signed_text}
use oblogproxy.DataType.Choices.{
  convert_binlog_enum-member, convert_binlog_set-members, member_bits, Begins, Whole,
}
use oblogproxy.DataType.Moments.{Moment, HasNumbers, IsNumber, moment_text, moment_date}
use oblogproxy.DataType.Datetime.{be_bytes, first_digits, convert_binlog_datetime-moment_text}
use oblogproxy.DataType.Value.{
  Converters, Column, Image, Values, get_column_val_bytes, fill_bitmap, col_val_bytes,
}
use oblogproxy.DataType.Nulls.{NullBits}
use oblogproxy.DataType.Filled.{IsCounted, row_values, col_val_bytes-delete}

-- The SMALLINT -300.
int_two_complement-signed_text_example :
    int_two_complement 2 (signed_text (negsuc 299)) ≡ some (le_bytes 2 (bits_of (negsuc 299)))
int_two_complement-signed_text_example =
    int_two_complement-signed_text 2 (negsuc 299) (omega arith) (omega arith) (λ e. omega arith)

abbrev choice : FieldType → List (List ℕ) → ColMeta
choice type values = record {
  type = type;
  len = 4;
  precision = 0;
  scale = 2;
  encoding = [];
  values_of_enum_set = values;
}

head_or : ℕ → List ℕ → ℕ
head_or d [] = d
head_or d (b ∷ bs) = b

other_start : (a b : ℕ) (s t : List ℕ) → a ≢ b → ¬ Begins (a ∷ s) (b ∷ t)
unfolding head_or
other_start a b s t n (rest, e) = n (ap (head_or 0) e)

abbrev colours : ColMeta
colours = choice FieldType.enum ((b'r' ∷ b'e' ∷ []) ∷ (b'b' ∷ b'l' ∷ []) ∷ [])

convert_binlog_enum-member_example :
    convert_binlog_enum colours (b'b' ∷ b'l' ∷ [])
    ≡ le_bytes (if ltb (length colours.values_of_enum_set) 256 then 1 else 2) (1 + 1)
convert_binlog_enum-member_example =
    convert_binlog_enum-member colours (b'b' ∷ b'l' ∷ []) ((b'r' ∷ b'e' ∷ []) ∷ []) [] refl (
      (
        ((λ e. omega arith), ((λ e. omega arith), tt)),
        other_start b'b' b'r' (b'l' ∷ []) (b'e' ∷ []) (λ e. omega arith),
      ),
      tt,
    )

abbrev letters : ColMeta
letters = choice FieldType.set ((b'a' ∷ []) ∷ (b'b' ∷ []) ∷ (b'c' ∷ []) ∷ [])

convert_binlog_set-members_example :
    convert_binlog_set letters (b'c' ∷ b',' ∷ b'a' ∷ [])
    ≡ some (
        le_bytes
          ((3 + 7) / 8)
          (member_bits ((b'c' ∷ []) ∷ (b'a' ∷ []) ∷ []) letters.values_of_enum_set))
convert_binlog_set-members_example =
    convert_binlog_set-members letters (b'c' ∷ []) ((b'a' ∷ []) ∷ []) (omega arith)
      (λ e. omega (arith, ap length e))
      (
        (((λ e. omega arith), (λ e. omega arith)), tt),
        ((((λ e. omega arith), (λ e. omega arith)), tt), tt),
      )
      (apart_a, (apart_b, (apart_c, tt)))
  where
    apart_a : Whole ((b'c' ∷ []) ∷ (b'a' ∷ []) ∷ []) (b'a' ∷ [])
    apart_a = (
      ((λ e. omega arith), tt),
      ((λ b. absurd (other_start b'c' b'a' [] [] (λ e. omega arith) b)), ((λ b. refl), tt)),
    )

    apart_b : Whole ((b'c' ∷ []) ∷ (b'a' ∷ []) ∷ []) (b'b' ∷ [])
    apart_b = (
      ((λ e. omega arith), tt),
      (
        (λ b. absurd (other_start b'c' b'b' [] [] (λ e. omega arith) b)),
        ((λ b. absurd (other_start b'a' b'b' [] [] (λ e. omega arith) b)), tt),
      ),
    )

    apart_c : Whole ((b'c' ∷ []) ∷ (b'a' ∷ []) ∷ []) (b'c' ∷ [])
    apart_c = (
      ((λ e. omega arith), tt),
      ((λ b. refl), ((λ b. absurd (other_start b'a' b'c' [] [] (λ e. omega arith) b)), tt)),
    )

-- 2024-02-29 12:30:05.25, with two digits behind the point.
abbrev moment : Moment
moment = record {
  year = b'2' ∷ b'0' ∷ b'2' ∷ b'4' ∷ [];
  month = b'0' ∷ b'2' ∷ [];
  day = b'2' ∷ b'9' ∷ [];
  hour = b'1' ∷ b'2' ∷ [];
  minute = b'3' ∷ b'0' ∷ [];
  second = b'0' ∷ b'5' ∷ [];
  fraction = b'2' ∷ b'5' ∷ [];
}

two_digits :
    (a b : ℕ) → IsDigit a → IsDigit b → read_digits 0 (a ∷ b ∷ []) < 2 ^ 31 → IsNumber (a ∷ b ∷ [])
two_digits a b i j h = record {
  filled = λ e. omega (arith, ap length e);
  digits = (i, (j, tt));
  small = h;
}

moment-HasNumbers : HasNumbers moment
moment-HasNumbers = record {
  year = record {
    filled = λ e. omega (arith, ap length e);
    digits = (
      (omega arith, omega arith),
      ((omega arith, omega arith), ((omega arith, omega arith), ((omega arith, omega arith), tt))),
    );
    small = unfold read_digits in omega arith;
  };
  month =
      two_digits b'0' b'2' (omega arith, omega arith) (omega arith, omega arith)
        (unfold read_digits in omega arith);
  day =
      two_digits b'2' b'9' (omega arith, omega arith) (omega arith, omega arith)
        (unfold read_digits in omega arith);
  hour =
      two_digits b'1' b'2' (omega arith, omega arith) (omega arith, omega arith)
        (unfold read_digits in omega arith);
  minute =
      two_digits b'3' b'0' (omega arith, omega arith) (omega arith, omega arith)
        (unfold read_digits in omega arith);
  second =
      two_digits b'0' b'5' (omega arith, omega arith) (omega arith, omega arith)
        (unfold read_digits in omega arith);
  fraction =
      two_digits b'2' b'5' (omega arith, omega arith) (omega arith, omega arith)
        (unfold read_digits in omega arith);
}

abbrev column : ColMeta
column = choice FieldType.datetime []

abbrev fresh : ℕ → List ℕ
fresh zero = []
fresh (suc n) = 0 ∷ fresh n

length-fresh : (n : ℕ) → length (fresh n) ≡ n
length-fresh zero = refl
length-fresh (suc n) = omega (arith, length-fresh n)

convert_binlog_datetime-moment_text_example :
    convert_binlog_datetime fresh column (moment_text moment)
    ≡ some (
        be_bytes 5 (2 ^ 39 + datetime_value (moment_date moment))
        ++ be_bytes
            (column.scale / 2)
            (first_digits column.scale (read_digits 0 moment.fraction) (length moment.fraction)))
convert_binlog_datetime-moment_text_example =
    convert_binlog_datetime-moment_text fresh column moment length-fresh moment-HasNumbers
      (record {
        months = unfold read_digits in omega arith;
        day = unfold read_digits in omega arith;
        hour = unfold read_digits in omega arith;
        minute = unfold read_digits in omega arith;
        second = unfold read_digits in omega arith;
        positive = refl;
      })
      (omega arith) refl (omega arith)

abbrev none_of_them : Converters
none_of_them = record {
  convert_binlog_float = λ m text. none;
  convert_binlog_double = λ text. none;
  convert_binlog_decimal = λ m text. none;
  convert_binlog_json = λ text is_json_diff. none;
  convert_binlog_geometry = λ text. none;
}

-- A BLOB, a NULL, and an ENUM.
abbrev columns : List Column
columns =
    record { meta = choice FieldType.blob []; text = some (7 ∷ 8 ∷ []); is_diff = false }
    ∷ record { meta = choice FieldType.long []; text = none; is_diff = false }
    ∷ record { meta = colours; text = some (b'r' ∷ b'e' ∷ []); is_diff = false }
    ∷ []

abbrev nothing : Image
nothing = record { values = []; pos = 0; null_bits = [] }

converted : row_values fresh none_of_them columns ≡ some (2 ∷ 0 ∷ 7 ∷ 8 ∷ 1 ∷ [])
unfolding get_column_val_bytes convert_binlog_enum convert_binlog_blob find_value int2store le_bytes
    int1store
converted = refl

-- The place of a type in the enumeration, as far as the test needs it.
abbrev place : FieldType → ℕ
place FieldType.null = 0
place FieldType.geometry = 1
place _ = 2

columns-IsCounted : All (λ (c : Column). IsCounted c.meta.type) columns
columns-IsCounted = (
  ((λ e. omega (arith, ap place e)), (λ e. omega (arith, ap place e))),
  (
    ((λ e. omega (arith, ap place e)), (λ e. omega (arith, ap place e))),
    (((λ e. omega (arith, ap place e)), (λ e. omega (arith, ap place e))), tt),
  ),
)

col_val_bytes-delete_example :
    (v : Values) × (col_val_bytes fresh none_of_them RowsEventType.delete columns []
        (record { values = []; pos = 0; null_bits = fill_bitmap 3 (170 ∷ []) })
        nothing
      ≡ some v)
    × (v.before.values ≡ 2 ∷ 0 ∷ 7 ∷ 8 ∷ 1 ∷ [])
    × NullBits columns 0 v.before.null_bits
    × (v.col_bytes ≡ 5 % 2 ^ 64)
    × (v.after ≡ nothing)
    × (v.partial_bitmap ≡ none)
col_val_bytes-delete_example =
    col_val_bytes-delete fresh none_of_them columns (170 ∷ []) (2 ∷ 0 ∷ 7 ∷ 8 ∷ 1 ∷ []) nothing refl
      columns-IsCounted converted refl
