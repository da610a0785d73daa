-- ===== src/DataType/Value.antt =====
-- `get_column_val_bytes` and `col_val_bytes` of binlog/data_type.cpp: the values of a row and the bits of
-- its columns that are NULL. The conversions of floats, decimals, JSON and geometries are parameters.
use oblogproxy.Common.{
  ℕ, zero, suc, ◌+◌, ◌-◌, ◌*◌, ◌/◌, ◌%◌, ◌^◌, List, [], ◌∷◌, ◌++◌, Bool, true, false, ◌&&◌, not,
  if◌then◌else◌, ◌==◌, Option, none, some, length,
}
use Prim.Native.Nat.{bit_or}
use oblogproxy.Event.Rows.{RowsEventType}
use oblogproxy.DataType.{FieldType, ColMeta, ◌>>=◌}
use oblogproxy.DataType.Numbers.{
  convert_binlog_tiny, convert_binlog_short, convert_binlog_int24, convert_binlog_long,
  convert_binlog_longlong, convert_binlog_bit, convert_binlog_year,
}
use oblogproxy.DataType.Texts.{
  convert_binlog_var_string, convert_binlog_tiny_blob, convert_binlog_blob,
  convert_binlog_medium_blob, convert_binlog_long_blob, convert_binlog_enum, convert_binlog_set,
}
use oblogproxy.DataType.Dates.{
  convert_binlog_date, convert_binlog_datetime, convert_binlog_time, convert_binlog_timestamp,
}

-- What the converters that are not modelled push, or `none` for an exception; that of geometries
-- also gives the number that it returns, which is not that of its bytes if the text is not one.
pub record Converters : Type 0 where
  pub convert_binlog_float : ColMeta → List ℕ → Option (List ℕ)
  pub convert_binlog_double : List ℕ → Option (List ℕ)
  pub convert_binlog_decimal : ColMeta → List ℕ → Option (List ℕ)
  pub convert_binlog_json : List ℕ → Bool → Option (List ℕ)
  pub convert_binlog_geometry : List ℕ → Option (List ℕ × ℕ)

-- A column of a record, whose value is NULL if it has no text.
pub record Column : Type 0 where
  pub meta : ColMeta
  pub text : Option (List ℕ)
  pub is_diff : Bool

-- The bytes with their number.
abbrev pub counted : Option (List ℕ) → Option (List ℕ × ℕ)
counted none = none
counted (some bytes) = some (bytes, length bytes)

module _ (fresh : ℕ → List ℕ) (others : Converters) where
  -- The bytes that are pushed, and the number that is returned.
  unfoldable pub val_of_type : FieldType → ColMeta → List ℕ → Bool → Option (List ℕ × ℕ)
  val_of_type FieldType.bit m text is_json_diff = counted (convert_binlog_bit m text)
  val_of_type FieldType.float m text is_json_diff = counted (others.convert_binlog_float m text)
  val_of_type FieldType.double m text is_json_diff = counted (others.convert_binlog_double text)
  val_of_type FieldType.string m text is_json_diff =
      counted (some (convert_binlog_var_string m text))
  val_of_type FieldType.var_string m text is_json_diff =
      counted (some (convert_binlog_var_string m text))
  val_of_type FieldType.varchar m text is_json_diff =
      counted (some (convert_binlog_var_string m text))
  val_of_type FieldType.decimal m text is_json_diff = counted (others.convert_binlog_decimal m text)
  val_of_type FieldType.newdecimal m text is_json_diff =
      counted (others.convert_binlog_decimal m text)
  val_of_type FieldType.enum m text is_json_diff = counted (some (convert_binlog_enum m text))
  val_of_type FieldType.set m text is_json_diff = counted (convert_binlog_set m text)
  val_of_type FieldType.tiny_blob m text is_json_diff =
      counted (some (convert_binlog_tiny_blob text))
  val_of_type FieldType.medium_blob m text is_json_diff =
      counted (some (convert_binlog_medium_blob text))
  val_of_type FieldType.long_blob m text is_json_diff =
      counted (some (convert_binlog_long_blob text))
  val_of_type FieldType.blob m text is_json_diff = counted (some (convert_binlog_blob text))
  val_of_type FieldType.tiny m text is_json_diff = counted (convert_binlog_tiny text)
  val_of_type FieldType.null m text is_json_diff = some ([], 1)
  val_of_type FieldType.timestamp m text is_json_diff =
      counted (convert_binlog_timestamp fresh m text)
  val_of_type FieldType.longlong m text is_json_diff = counted (convert_binlog_longlong text)
  val_of_type FieldType.int24 m text is_json_diff = counted (convert_binlog_int24 text)
  val_of_type FieldType.date m text is_json_diff = counted (convert_binlog_date text)
  val_of_type FieldType.newdate m text is_json_diff = counted (convert_binlog_date text)
  val_of_type FieldType.time m text is_json_diff = counted (convert_binlog_time fresh m text)
  val_of_type FieldType.datetime m text is_json_diff =
      counted (convert_binlog_datetime fresh m text)
  val_of_type FieldType.year m text is_json_diff = counted (convert_binlog_year text)
  val_of_type FieldType.short m text is_json_diff = counted (convert_binlog_short text)
  val_of_type FieldType.long m text is_json_diff = counted (convert_binlog_long text)
  val_of_type FieldType.json m text is_json_diff =
      counted (others.convert_binlog_json text is_json_diff)
  val_of_type FieldType.geometry m text is_json_diff = others.convert_binlog_geometry text
  val_of_type _ m text is_json_diff = some ([], 0)

  unfoldable pub get_column_val_bytes : ColMeta → List ℕ → Bool → Option (List ℕ × ℕ)
  unfolding val_of_type
  get_column_val_bytes m text is_json_diff = val_of_type m.type m text is_json_diff

-- `bytes[k] |= mask` of a byte; `none` is a write out of the memory.
unfoldable pub or_at : List ℕ → ℕ → ℕ → Option (List ℕ)
or_at [] k mask = none
or_at (b ∷ bs) zero mask = some (bit_or b mask ∷ bs)
or_at (b ∷ bs) (suc k) mask = or_at bs k mask >>= λ cs. some (b ∷ cs)

-- `bitmap[i / 8] |= 0x01 << (i % 8)`.
abbrev pub mark : List ℕ → ℕ → Option (List ℕ)
mark bits i = or_at bits (i / 8) (2 ^ (i % 8))

abbrev pub zeros : ℕ → List ℕ → List ℕ
zeros zero bits = bits
zeros (suc n) [] = []
zeros (suc n) (b ∷ bits) = 0 ∷ zeros n bits

abbrev pub last_as : ℕ → List ℕ → List ℕ
last_as v [] = []
last_as v (b ∷ []) = v ∷ []
last_as v (b ∷ c ∷ bits) = b ∷ last_as v (c ∷ bits)

-- Over the memory that is passed, of at least one byte.
unfoldable pub fill_bitmap : ℕ → List ℕ → List ℕ
fill_bitmap col_count bits =
    let cleared = zeros (col_count / 8) bits in
    if col_count / 8 == length bits - 1
    then last_as (255 * 2 ^ (col_count % 8) % 256) cleared
    else cleared

-- Values, their length as it is counted, and the bits of NULL.
pub record Image : Type 0 where
  pub values : List ℕ
  pub pos : ℕ
  pub null_bits : List ℕ

abbrev pub with_value : Image → List ℕ × ℕ → Image
with_value s (bytes, n) = record {
  values = s.values ++ bytes;
  pos = (s.pos + n) % 2 ^ 64;
  null_bits = s.null_bits;
}

abbrev pub with_null_bits : Image → List ℕ → Image
with_null_bits s bits = record { values = s.values; pos = s.pos; null_bits = bits }

module _ (fresh : ℕ → List ℕ) (others : Converters) where
  unfoldable pub before_column : Column → ℕ → Image → Option Image
  unfolding or_at get_column_val_bytes
  before_column c i s = elim (c.text) [
    | none ↦ mark s.null_bits i >>= λ bits. some (with_null_bits s bits)
    | some text ↦ get_column_val_bytes fresh others c.meta text false >>= λ v. some (with_value s v)
  ]

  -- The loop from the column `i` on.
  unfoldable pub serialize_before : List Column → ℕ → Image → Option Image
  unfolding before_column
  serialize_before [] i s = some s
  serialize_before (c ∷ cs) i s = before_column c i s >>= λ s'. serialize_before cs (suc i) s'

abbrev pub is_json : Column → Bool
is_json c = json_type c.meta.type
  where
    json_type : FieldType → Bool
    json_type FieldType.json = true
    json_type _ = false

abbrev pub is_update : RowsEventType → Bool
is_update RowsEventType.update = true
is_update _ = false

-- What the loop over the new values keeps: also the bits of JSON columns that hold a difference.
pub record After : Type 0 where
  pub image : Image
  pub partial_cols_bitmap : Option (List ℕ)
  pub has_any_json_diff : Bool
  pub json_col_index : ℕ

abbrev pub with_diff : After → Image → Option After
with_diff s image = elim (s.partial_cols_bitmap) [
  | none ↦ some (record {
    image = image;
    partial_cols_bitmap = none;
    has_any_json_diff = s.has_any_json_diff;
    json_col_index = s.json_col_index + 1;
  })
  | some bits ↦ mark bits s.json_col_index >>= λ bits'. some (record {
    image = image;
    partial_cols_bitmap = some bits';
    has_any_json_diff = true;
    json_col_index = s.json_col_index + 1;
  })
]

abbrev pub with_image : After → Image → ℕ → After
with_image s image json_columns = record {
  image = image;
  partial_cols_bitmap = s.partial_cols_bitmap;
  has_any_json_diff = s.has_any_json_diff;
  json_col_index = s.json_col_index + json_columns;
}

module _ (fresh : ℕ → List ℕ) (others : Converters) (rows_event_type : RowsEventType) where
  -- Is the value a difference, as it is treated.
  abbrev pub diff_of : Column → Bool
  diff_of c = elim (c.text) [ none ↦ false | some text ↦ is_update rows_event_type && c.is_diff ]

  abbrev pub after_value : Column → ℕ → Image → Option Image
  after_value c i s = elim (c.text) [
    | none ↦ mark s.null_bits i >>= λ bits. some (with_null_bits s bits)
    | some text ↦
        get_column_val_bytes fresh others c.meta text (diff_of c) >>= λ v. some (with_value s v)
  ]

  unfoldable pub after_column : Column → ℕ → After → Option After
  unfolding or_at get_column_val_bytes
  after_column c i s = after_value c i s.image >>= λ image.
      if is_json c
      then (if diff_of c then with_diff s image else some (with_image s image 1))
      else some (with_image s image 0)

  unfoldable pub serialize_after : List Column → ℕ → After → Option After
  unfolding after_column
  serialize_after [] i s = some s
  serialize_after (c ∷ cs) i s = after_column c i s >>= λ s'. serialize_after cs (suc i) s'

unfoldable pub json_col_count : List Column → ℕ
json_col_count [] = 0
json_col_count (c ∷ cs) = (if is_json c then 1 else 0) + json_col_count cs

pub record Values : Type 0 where
  pub before : Image
  pub after : Image
  pub partial_bitmap : Option (List ℕ)
  pub partial_cols_bytes : ℕ
  pub col_bytes : ℕ

-- The bits for differences: only an update of a table with JSON columns has them.
abbrev pub new_partial : (ℕ → List ℕ) → RowsEventType → List Column → Option (List ℕ)
new_partial fresh rows_event_type columns =
    if is_update rows_event_type && not (json_col_count columns == 0)
    then some (fill_bitmap (json_col_count columns) (fresh ((json_col_count columns + 7) / 8)))
    else none

abbrev pub is_insert : RowsEventType → Bool
is_insert RowsEventType.insert = true
is_insert _ = false

abbrev pub is_delete : RowsEventType → Bool
is_delete RowsEventType.delete = true
is_delete _ = false

-- Without a difference the bits for them are freed.
abbrev pub kept_partial : After → Option (List ℕ)
kept_partial s = if s.has_any_json_diff then s.partial_cols_bitmap else none

abbrev pub size_of : Option (List ℕ) → ℕ
size_of none = 0
size_of (some bits) = length bits

module _ (fresh : ℕ → List ℕ) (others : Converters) where
  -- The old and the new columns of a record; the memory `fresh n` has `n` bytes.
  unfoldable pub col_val_bytes :
      RowsEventType → List Column → List Column → Image → Image → Option Values
  unfolding serialize_before serialize_after fill_bitmap json_col_count
  col_val_bytes rows_event_type old_cols new_cols before after = do
    before' ←
        if is_insert rows_event_type
        then some before
        else serialize_before fresh others old_cols 0 before
    s ←
        if is_delete rows_event_type
        then some start
        else serialize_after fresh others rows_event_type new_cols 0 start
    some (record {
      before = before';
      after = s.image;
      partial_bitmap = kept_partial s;
      partial_cols_bytes = size_of (kept_partial s);
      col_bytes = (before'.pos + s.image.pos) % 2 ^ 64;
    })
    where
      start : After
      start = record {
        image = after;
        partial_cols_bitmap = new_partial fresh rows_event_type new_cols;
        has_any_json_diff = false;
        json_col_index = 0;
      }
