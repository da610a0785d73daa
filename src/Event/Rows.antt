-- ===== src/Event/Rows.antt =====
-- RowsEvent and its three kinds. A MsgBuf of rows is its bytes. `none` is a null pointer where one
-- is read, a failed assert, or a read outside a buffer.
pub mod RoundTrip
use oblogproxy.Common.{
  ℕ, ◌+◌, ◌-◌, ◌*◌, ◌/◌, ◌%◌, ◌^◌, List, [], ◌∷◌, ◌++◌, Option, none, some, Bool, true, false, ◌==◌,
  leb, not, if◌then◌else◌, length, take,
}
use oblogproxy.Bytes.{
  Read, ◌>>=◌, ◌>>◌, pure, skip, assert, run, load_bytes, int1store, int2store, int6store, int2load,
  int6load, fill_bit_map,
}
use oblogproxy.Lenenc.{write_lenenc_uint, get_lenenc_uint}
use oblogproxy.Event.Header.{
  OblogEventHeader, flush_header, deserialize_header, common_header_length,
  partial_update_rows_event,
}
use oblogproxy.Event.Checksum.{ObLogEvent, write_checksum, get_checksum_len}

pub data RowsEventType : Type 0 where
  insert : RowsEventType
  delete : RowsEventType
  update : RowsEventType

abbrev pub has_before : RowsEventType → Bool
has_before RowsEventType.insert = false
has_before RowsEventType.delete = true
has_before RowsEventType.update = true

abbrev pub has_after : RowsEventType → Bool
has_after RowsEventType.insert = true
has_after RowsEventType.delete = false
has_after RowsEventType.update = true

pub record RowsEvent : Type 0 where
  pub event : ObLogEvent
  pub open event use *
  pub table_id : ℕ
  pub flags : ℕ
  pub var_header_len : ℕ
  pub width : ℕ
  pub before_image_cols : ℕ
  pub after_image_cols : ℕ
  pub columns_before_bitmaps : Option (List ℕ)
  pub columns_after_bitmaps : Option (List ℕ)
  pub partial_columns_bitmaps : Option (List ℕ)
  pub partial_cols_bytes : ℕ
  pub before_row : List ℕ
  pub after_row : List ℕ
  pub before_pos : ℕ
  pub after_pos : ℕ
  pub rows_event_type : RowsEventType

abbrev pub max_packet_integer_len : ℕ
max_packet_integer_len = 9

-- One write behind another.
infixr 5 ◌then◌
abbrev pub ◌then◌ : Option (List ℕ) → Option (List ℕ) → Option (List ℕ)
none then b = none
(some xs) then none = none
(some xs) then (some ys) = some (xs ++ ys)

-- `memcpy` of `n` bytes from a pointer.
unfoldable pub copy : ℕ → Option (List ℕ) → Option (List ℕ)
copy n none = none
copy n (some bs) = if leb n (length bs) then some (take n bs) else none

unfoldable pub write_rows : List ℕ → ℕ → Option (List ℕ)
unfolding copy
write_rows rows len = copy len (some rows)

abbrev pub bitmap_len : ℕ → ℕ
bitmap_len width = (width + 7) / 8

abbrev pub if_so : Bool → Option (List ℕ) → Option (List ℕ)
if_so c b = if c then b else some []

abbrev pub image : ℕ → Option (List ℕ) → List ℕ → ℕ → Option (List ℕ)
image width bitmaps row len = copy (bitmap_len width) bitmaps then write_rows row len

unfoldable pub body : RowsEvent → Option (List ℕ)
body e =
    some (int6store e.table_id ++ (int2store e.flags ++ int2store e.var_header_len))
    then write_lenenc_uint max_packet_integer_len e.width
    then if_so (has_before e.rows_event_type) (some (fill_bit_map e.before_image_cols))
    then if_so (has_after e.rows_event_type) (some (fill_bit_map e.after_image_cols))
    then if_so (has_before e.rows_event_type)
        (image e.width e.columns_before_bitmaps e.before_row e.before_pos)
    then if_so (e.header.type_code == partial_update_rows_event)
        (some (int1store 1) then copy e.partial_cols_bytes e.partial_columns_bitmaps)
    then if_so (has_after e.rows_event_type)
        (image e.width e.columns_after_bitmaps e.after_row e.after_pos)

abbrev pub checksummed : (List ℕ → ℕ) → RowsEvent → Option (List ℕ) → Option (List ℕ)
checksummed crc32 e none = none
checksummed crc32 e (some bs) =
    some (write_checksum crc32 e.checksum_flag (flush_header e.header ++ bs))

unfoldable pub flush_to_buff : (List ℕ → ℕ) → RowsEvent → Option (List ℕ)
unfolding body
flush_to_buff crc32 e = checksummed crc32 e (body e)

-- The number of bytes that a read takes, beside its result.
abbrev pub measured : {A : Type 0} → Read A → Read (A × ℕ)
measured m s = elim (m s) [ none ↦ none | some (a, s') ↦ some ((a, length s - length s'), s') ]

abbrev pub row_bytes : ℕ → ℕ → ℕ → ℕ
row_bytes event_length pos checksum_len = (event_length + 2 * 2 ^ 64 - pos - checksum_len) % 2 ^ 64

-- What the three readers have in common: the fixed part, the width, one bitmap that is passed over
-- and one that is kept, and the bytes up to the checksum.
unfoldable pub read_parts : ℕ → OblogEventHeader → Read (ℕ × ℕ × ℕ × ℕ × List ℕ × List ℕ)
read_parts flag header = do
  table_id ← int6load
  flags ← int2load
  var_header_len ← int2load
  (width, size) ← measured get_lenenc_uint
  skip (bitmap_len width)
  bitmaps ← load_bytes (bitmap_len width)
  let pos = common_header_length + 10 + size + bitmap_len width + bitmap_len width
  row ← load_bytes (row_bytes header.event_length pos (get_checksum_len flag))
  pure (table_id, flags, var_header_len, width, bitmaps, row)

-- A new event of some kind with what was read, before its columns are set.
abbrev pub fresh_event :
    ℕ → OblogEventHeader → RowsEventType → (ℕ × ℕ × ℕ × ℕ × List ℕ × List ℕ) → RowsEvent
fresh_event flag header kind (table_id, flags, var_header_len, width, bitmaps, row) = record {
  event = record { header = header; checksum_flag = flag };
  table_id = table_id;
  flags = flags;
  var_header_len = var_header_len;
  width = width;
  before_image_cols = 0;
  after_image_cols = 0;
  columns_before_bitmaps = none;
  columns_after_bitmaps = none;
  partial_columns_bitmaps = none;
  partial_cols_bytes = 0;
  before_row = [];
  after_row = [];
  before_pos = 0;
  after_pos = 0;
  rows_event_type = kind;
}

abbrev pub write_rows_event_of :
    ℕ → OblogEventHeader → (ℕ × ℕ × ℕ × ℕ × List ℕ × List ℕ) → RowsEvent
write_rows_event_of flag header (table_id, flags, var_header_len, width, bitmaps, row) =
    record (fresh_event flag header RowsEventType.insert
      (table_id, flags, var_header_len, width, bitmaps, row)) {
        after_image_cols = width;
        columns_after_bitmaps = some bitmaps;
        after_row = row;
      }

abbrev pub delete_rows_event_of :
    ℕ → OblogEventHeader → (ℕ × ℕ × ℕ × ℕ × List ℕ × List ℕ) → RowsEvent
delete_rows_event_of flag header (table_id, flags, var_header_len, width, bitmaps, row) =
    record (fresh_event flag header RowsEventType.delete
      (table_id, flags, var_header_len, width, bitmaps, row)) {
        before_image_cols = width;
        columns_before_bitmaps = some bitmaps;
        before_row = row;
      }

-- The row goes to the image before, the columns to the image after.
abbrev pub update_rows_event_of :
    ℕ → OblogEventHeader → (ℕ × ℕ × ℕ × ℕ × List ℕ × List ℕ) → RowsEvent
update_rows_event_of flag header (table_id, flags, var_header_len, width, bitmaps, row) =
    record (fresh_event flag header RowsEventType.update
      (table_id, flags, var_header_len, width, bitmaps, row)) {
        after_image_cols = width;
        columns_after_bitmaps = some bitmaps;
        before_row = row;
      }

abbrev pub read_event :
    (ℕ → OblogEventHeader → (ℕ × ℕ × ℕ × ℕ × List ℕ × List ℕ) → RowsEvent)
    → ℕ
    → OblogEventHeader
    → Read RowsEvent
read_event make flag header = do parts ← read_parts flag header; pure (make flag header parts)

unfoldable pub deserialize_write : ℕ → List ℕ → Option RowsEvent
deserialize_write flag = run (deserialize_header >>= read_event write_rows_event_of flag)

unfoldable pub deserialize_delete : ℕ → List ℕ → Option RowsEvent
deserialize_delete flag = run (deserialize_header >>= read_event delete_rows_event_of flag)

unfoldable pub deserialize_update : ℕ → List ℕ → Option RowsEvent
deserialize_update flag = run (deserialize_header >>= read_event update_rows_event_of flag)
