-- ===== src/Event/Rows/RoundTrip.antt =====
-- Reading back the rows events with one image.
use oblogproxy.Common.{
  drop_exact, ℕ, ◌+◌, ◌-◌, ◌^◌, ◌<◌, ◌≡◌, ◌∙◌, refl, sym, List, [], ◌++◌, none, some, false, ◌==◌,
  length, arith, append_assoc, append-nil, length-append, length-replicate, take-length, le→leb,
  inl,
}
use oblogproxy.Bytes.{◌>>=◌, run, int2store, int6store, fill_bit_map}
use oblogproxy.Bytes.RoundTrip.{
  load_bytes-append, int2load-int2store, int6load-int6store, store_lengths,
}
use oblogproxy.Lenenc.{packet_store_length}
use oblogproxy.Lenenc.Agreement.{
  write_lenenc_uint-packet_store_length, get_lenenc_uint-packet_store_length,
}
use oblogproxy.Event.Header.{flush_header, common_header_length, partial_update_rows_event}
use oblogproxy.Event.Checksum.{write_checksum, get_checksum_len, get_checksum_len-le}
use oblogproxy.Event.Framing.{IsEvent, run_framed}
use oblogproxy.Event.Rows.{
  RowsEvent, RowsEventType, max_packet_integer_len, copy, write_rows, bitmap_len, body,
  flush_to_buff, row_bytes, read_parts, deserialize_write, deserialize_delete,
}

-- The bytes of an event with one image.
abbrev pub one_image : RowsEvent → List ℕ → List ℕ → List ℕ
one_image e bitmaps row =
    int6store e.table_id
    ++ (int2store e.flags
        ++ (int2store e.var_header_len
            ++ (packet_store_length e.width
                ++ (fill_bit_map (bitmap_len e.width) ++ (bitmaps ++ row)))))

pub record OneImage (e : RowsEvent) (bitmaps row : List ℕ) : Type 0 where
  pub event_fits : IsEvent e.event (length (one_image e bitmaps row))
  pub table_id_fits : e.table_id < 2 ^ 48
  pub flags_fit : e.flags < 2 ^ 16
  pub var_header_len_fits : e.var_header_len < 2 ^ 16
  pub width_fits : e.width < 2 ^ 16
  pub bitmaps_sized : length bitmaps ≡ bitmap_len e.width

pub copy_all : (bs : List ℕ) (n : ℕ) → length bs ≡ n → copy n (some bs) ≡ some bs
unfolding copy
copy_all bs n h = rw (← h, le→leb (length bs) (length bs) (omega arith), take-length) refl

length-fill_bit_map : (n : ℕ) → length (fill_bit_map n) ≡ n
unfolding fill_bit_map
length-fill_bit_map n = length-replicate {A = ℕ} n 0xff

consumed : (xs ys : List ℕ) → length (xs ++ ys) - length ys ≡ length xs
consumed xs ys = omega (arith, length-append xs ys)

module _ (e : RowsEvent) (bitmaps row : List ℕ) (v : OneImage e bitmaps row) where
  length-one_image :
      length (one_image e bitmaps row)
      ≡ 10 + length (packet_store_length e.width) + bitmap_len e.width + length bitmaps + length row
  length-one_image = simp (length-append, store_lengths, length-fill_bit_map) (omega arith)

  row_size :
      row_bytes e.header.event_length
        (common_header_length
          + 10
          + length (packet_store_length e.width)
          + bitmap_len e.width
          + bitmap_len e.width)
        (get_checksum_len e.checksum_flag)
      ≡ length row
  row_size = omega (
    arith,
    v.bitmaps_sized,
    v.event_fits.header_fits.event_length_fits,
    v.event_fits.sized,
    get_checksum_len-le e.checksum_flag,
    length-one_image,
  )

  read_parts-one_image :
      (rest : List ℕ)
      → read_parts e.checksum_flag e.header (one_image e bitmaps row ++ rest)
        ≡ some ((e.table_id, e.flags, e.var_header_len, e.width, bitmaps, row), rest)
  unfolding read_parts
  read_parts-one_image rest = simp append_assoc (
      rw (
        int6load-int6store e.table_id _ v.table_id_fits,
        ◌>>=◌,
        int2load-int2store e.flags _ v.flags_fit,
        ◌>>=◌,
        int2load-int2store e.var_header_len _ v.var_header_len_fits,
        ◌>>=◌,
        get_lenenc_uint-packet_store_length e.width _ (omega (arith, v.width_fits)),
        ◌>>=◌,
        drop_exact (bitmap_len e.width) (fill_bit_map (bitmap_len e.width))
            (bitmaps ++ (row ++ rest)) (length-fill_bit_map (bitmap_len e.width)),
        load_bytes-append (bitmap_len e.width) bitmaps (row ++ rest) v.bitmaps_sized,
        ◌>>=◌,
        consumed (packet_store_length e.width)
            (fill_bit_map (bitmap_len e.width) ++ (bitmaps ++ (row ++ rest))),
        row_size,
        load_bytes-append (length row) row rest refl,
      ))

pub record IsWrite (e : RowsEvent) (bitmaps : List ℕ) : Type 0 where
  pub kind : e.rows_event_type ≡ RowsEventType.insert
  pub code : (e.header.type_code == partial_update_rows_event) ≡ false
  pub one : OneImage e bitmaps e.after_row
  pub columns : e.after_image_cols ≡ bitmap_len e.width
  pub bitmaps_there : e.columns_after_bitmaps ≡ some bitmaps
  pub all_of_row : e.after_pos ≡ length e.after_row

body-write :
    (e : RowsEvent) (bitmaps : List ℕ)
    → IsWrite e bitmaps
    → body e ≡ some (one_image e bitmaps e.after_row)
unfolding body write_rows
body-write e bitmaps v =
    rw
      (
        v.kind,
        v.code,
        v.columns,
        v.bitmaps_there,
        copy_all bitmaps (bitmap_len e.width) v.one.bitmaps_sized,
        copy_all e.after_row e.after_pos (sym v.all_of_row),
        write_lenenc_uint-packet_store_length max_packet_integer_len e.width (omega arith)
            (inl v.one.width_fits),
      )
      (simp append_assoc refl)

-- A WriteRowsEvent in range is written whole, and read back, whatever follows it, with its header
-- and checksum flag, its fixed fields, its width, the bitmap of its columns and its row. The number of
-- its image's columns is then the width, the end of its row 0, and of the image before there is nothing.
pub deserialize_write-flush_to_buff :
    (crc32 : List ℕ → ℕ) (e : RowsEvent) (bitmaps rest : List ℕ)
    → IsWrite e bitmaps
    → (bs : List ℕ) × (flush_to_buff crc32 e ≡ some bs)
      × (deserialize_write e.checksum_flag (bs ++ rest)
          ≡ some (record {
            event = e.event;
            table_id = e.table_id;
            flags = e.flags;
            var_header_len = e.var_header_len;
            width = e.width;
            before_image_cols = 0;
            after_image_cols = e.width;
            columns_before_bitmaps = none;
            columns_after_bitmaps = some bitmaps;
            partial_columns_bitmaps = none;
            partial_cols_bytes = 0;
            before_row = [];
            after_row = e.after_row;
            before_pos = 0;
            after_pos = 0;
            rows_event_type = RowsEventType.insert;
          }))
unfolding flush_to_buff deserialize_write
deserialize_write-flush_to_buff crc32 e bitmaps rest v = (
  write_checksum crc32 e.checksum_flag (flush_header e.header ++ one_image e bitmaps e.after_row),
  rw (body-write e bitmaps v) refl,
  run_framed crc32 e.event (one_image e bitmaps e.after_row) rest _ v.one.event_fits
      ∙ rw (read_parts-one_image e bitmaps e.after_row v.one _, run, ◌>>=◌),
)

pub record IsDelete (e : RowsEvent) (bitmaps : List ℕ) : Type 0 where
  pub kind : e.rows_event_type ≡ RowsEventType.delete
  pub code : (e.header.type_code == partial_update_rows_event) ≡ false
  pub one : OneImage e bitmaps e.before_row
  pub columns : e.before_image_cols ≡ bitmap_len e.width
  pub bitmaps_there : e.columns_before_bitmaps ≡ some bitmaps
  pub all_of_row : e.before_pos ≡ length e.before_row

body-delete :
    (e : RowsEvent) (bitmaps : List ℕ)
    → IsDelete e bitmaps
    → body e ≡ some (one_image e bitmaps e.before_row)
unfolding body write_rows
body-delete e bitmaps v =
    rw
      (
        v.kind,
        v.code,
        v.columns,
        v.bitmaps_there,
        copy_all bitmaps (bitmap_len e.width) v.one.bitmaps_sized,
        copy_all e.before_row e.before_pos (sym v.all_of_row),
        write_lenenc_uint-packet_store_length max_packet_integer_len e.width (omega arith)
            (inl v.one.width_fits),
      )
      (simp (append_assoc, append-nil) refl)

-- The same for a DeleteRowsEvent and its image before.
pub deserialize_delete-flush_to_buff :
    (crc32 : List ℕ → ℕ) (e : RowsEvent) (bitmaps rest : List ℕ)
    → IsDelete e bitmaps
    → (bs : List ℕ) × (flush_to_buff crc32 e ≡ some bs)
      × (deserialize_delete e.checksum_flag (bs ++ rest)
          ≡ some (record {
            event = e.event;
            table_id = e.table_id;
            flags = e.flags;
            var_header_len = e.var_header_len;
            width = e.width;
            before_image_cols = e.width;
            after_image_cols = 0;
            columns_before_bitmaps = some bitmaps;
            columns_after_bitmaps = none;
            partial_columns_bitmaps = none;
            partial_cols_bytes = 0;
            before_row = e.before_row;
            after_row = [];
            before_pos = 0;
            after_pos = 0;
            rows_event_type = RowsEventType.delete;
          }))
unfolding flush_to_buff deserialize_delete
deserialize_delete-flush_to_buff crc32 e bitmaps rest v = (
  write_checksum crc32 e.checksum_flag (flush_header e.header ++ one_image e bitmaps e.before_row),
  rw (body-delete e bitmaps v) refl,
  run_framed crc32 e.event (one_image e bitmaps e.before_row) rest _ v.one.event_fits
      ∙ rw (read_parts-one_image e bitmaps e.before_row v.one _, run, ◌>>=◌),
)
