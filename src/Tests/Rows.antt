-- ===== src/Tests/Rows.antt =====
-- A table map and rows of a table with two columns.
use oblogproxy.Common.{ℕ, ◌≡◌, refl, List, [], ◌∷◌, ◌++◌, none, some, arith}
use oblogproxy.Bytes.{le_bytes, int2store, int6store, fill_bit_map}
use oblogproxy.Lenenc.{packet_store_length}
use oblogproxy.Event.Checksum.{get_checksum_len}
use oblogproxy.Event.Rows.{RowsEvent, RowsEventType, flush_to_buff, deserialize_write}
use oblogproxy.Event.Rows.RoundTrip.{OneImage, deserialize_write-flush_to_buff}
use oblogproxy.Event.TableMap
use oblogproxy.Event.TableMap.RoundTrip.{deserialize-flush_to_buff_table_map}
use oblogproxy.Tests.Events.{crc, event, fresh, fresh_sized}

abbrev row : List ℕ
row = 0 ∷ 1 ∷ 0 ∷ 0 ∷ 0 ∷ []

abbrev write_event : RowsEvent
write_event = record {
  event = event 18;
  table_id = 108;
  flags = 1;
  var_header_len = 2;
  width = 2;
  before_image_cols = 0;
  after_image_cols = 1;
  columns_before_bitmaps = none;
  columns_after_bitmaps = some (255 ∷ []);
  partial_columns_bitmaps = none;
  partial_cols_bytes = 0;
  before_row = [];
  after_row = row;
  before_pos = 0;
  after_pos = 5;
  rows_event_type = RowsEventType.insert;
}

write_image : OneImage write_event (255 ∷ []) row
unfolding get_checksum_len packet_store_length int6store int2store le_bytes fill_bit_map
write_image = omega arith

deserialize_write-flush_to_buff_example :
    (bs : List ℕ) × (flush_to_buff crc write_event ≡ some bs)
    × (deserialize_write 1 (bs ++ (9 ∷ []))
        ≡ some (record {
          event = event 18;
          table_id = 108;
          flags = 1;
          var_header_len = 2;
          width = 2;
          before_image_cols = 0;
          after_image_cols = 2;
          columns_before_bitmaps = none;
          columns_after_bitmaps = some (255 ∷ []);
          partial_columns_bitmaps = none;
          partial_cols_bytes = 0;
          before_row = [];
          after_row = row;
          before_pos = 0;
          after_pos = 0;
          rows_event_type = RowsEventType.insert;
        }))
deserialize_write-flush_to_buff_example =
    deserialize_write-flush_to_buff crc write_event (255 ∷ []) (9 ∷ []) (record {
      kind = refl;
      code = refl;
      one = write_image;
      columns = refl;
      bitmaps_there = refl;
      all_of_row = refl;
    })

abbrev table_map : TableMap.TableMapEvent
table_map = record {
  event = event 30;
  table_id = 108;
  flags = 1;
  db_len = 2;
  db_name = 100 ∷ 98 ∷ [];
  tb_len = 1;
  tb_name = 116 ∷ [];
  column_count = 2;
  column_type = some (3 ∷ 15 ∷ []);
  metadata_len = 2;
  metadata = some (80 ∷ 0 ∷ []);
  null_bits = some (2 ∷ []);
}

deserialize-flush_to_buff_table_map_example :
    (bs : List ℕ) × (TableMap.flush_to_buff fresh crc table_map ≡ some bs)
    × (TableMap.deserialize fresh 1 (bs ++ (9 ∷ []))
        ≡ some (record table_map {
          column_type = some (fresh 2);
          metadata = none;
          null_bits = some (fresh 1);
        }))
deserialize-flush_to_buff_table_map_example =
    deserialize-flush_to_buff_table_map fresh crc table_map (3 ∷ 15 ∷ []) (80 ∷ 0 ∷ []) (2 ∷ [])
      (9 ∷ []) fresh_sized
      (record {
        db_sized = refl;
        tb_sized = refl;
        types_there = refl;
        types_sized = refl;
        metadata_there = refl;
        metadata_sized = refl;
        bits_there = refl;
        bits_sized = refl;
        header_fits = omega arith;
        table_id_fits = omega arith;
        flags_fit = omega arith;
        db_fits = omega arith;
        tb_fits = omega arith;
        count_fits = omega arith;
        metadata_fits = omega arith;
      })
