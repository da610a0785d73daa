-- ===== src/Event/TableMap.antt =====
-- TableMapEvent. `none` for a field is a null pointer, and for an operation a read outside a buffer.
pub mod RoundTrip
use oblogproxy.Common.{
  ℕ, ◌+◌, ◌-◌, ◌^◌, ◌<◌, ◌≡◌, refl, List, ◌∷◌, ◌++◌, Option, none, some, length, arith,
  append_assoc, inl,
}
use oblogproxy.Bytes.{
  Read, ◌>>=◌, ◌>>◌, pure, skip, run, load_bytes, int1store, int2store, int6store, int1load,
  int2load, int6load,
}
use oblogproxy.Bytes.RoundTrip.{
  load_bytes-append, int1load-int1store, int2load-int2store, int6load-int6store,
}
use oblogproxy.Lenenc.{write_lenenc_uint, get_lenenc_uint, packet_store_length}
use oblogproxy.Event.Header.{
  OblogEventHeader, IsHeader, flush_header, deserialize_header, deserialize_header-flush_header,
}
use oblogproxy.Event.Checksum.{ObLogEvent, write_checksum, write_checksum-append, checksum_bytes}
use oblogproxy.Event.Memory.{write_null_terminate_string, overlay, overlay-exact}
use oblogproxy.Event.Rows.{◌then◌, copy, bitmap_len}

pub record TableMapEvent : Type 0 where
  pub event : ObLogEvent
  pub open event use *
  pub table_id : ℕ
  pub flags : ℕ
  pub db_len : ℕ
  pub db_name : List ℕ
  pub tb_len : ℕ
  pub tb_name : List ℕ
  pub column_count : ℕ
  pub column_type : Option (List ℕ)
  pub metadata_len : ℕ
  pub metadata : Option (List ℕ)
  pub null_bits : Option (List ℕ)

abbrev pub int32_max : ℕ
int32_max = 2 ^ 31 - 1

module _ (fresh : ℕ → List ℕ) where
  -- The names, in the memory that the buffer had there.
  abbrev pub names : TableMapEvent → List ℕ
  names e =
      int6store e.table_id
      ++ (int2store e.flags
          ++ (int1store e.db_len
              ++ (overlay fresh (e.db_len + 1)
                    (write_null_terminate_string (e.db_len + 1) e.db_name)
                  ++ (int1store e.tb_len
                      ++ overlay fresh (e.tb_len + 1)
                          (write_null_terminate_string (e.tb_len + 1) e.tb_name)))))

  unfoldable pub body : TableMapEvent → Option (List ℕ)
  body e =
      some (names e)
      then write_lenenc_uint int32_max e.column_count
      then copy e.column_count e.column_type
      then write_lenenc_uint int32_max e.metadata_len
      then copy e.metadata_len e.metadata
      then copy (bitmap_len e.column_count) e.null_bits

  abbrev checksummed : (List ℕ → ℕ) → TableMapEvent → Option (List ℕ) → Option (List ℕ)
  checksummed crc32 e none = none
  checksummed crc32 e (some bs) =
      some (write_checksum crc32 e.checksum_flag (flush_header e.header ++ bs))

  pub flush_to_buff : (List ℕ → ℕ) → TableMapEvent → Option (List ℕ)
  flush_to_buff crc32 e = checksummed crc32 e (body e)

  -- The types, the metadata and the bits are passed over, and the memory that is allocated for them
  -- is not written; the metadata's takes the place of the types'.
  pub read_body : ℕ → OblogEventHeader → Read TableMapEvent
  read_body flag header = do
    table_id ← int6load
    flags ← int2load
    db_len ← int1load
    db_name ← load_bytes db_len
    skip 1
    tb_len ← int1load
    tb_name ← load_bytes tb_len
    skip 1
    column_count ← get_lenenc_uint
    skip column_count
    metadata_len ← get_lenenc_uint
    pure (record {
      event = record { header = header; checksum_flag = flag };
      table_id = table_id;
      flags = flags;
      db_len = db_len;
      db_name = db_name;
      tb_len = tb_len;
      tb_name = tb_name;
      column_count = column_count;
      column_type = some (fresh metadata_len);
      metadata_len = metadata_len;
      metadata = none;
      null_bits = some (fresh (bitmap_len column_count));
    })

  pub deserialize : ℕ → List ℕ → Option TableMapEvent
  unfolding read_body
  deserialize flag = run (deserialize_header >>= read_body flag)
