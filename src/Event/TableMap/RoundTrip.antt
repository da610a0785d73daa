-- ===== src/Event/TableMap/RoundTrip.antt =====
-- What a TableMapEvent is read back as.
use oblogproxy.Common.{
  drop_exact, ℕ, ◌+◌, ◌^◌, ◌<◌, ◌≡◌, refl, List, ◌∷◌, ◌++◌, none, some, length, arith, append_assoc,
  inl,
}
use oblogproxy.Bytes.{◌>>=◌, run, int1store, int2store, int6store}
use oblogproxy.Bytes.RoundTrip.{
  load_bytes-append, int1load-int1store, int2load-int2store, int6load-int6store,
}
use oblogproxy.Lenenc.{packet_store_length}
use oblogproxy.Lenenc.Agreement.{
  write_lenenc_uint-packet_store_length, get_lenenc_uint-packet_store_length,
}
use oblogproxy.Event.Header.{IsHeader, flush_header, deserialize_header-flush_header}
use oblogproxy.Event.Checksum.{write_checksum, write_checksum-append, checksum_bytes}
use oblogproxy.Event.Memory.{overlay-exact}
use oblogproxy.Event.Rows.{bitmap_len}
use oblogproxy.Event.Rows.RoundTrip.{copy_all}
use oblogproxy.Event.TableMap.{
  TableMapEvent, int32_max, body, flush_to_buff, read_body, deserialize,
}

pub record IsValid (e : TableMapEvent) (column_type metadata null_bits : List ℕ) : Type 0 where
  pub db_sized : length e.db_name ≡ e.db_len
  pub tb_sized : length e.tb_name ≡ e.tb_len
  pub types_there : e.column_type ≡ some column_type
  pub types_sized : length column_type ≡ e.column_count
  pub metadata_there : e.metadata ≡ some metadata
  pub metadata_sized : length metadata ≡ e.metadata_len
  pub bits_there : e.null_bits ≡ some null_bits
  pub bits_sized : length null_bits ≡ bitmap_len e.column_count
  pub header_fits : IsHeader e.header
  pub table_id_fits : e.table_id < 2 ^ 48
  pub flags_fit : e.flags < 2 ^ 16
  pub db_fits : e.db_len < 2 ^ 8
  pub tb_fits : e.tb_len < 2 ^ 8
  pub count_fits : e.column_count < 2 ^ 16
  pub metadata_fits : e.metadata_len < 2 ^ 16

-- What was written, in its parts.
abbrev pub parts : TableMapEvent → (column_type metadata null_bits : List ℕ) → List ℕ
parts e column_type metadata null_bits =
    int6store e.table_id
    ++ (int2store e.flags
        ++ (int1store e.db_len
            ++ (e.db_name
                ++ (0
                    ∷ (int1store e.tb_len
                        ++ (e.tb_name
                            ++ (0
                                ∷ (packet_store_length e.column_count
                                    ++ (column_type
                                        ++ (packet_store_length e.metadata_len
                                            ++ (metadata ++ null_bits)))))))))))

module _ (fresh : ℕ → List ℕ) (e : TableMapEvent) (column_type metadata null_bits : List ℕ)
    (v : IsValid e column_type metadata null_bits) where
  body-parts :
      ((n : ℕ) → length (fresh n) ≡ n)
      → body fresh e ≡ some (parts e column_type metadata null_bits)
  unfolding body
  body-parts sizes =
      rw
        (
          v.types_there,
          v.metadata_there,
          v.bits_there,
          copy_all column_type e.column_count v.types_sized,
          copy_all metadata e.metadata_len v.metadata_sized,
          copy_all null_bits (bitmap_len e.column_count) v.bits_sized,
          write_lenenc_uint-packet_store_length int32_max e.column_count (omega arith)
              (inl v.count_fits),
          write_lenenc_uint-packet_store_length int32_max e.metadata_len (omega arith)
              (inl v.metadata_fits),
          ← v.db_sized,
          ← v.tb_sized,
          overlay-exact fresh e.db_name (sizes (length e.db_name + 1)),
          overlay-exact fresh e.tb_name (sizes (length e.tb_name + 1)),
        )
        (simp append_assoc refl)

  read_body-parts :
      (rest : List ℕ)
      → run
          (read_body fresh e.checksum_flag e.header)
          (parts e column_type metadata null_bits ++ rest)
        ≡ some (record e {
          column_type = some (fresh e.metadata_len);
          metadata = none;
          null_bits = some (fresh (bitmap_len e.column_count));
        })
  unfolding read_body
  read_body-parts rest = simp append_assoc (
      rw (
        int6load-int6store e.table_id _ v.table_id_fits,
        run,
        ◌>>=◌,
        int2load-int2store e.flags _ v.flags_fit,
        ◌>>=◌,
        int1load-int1store e.db_len _ v.db_fits,
        ◌>>=◌,
        load_bytes-append e.db_len e.db_name _ v.db_sized,
        ◌>>=◌,
        int1load-int1store e.tb_len _ v.tb_fits,
        ◌>>=◌,
        load_bytes-append e.tb_len e.tb_name _ v.tb_sized,
        ◌>>=◌,
        get_lenenc_uint-packet_store_length e.column_count _ (omega (arith, v.count_fits)),
        ◌>>=◌,
        drop_exact e.column_count column_type _ v.types_sized,
        get_lenenc_uint-packet_store_length e.metadata_len _ (omega (arith, v.metadata_fits)),
        ◌>>=◌,
      ))

-- An event in range is written whole. It is read back without its column types, its metadata and
-- its null bits: the first and the last are memory that nothing was written to, as long as the
-- metadata and the bits, and the metadata is a null pointer.
pub deserialize-flush_to_buff_table_map :
    (fresh : ℕ → List ℕ) (crc32 : List ℕ → ℕ) (e : TableMapEvent)
    (column_type metadata null_bits rest : List ℕ)
    → ((n : ℕ) → length (fresh n) ≡ n)
    → IsValid e column_type metadata null_bits
    → (bs : List ℕ) × (flush_to_buff fresh crc32 e ≡ some bs)
      × (deserialize fresh e.checksum_flag (bs ++ rest)
          ≡ some (record e {
            column_type = some (fresh e.metadata_len);
            metadata = none;
            null_bits = some (fresh (bitmap_len e.column_count));
          }))
unfolding flush_to_buff deserialize
deserialize-flush_to_buff_table_map fresh crc32 e column_type metadata null_bits rest sizes v = (
  write_checksum crc32 e.checksum_flag
      (flush_header e.header ++ parts e column_type metadata null_bits),
  rw (body-parts fresh e column_type metadata null_bits v sizes) refl,
  rw (write_checksum-append crc32) (
      simp append_assoc (
        rw (deserialize_header-flush_header e.header _ v.header_fits, run, ◌>>=◌)
          (simp append_assoc at read_body-parts fresh e column_type metadata null_bits v (
            checksum_bytes crc32 e.checksum_flag
              (flush_header e.header ++ parts e column_type metadata null_bits)
            ++ rest)))),
)
