-- ===== src/Event/Query.antt =====
-- QueryEvent. `_is_ddl` never reaches a buffer.
use oblogproxy.Common.{
  ℕ, ◌+◌, ◌-◌, ◌%◌, ◌^◌, ◌<◌, ◌≡◌, ◌∙◌, List, refl, [], ◌∷◌, ◌++◌, Option, some, true, ◌==◌, arith,
  length, append_assoc, length-append, eq→==, take, All, take-length,
}
use oblogproxy.Bytes.{
  Read, ◌>>=◌, ◌>>◌, pure, assert, run, load_bytes, int1store, int2store, int4store, int1load,
  int2load, int4load,
}
use oblogproxy.Bytes.RoundTrip.{
  load_bytes-append, int1load-int1store, int2load-int2store, int4load-int4store, store_lengths,
}
use oblogproxy.Event.Header.{
  OblogEventHeader, flush_header, deserialize_header, common_header_length,
}
use oblogproxy.Event.Checksum.{ObLogEvent, write_checksum, get_checksum_len}
use oblogproxy.Event.Framing.{IsEvent, run_framed}
use oblogproxy.Event.Memory.{
  c_string, write_null_terminate_string, overlay, overlay-exact, NonZero, c_string-text,
  load_bytes-text,
}

pub record QueryEvent : Type 0 where
  pub event : ObLogEvent
  pub open event use *
  pub thread_id : ℕ
  pub query_exec_time : ℕ
  pub db_len : ℕ
  pub error_code : ℕ
  pub status_var_len : ℕ
  pub status_vars : List ℕ
  pub dbname : List ℕ
  pub sql_statment_len : ℕ
  pub sql_statment : List ℕ

abbrev body : (ℕ → List ℕ) → QueryEvent → List ℕ
body fresh e =
    int4store e.thread_id
    ++ (int4store e.query_exec_time
        ++ (int1store e.db_len
            ++ (int2store e.error_code
                ++ (int2store e.status_var_len
                    ++ (take e.status_var_len e.status_vars
                        ++ (overlay fresh (e.db_len + 1)
                              (write_null_terminate_string (e.db_len + 1) e.dbname)
                            ++ take e.sql_statment_len e.sql_statment))))))

pub flush_to_buff : (List ℕ → ℕ) → (ℕ → List ℕ) → QueryEvent → List ℕ
flush_to_buff crc32 fresh e =
    write_checksum crc32 e.checksum_flag (flush_header e.header ++ body fresh e)

-- The status variables and the name of the database are taken as C strings out of memory of exactly
-- their size; `heap` is what lies behind it.
read_body : List ℕ → ℕ → OblogEventHeader → Read QueryEvent
read_body heap flag header = do
  thread_id ← int4load
  query_exec_time ← int4load
  db_len ← int1load
  error_code ← int2load
  status_var_len ← int2load
  status_var ← load_bytes status_var_len
  db_name ← load_bytes (db_len + 1)
  let pos = common_header_length + 13 + status_var_len + db_len + 1
  let sql_statment_len = (header.event_length + 2 ^ 64 - get_checksum_len flag - pos) % 2 ^ 64
  sql_statment ← load_bytes sql_statment_len
  assert ((pos + sql_statment_len) % 2 ^ 64 + get_checksum_len flag == header.event_length)
  pure (record {
    event = record { header = header; checksum_flag = flag };
    thread_id = thread_id;
    query_exec_time = query_exec_time;
    db_len = db_len;
    error_code = error_code;
    status_var_len = status_var_len;
    status_vars = c_string (status_var ++ heap);
    dbname = c_string (db_name ++ heap);
    sql_statment_len = sql_statment_len;
    sql_statment = sql_statment;
  })

pub deserialize : List ℕ → ℕ → List ℕ → Option QueryEvent
unfolding read_body
deserialize heap flag = run (deserialize_header >>= read_body heap flag)

abbrev body_len : QueryEvent → ℕ
body_len e = 14 + length e.status_vars + length e.dbname + length e.sql_statment

pub record IsValid (e : QueryEvent) : Type 0 where
  pub event_fits : IsEvent e.event (body_len e)
  pub thread_id_fits : e.thread_id < 2 ^ 32
  pub query_exec_time_fits : e.query_exec_time < 2 ^ 32
  pub error_code_fits : e.error_code < 2 ^ 16
  pub status_vars_sized : e.status_var_len ≡ length e.status_vars
  pub status_vars_fit : length e.status_vars < 2 ^ 16
  pub dbname_sized : e.db_len ≡ length e.dbname
  pub dbname_fits : length e.dbname < 2 ^ 8
  pub dbname_text : All NonZero e.dbname
  pub sql_statment_sized : e.sql_statment_len ≡ length e.sql_statment

module _ (crc32 : List ℕ → ℕ) (fresh : ℕ → List ℕ) (heap : List ℕ) (e : QueryEvent) (rest : List ℕ)
    (fresh_sized : (n : ℕ) → length (fresh n) ≡ n) (v : IsValid e) where
  abbrev exact : List ℕ
  exact =
      int4store e.thread_id
      ++ (int4store e.query_exec_time
          ++ (int1store (length e.dbname)
              ++ (int2store e.error_code
                  ++ (int2store (length e.status_vars)
                      ++ (e.status_vars ++ ((e.dbname ++ 0 ∷ []) ++ e.sql_statment))))))

  body-exact : body fresh e ≡ exact
  body-exact = rw (
    v.status_vars_sized,
    v.dbname_sized,
    v.sql_statment_sized,
    take-length e.status_vars,
    take-length e.sql_statment,
    overlay-exact fresh e.dbname (fresh_sized _),
  )

  length-body : length (body fresh e) ≡ body_len e
  length-body = rw body-exact (simp (length-append, store_lengths) (omega arith))

  sql_statment_fits :
      length e.sql_statment
      ≡ (e.header.event_length
          + 2 ^ 64
          - get_checksum_len e.checksum_flag
          - (common_header_length + 13 + length e.status_vars + length e.dbname + 1))
        % 2 ^ 64
  sql_statment_fits = omega (arith, v.event_fits.sized, v.event_fits.header_fits.event_length_fits)

  ends_right :
      ((common_header_length
              + 13
              + length e.status_vars
              + length e.dbname
              + 1
              + length e.sql_statment)
            % 2 ^ 64
          + get_checksum_len e.checksum_flag
        == e.header.event_length)
      ≡ true
  ends_right =
      eq→== _ _ (omega (arith, v.event_fits.sized, v.event_fits.header_fits.event_length_fits))

  -- An event in range, with no NUL in the name of its database, is read back from what
  -- `flush_to_buff` wrote, all but the status variables: these end at their first NUL, and go on
  -- into the memory behind their buffer if they have none.
  pub deserialize-flush_to_buff_query :
      deserialize heap e.checksum_flag (flush_to_buff crc32 fresh e ++ rest)
      ≡ some (record e { status_vars = c_string (e.status_vars ++ heap) })
  unfolding deserialize flush_to_buff
  deserialize-flush_to_buff_query =
      run_framed crc32 e.event (body fresh e) rest _ (rw length-body v.event_fits)
      ∙ rw body-exact (
          simp append_assoc (
            rw (
              int4load-int4store e.thread_id _ v.thread_id_fits,
              run,
              ◌>>=◌,
              int4load-int4store e.query_exec_time _ v.query_exec_time_fits,
              ◌>>=◌,
              int1load-int1store (length e.dbname) _ v.dbname_fits,
              ◌>>=◌,
              int2load-int2store e.error_code _ v.error_code_fits,
              ◌>>=◌,
              int2load-int2store (length e.status_vars) _ v.status_vars_fit,
              ◌>>=◌,
              load_bytes-append (length e.status_vars) e.status_vars _ refl,
              ◌>>=◌,
              load_bytes-text e.dbname _,
              ◌>>=◌,
              load_bytes-append _ e.sql_statment _ sql_statment_fits,
              ◌>>=◌,
              ← sql_statment_fits,
              ends_right,
              ← sql_statment_fits,
              c_string-text e.dbname heap v.dbname_text,
              v.status_vars_sized,
              v.dbname_sized,
              v.sql_statment_sized,
            )))
