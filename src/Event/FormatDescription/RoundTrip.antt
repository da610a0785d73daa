-- ===== src/Event/FormatDescription/RoundTrip.antt =====
-- What FormatDescriptionEvent writes, and reading it back.
use oblogproxy.Common.{
  ℕ, suc, zero, ◌+◌, ◌-◌, ◌^◌, ◌<◌, ◌≤◌, ◌≡◌, refl, ap, List, [], ◌∷◌, ◌++◌, some, true, leb,
  if◌then◌else◌, arith, length, append_assoc, length-append, length-replicate, take, replicate, All,
  inl, inr, Bool-cases,
}
use oblogproxy.Bytes.{◌>>=◌, run}
use oblogproxy.Bytes.RoundTrip.{
  load_bytes-append, int1load-int1store, int2load-int2store, int4load-int4store,
}
use oblogproxy.Event.Header.{
  OblogEventHeader, IsHeader, flush_header, common_header_length, store_at-flags,
  deserialize_header-flush_header,
}
use oblogproxy.Event.Checksum.{checksum_bytes, write_checksum-append}
use oblogproxy.Event.Memory.{c_string, NonZero, c_string-append}
use oblogproxy.Event.FormatDescription.{
  FormatDescriptionEvent, st_server_ver_len, log_event_types, server_version_field, header_lens,
  body, in_use, flush_to_buff, read_lens, deserialize,
}

-- The header with the in-use mark, and all other flags beside it, taken away.
abbrev pub cleared : OblogEventHeader → OblogEventHeader
cleared h = if in_use h then record h { flags = 0 } else h

-- The event is written with its flags as they are; the checksum behind it is that of the event with
-- the flags cleared, if the in-use mark was set.
pub flush_to_buff-cleared :
    (crc32 : List ℕ → ℕ) (e : FormatDescriptionEvent)
    → flush_to_buff crc32 e
      ≡ flush_header e.header
        ++ (body e
            ++ checksum_bytes crc32 e.checksum_flag (flush_header (cleared e.header) ++ body e))
unfolding flush_to_buff
flush_to_buff-cleared crc32 e = elim (Bool-cases (in_use e.header)) [
  | inl marked ↦ rw (
    marked,
    store_at-flags e.header 0 (body e),
    write_checksum-append crc32,
    append_assoc (flush_header (record e.header { flags = 0 })) (body e) _,
    store_at-flags (record e.header { flags = 0 }) e.header.flags _,
  )
  | inr plain ↦
      rw (plain, write_checksum-append crc32, append_assoc (flush_header e.header) (body e) _)
]

pub record IsValid (e : FormatDescriptionEvent) : Type 0 where
  pub header_fits : IsHeader e.header
  pub has_room : common_header_length + 57 + log_event_types ≤ e.header.event_length
  pub version_fits : e.version < 2 ^ 16
  pub server_version_fits : length e.server_version < st_server_ver_len
  pub server_version_text : All NonZero e.server_version
  pub timestamp_fits : e.timestamp < 2 ^ 32
  pub header_len_fits : e.header_len < 2 ^ 8
  pub lens_counted : length e.event_type_header_len ≡ log_event_types
  pub lens_fit : All (λ n. n < 2 ^ 8) e.event_type_header_len
  pub checksum_flag_fits : e.checksum_flag < 2 ^ 8

c_string_self : (s : List ℕ) → All NonZero s → c_string s ≡ s
unfolding c_string
c_string_self [] h = refl
c_string_self (b ∷ s) (h, hs) = ground (arith, c_string_self s hs)

take-short : (n : ℕ) (s : List ℕ) → length s ≤ n → take n s ≡ s
take-short zero [] h = refl
take-short zero (b ∷ s) h = elim h [ ]
take-short (suc n) [] h = refl
take-short (suc n) (b ∷ s) h = ap (◌∷◌ b) (take-short n s (omega arith))

module _ (s : List ℕ) (fits : length s < st_server_ver_len) (text : All NonZero s) where
  padded : server_version_field s ≡ s ++ 0 ∷ replicate (st_server_ver_len - 1 - length s) 0
  unfolding server_version_field
  padded =
      rw
        (c_string_self s text, take-short (st_server_ver_len - 1) s (omega (arith, fits)), rest_suc)
    where
      rest_suc : st_server_ver_len - length s ≡ suc (st_server_ver_len - 1 - length s)
      rest_suc = omega (arith, fits)

  length-field : length (server_version_field s) ≡ st_server_ver_len
  length-field = rw padded (
      omega (
        arith,
        fits,
        length-append s (0 ∷ replicate (st_server_ver_len - 1 - length s) 0),
        length-replicate {A = ℕ} (st_server_ver_len - 1 - length s) 0,
      ))

  c_string-field : c_string (server_version_field s) ≡ s
  c_string-field = rw padded (c_string-append s _ text)

read_lens-header_lens :
    (ns : List ℕ) (rest : List ℕ)
    → All (λ n. n < 2 ^ 8) ns
    → read_lens (length ns) (header_lens ns ++ rest) ≡ some (ns, rest)
unfolding read_lens header_lens
read_lens-header_lens [] rest h = refl
read_lens-header_lens (n ∷ ns) rest (h, hs) =
    simp append_assoc (
      rw (int1load-int1store n (header_lens ns ++ rest) h, ◌>>=◌, read_lens-header_lens ns rest hs))

read_lens-counted :
    (n : ℕ) (ns : List ℕ) (rest : List ℕ)
    → length ns ≡ n
    → All (λ m. m < 2 ^ 8) ns
    → read_lens n (header_lens ns ++ rest) ≡ some (ns, rest)
read_lens-counted n ns rest counted h = rw (← counted) (read_lens-header_lens ns rest h)

has_room_leb :
    (n : ℕ)
    → common_header_length + 57 + log_event_types ≤ n
    → leb (common_header_length + 57 + log_event_types) n ≡ true
has_room_leb n h = ground arith

-- An event in range is read back from what `flush_to_buff` wrote, whatever follows it; the
-- checksum's flag is taken from the event.
pub deserialize-flush_to_buff_format_description :
    (crc32 : List ℕ → ℕ) (e : FormatDescriptionEvent) (rest : List ℕ)
    → IsValid e
    → deserialize (flush_to_buff crc32 e ++ rest) ≡ some e
unfolding deserialize
deserialize-flush_to_buff_format_description crc32 e rest v = rw (flush_to_buff-cleared crc32 e) (
    simp append_assoc (
      rw (
        deserialize_header-flush_header e.header _ v.header_fits,
        run,
        ◌>>=◌,
        int2load-int2store e.version _ v.version_fits,
        ◌>>=◌,
        load_bytes-append st_server_ver_len (server_version_field e.server_version) _
            (length-field e.server_version v.server_version_fits v.server_version_text),
        ◌>>=◌,
        int4load-int4store e.timestamp _ v.timestamp_fits,
        ◌>>=◌,
        int1load-int1store e.header_len _ v.header_len_fits,
        ◌>>=◌,
        has_room_leb e.header.event_length v.has_room,
        ◌>>=◌,
        read_lens-counted log_event_types e.event_type_header_len _ v.lens_counted v.lens_fit,
        ◌>>=◌,
        int1load-int1store e.checksum_flag _ v.checksum_flag_fits,
        ◌>>=◌,
        c_string-field e.server_version v.server_version_fits v.server_version_text,
      )))
