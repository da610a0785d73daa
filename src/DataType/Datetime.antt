-- ===== src/DataType/Datetime.antt =====
-- The bytes of a DATETIME value.
use mathlib.Core.List.{reverse}
use oblogproxy.Common.{
  ℕ, zero, suc, ◌+◌, ◌-◌, ◌*◌, ◌/◌, ◌%◌, ◌^◌, ◌≤◌, ◌≡◌, refl, ap, ◌∙◌, List, ◌++◌, if◌then◌else◌,
  ◌==◌, Option, some, length, arith, append-nil, drop_all, length-append, le→leb,
}
use oblogproxy.Bytes.{le_bytes, be_int2store, be_int3store, be_int5store, int1store}
use oblogproxy.Bytes.Widths.{be_store-reverse}
use oblogproxy.Text.Decimal.{read_digits}
use oblogproxy.DataType.{ColMeta, ◌>>=◌, buffer_len, in_buffer}
use oblogproxy.DataType.Int.{pos, ◌-ℤ◌}
use oblogproxy.DataType.Numbers.{widened, get_number_len}
use oblogproxy.DataType.Signed.{cutout_or_pad_zero-fraction}
use oblogproxy.DataType.Dates.{
  IDate, fraction, packed_datetime, time_zero_five, convert_binlog_datetime,
}
use oblogproxy.DataType.Packing.{IsPackable, datetime_value, packed_datetime-value}
use oblogproxy.DataType.Moments.{Moment, HasNumbers, moment_text, moment_date, moment_read}

-- The bytes of a number, the upper one first.
abbrev pub be_bytes : ℕ → ℕ → List ℕ
be_bytes n v = reverse (le_bytes n v)

int1store-be_bytes : (v : ℕ) → int1store v ≡ be_bytes 1 v
unfolding int1store le_bytes
int1store-be_bytes v = refl

-- The first digits of a fraction, as many as the scale says.
abbrev pub first_digits : ℕ → ℕ → ℕ → ℕ
first_digits scale us p = us / 10 ^ (p - scale)

fraction-be_bytes :
    (scale us p : ℕ)
    → scale ≤ 6
    → scale % 2 ≡ 0
    → scale ≤ p
    → fraction scale us (pos p -ℤ pos (get_number_len us))
      ≡ be_bytes (scale / 2) (first_digits scale us p)
fraction-be_bytes zero us p small even enough = unfold le_bytes in refl
fraction-be_bytes (suc zero) us p small even enough = absurd (omega arith)
fraction-be_bytes (suc (suc zero)) us p small even enough =
    ap int1store (cutout_or_pad_zero-fraction us 2 p enough)
    ∙ int1store-be_bytes (first_digits 2 us p)
fraction-be_bytes (suc (suc (suc zero))) us p small even enough = absurd (omega arith)
fraction-be_bytes (suc (suc (suc (suc zero)))) us p small even enough =
    ap be_int2store (cutout_or_pad_zero-fraction us 4 p enough)
    ∙ (be_store-reverse (first_digits 4 us p)).0
fraction-be_bytes (suc (suc (suc (suc (suc zero))))) us p small even enough = absurd (omega arith)
fraction-be_bytes (suc (suc (suc (suc (suc (suc zero)))))) us p small even enough =
    ap be_int3store (cutout_or_pad_zero-fraction us 6 p enough)
    ∙ (be_store-reverse (first_digits 6 us p)).1
fraction-be_bytes (suc (suc (suc (suc (suc (suc (suc n))))))) us p small even enough =
    absurd (omega arith)

buffer_len-even :
    (base scale : ℕ) → scale ≤ 6 → scale % 2 ≡ 0 → buffer_len base scale ≡ some (base + scale / 2)
unfolding buffer_len
buffer_len-even base scale small even = ground arith

length-be_bytes : (n v : ℕ) → n ≤ 5 → length (be_bytes n v) ≡ n
unfolding le_bytes
length-be_bytes zero v h = refl
length-be_bytes (suc zero) v h = refl
length-be_bytes (suc (suc zero)) v h = refl
length-be_bytes (suc (suc (suc zero))) v h = refl
length-be_bytes (suc (suc (suc (suc zero)))) v h = refl
length-be_bytes (suc (suc (suc (suc (suc zero))))) v h = refl
length-be_bytes (suc (suc (suc (suc (suc (suc n)))))) v h = absurd (omega arith)

-- Memory that is written whole.
in_buffer-whole :
    (fresh : ℕ → List ℕ) (written : List ℕ) (n : ℕ)
    → length (fresh n) ≡ n
    → length written ≡ n
    → in_buffer fresh written n ≡ some written
in_buffer-whole fresh written n size whole = rw (le→leb (length written) n (omega (arith, whole))) (
    ap some (
      ap (λ bs. written ++ bs) (drop_all (length written) (fresh n) (omega (arith, size, whole)))
      ∙ append-nil written))

-- The text of a date and a time of day whose fields have the widths of a DATETIME value, with a
-- fraction of as many digits as the scale at least, is written for a scale of 0, 2, 4 or 6 as the
-- packed fields behind a set bit, in five bytes from the upper one down, and the first digits of the
-- fraction, in one byte for two of them.
pub convert_binlog_datetime-moment_text :
    (fresh : ℕ → List ℕ) (m : ColMeta) (t : Moment)
    → ((n : ℕ) → length (fresh n) ≡ n)
    → HasNumbers t
    → IsPackable (moment_date t)
    → m.scale ≤ 6
    → m.scale % 2 ≡ 0
    → m.scale ≤ length t.fraction
    → convert_binlog_datetime fresh m (moment_text t)
      ≡ some (
          be_bytes 5 (2 ^ 39 + datetime_value (moment_date t))
          ++ be_bytes
              (m.scale / 2)
              (first_digits m.scale (read_digits 0 t.fraction) (length t.fraction)))
unfolding convert_binlog_datetime
convert_binlog_datetime-moment_text fresh m t sizes numbers fields small even enough =
    ap (λ o. o >>= rest) (moment_read t numbers)
    ∙ ap (λ o. o >>= λ n. in_buffer fresh (written (moment_date t)) n)
        (buffer_len-even 5 m.scale small even)
    ∙ ap (λ bs. in_buffer fresh bs (5 + m.scale / 2)) bytes
    ∙ in_buffer-whole fresh _ (5 + m.scale / 2) (sizes (5 + m.scale / 2)) whole
  where
    tail : IDate → List ℕ
    tail d =
        fraction m.scale
          (widened (if m.scale % 2 == 0 then d.mill_second else d.mill_second * 10 % 2 ^ 32))
          d.prefix_zero_num

    written : IDate → List ℕ
    written d = be_int5store ((packed_datetime d + time_zero_five) % 2 ^ 64) ++ tail d

    rest : IDate → Option (List ℕ)
    rest d = buffer_len 5 m.scale >>= λ n. in_buffer fresh (written d) n

    packed :
        (packed_datetime (moment_date t) + time_zero_five) % 2 ^ 64
        ≡ 2 ^ 39 + datetime_value (moment_date t)
    packed = omega (
      arith,
      packed_datetime-value (moment_date t) fields,
      fields.months,
      fields.day,
      fields.hour,
      fields.minute,
      fields.second,
    )

    us :
        widened (
          if m.scale % 2 == 0
          then read_digits 0 t.fraction
          else read_digits 0 t.fraction * 10 % 2 ^ 32)
        ≡ read_digits 0 t.fraction
    us = ground (arith, even, numbers.fraction.small)

    whole :
        length (
          be_bytes 5 (2 ^ 39 + datetime_value (moment_date t))
          ++ be_bytes
              (m.scale / 2)
              (first_digits m.scale (read_digits 0 t.fraction) (length t.fraction)))
        ≡ 5 + m.scale / 2
    whole =
        length-append (be_bytes 5 (2 ^ 39 + datetime_value (moment_date t))) (
          be_bytes (m.scale / 2)
            (first_digits m.scale (read_digits 0 t.fraction) (length t.fraction)))
        ∙ omega (
          arith,
          length-be_bytes 5 (2 ^ 39 + datetime_value (moment_date t)) (omega arith),
          length-be_bytes (m.scale / 2)
              (first_digits m.scale (read_digits 0 t.fraction) (length t.fraction)) (omega arith),
        )

    bytes :
        written (moment_date t)
        ≡ be_bytes 5 (2 ^ 39 + datetime_value (moment_date t))
          ++ be_bytes
              (m.scale / 2)
              (first_digits m.scale (read_digits 0 t.fraction) (length t.fraction))
    bytes =
        ap (λ v. be_int5store v ++ tail (moment_date t)) packed
        ∙ ap (λ bs. bs ++ tail (moment_date t))
            (be_store-reverse (2 ^ 39 + datetime_value (moment_date t))).3
        ∙ ap (λ bs. be_bytes 5 (2 ^ 39 + datetime_value (moment_date t)) ++ bs)
            (ap (λ v. fraction m.scale v (moment_date t).prefix_zero_num) us
              ∙ fraction-be_bytes m.scale (read_digits 0 t.fraction) (length t.fraction) small even
                  enough)
