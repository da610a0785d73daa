-- ===== src/DataType/Filled.antt =====
-- The bits that `fill_bitmap` clears, and the row behind them.
use oblogproxy.Common.{
  ℕ, zero, suc, ◌+◌, ◌-◌, ◌*◌, ◌/◌, ◌%◌, ◌^◌, ◌<◌, ◌≡◌, ◌⊎◌, inl, inr, refl, sym, ap, ◌∙◌, List, [],
  ◌∷◌, ◌++◌, length-append, ◌≢◌, All, Bool, Option, true, false, none, some, length, arith,
  Bool-cases, ◌==◌, get_elem?,
}
use oblogproxy.Event.Rows.{RowsEventType}
use oblogproxy.DataType.Value.{
  Converters, Column, counted, val_of_type, get_column_val_bytes, zeros, last_as, fill_bitmap,
  Image, Values, col_val_bytes,
}
use oblogproxy.DataType.Bitmaps.{nth_bit, byte_bit, bit_at}
use oblogproxy.DataType.Nulls.{
  NullBits, IsClear, row_bytes, row_bytes-null, row_bytes-value, text-cases,
  serialize_before-Serialized,
}
use oblogproxy.DataType.{FieldType, ColMeta, ◌>>=◌, injective, bind-some}

nth_bit-zero : (k : ℕ) → nth_bit k 0 ≡ 0
nth_bit-zero zero = refl
nth_bit-zero (suc k) = nth_bit-zero k

nth_bit-shifted : (k r x : ℕ) → k < r → nth_bit k (x * 2 ^ r) ≡ 0
nth_bit-shifted k zero x h = absurd (omega arith)
nth_bit-shifted zero (suc r) x h =
    let power : x * 2 ^ suc r ≡ 2 * (x * 2 ^ r) = doubled x r in omega arith
  where
    doubled : (x r : ℕ) → x * 2 ^ suc r ≡ 2 * (x * 2 ^ r)
    doubled x r = let power : 2 ^ suc r ≡ 2 * 2 ^ r = omega arith in rw power (grind arith)
nth_bit-shifted (suc k) (suc r) x h =
    ap (nth_bit k) (halved x r) ∙ nth_bit-shifted k r x (omega arith)
  where
    halved : (x r : ℕ) → x * 2 ^ suc r / 2 ≡ x * 2 ^ r
    halved x r =
        let power : 2 ^ suc r ≡ 2 * 2 ^ r = omega arith in
        let doubled : x * 2 ^ suc r ≡ 2 * (x * 2 ^ r) = rw power (grind arith) in omega arith

-- The last byte of the bitmap has `r` clear bits, and the others are set.
last_byte : (r : ℕ) → r < 8 → (x : ℕ) × (255 * 2 ^ r % 256 ≡ x * 2 ^ r)
last_byte zero h = (255, refl)
last_byte (suc zero) h = (127, refl)
last_byte (suc (suc zero)) h = (63, refl)
last_byte (suc (suc (suc zero))) h = (31, refl)
last_byte (suc (suc (suc (suc zero)))) h = (15, refl)
last_byte (suc (suc (suc (suc (suc zero))))) h = (7, refl)
last_byte (suc (suc (suc (suc (suc (suc zero)))))) h = (3, refl)
last_byte (suc (suc (suc (suc (suc (suc (suc zero))))))) h = (1, refl)
last_byte (suc (suc (suc (suc (suc (suc (suc (suc r)))))))) h = absurd (omega arith)

zeros-bit : (n : ℕ) (bits : List ℕ) (k j : ℕ) → k < n → byte_bit (get_elem? (zeros n bits) k) j ≡ 0
zeros-bit zero bits k j h = absurd (omega arith)
zeros-bit (suc n) [] k j h = refl
zeros-bit (suc n) (b ∷ bits) zero j h = nth_bit-zero j
zeros-bit (suc n) (b ∷ bits) (suc k) j h = zeros-bit n bits k j (omega arith)

length-zeros : (n : ℕ) (bits : List ℕ) → length (zeros n bits) ≡ length bits
length-zeros zero bits = refl
length-zeros (suc n) [] = refl
length-zeros (suc n) (b ∷ bits) = ap suc (length-zeros n bits)

length-last_as : (v : ℕ) (bits : List ℕ) → length (last_as v bits) ≡ length bits
length-last_as v [] = refl
length-last_as v (b ∷ []) = refl
length-last_as v (b ∷ c ∷ bits) = ap suc (length-last_as v (c ∷ bits))

last_as-before :
    (v : ℕ) (bits : List ℕ) (k : ℕ)
    → suc k < length bits
    → get_elem? (last_as v bits) k ≡ get_elem? bits k
last_as-before v [] k h = absurd (omega arith)
last_as-before v (b ∷ []) k h = absurd (omega arith)
last_as-before v (b ∷ c ∷ bits) zero h = refl
last_as-before v (b ∷ c ∷ bits) (suc k) h = last_as-before v (c ∷ bits) k (omega arith)

last_as-last :
    (v : ℕ) (bits : List ℕ) (k : ℕ) → suc k ≡ length bits → get_elem? (last_as v bits) k ≡ some v
last_as-last v [] k h = absurd (omega arith)
last_as-last v (b ∷ []) zero h = refl
last_as-last v (b ∷ []) (suc k) h = absurd (omega arith)
last_as-last v (b ∷ c ∷ bits) zero h = absurd (omega arith)
last_as-last v (b ∷ c ∷ bits) (suc k) h = last_as-last v (c ∷ bits) k (omega arith)

pub length-fill_bitmap : (count : ℕ) (bits : List ℕ) → length (fill_bitmap count bits) ≡ length bits
unfolding fill_bitmap
length-fill_bitmap count bits = elim (Bool-cases (count / 8 == length bits - 1)) [
  | inl is_last ↦
      rw is_last (length-last_as _ (zeros (count / 8) bits) ∙ length-zeros (count / 8) bits)
  | inr not_last ↦ rw not_last (length-zeros (count / 8) bits)
]

-- In memory of as many bytes as `count` bits need, those bits are clear.
pub fill_bitmap-IsClear :
    (count : ℕ) (bits : List ℕ)
    → length bits ≡ (count + 7) / 8
    → IsClear 0 count (fill_bitmap count bits)
unfolding fill_bitmap
fill_bitmap-IsClear count bits size j low high = elim (Bool-cases (count / 8 == length bits - 1)) [
  | inl is_last ↦ rw is_last (in_last (ground arith) (Bool-cases (j / 8 == count / 8)))
  | inr not_last ↦ rw not_last (zeros-bit (count / 8) bits (j / 8) (j % 8) (ground arith))
]
  where
    v : ℕ
    v = 255 * 2 ^ (count % 8) % 256

    in_last :
        count / 8 ≡ length bits - 1
        → (j / 8 == count / 8 ≡ true) ⊎ (j / 8 == count / 8 ≡ false)
        → bit_at (last_as v (zeros (count / 8) bits)) j ≡ 0
    in_last at_last (inl same) =
        let same_byte : j / 8 ≡ count / 8 = ground arith in
        let (x, e) = last_byte (count % 8) (omega arith) in
        ap (λ r. byte_bit r (j % 8))
          (last_as-last v (zeros (count / 8) bits) (j / 8)
            (omega (arith, length-zeros (count / 8) bits)))
        ∙ ap (nth_bit (j % 8)) e
        ∙ nth_bit-shifted (j % 8) (count % 8) x (omega arith)
    in_last at_last (inr differ) =
        let lower : j / 8 < count / 8 = ground arith in
        ap (λ r. byte_bit r (j % 8))
          (last_as-before v (zeros (count / 8) bits) (j / 8)
            (omega (arith, length-zeros (count / 8) bits)))
        ∙ zeros-bit (count / 8) bits (j / 8) (j % 8) lower

counted-length : (o : Option (List ℕ)) (b : List ℕ) (n : ℕ) → counted o ≡ some (b, n) → n ≡ length b
counted-length none b n e = cc
counted-length (some c) b n e =
    let same = injective e in
    sym (ap (λ (v : List ℕ × ℕ). v.1) same) ∙ ap (λ (v : List ℕ × ℕ). length v.0) same

-- For a value of the type NULL the number 1 is returned, and for a text that is no geometry that of the
-- failure, where no bytes are pushed.
abbrev pub IsCounted : FieldType → Type 0
IsCounted t = (t ≢ FieldType.null) × (t ≢ FieldType.geometry)

module _ (fresh : ℕ → List ℕ) (others : Converters) where
  val_of_type-counts :
      (t : FieldType) (m : ColMeta) (text : List ℕ) (d : Bool) (b : List ℕ) (n : ℕ)
      → IsCounted t
      → val_of_type fresh others t m text d ≡ some (b, n)
      → n ≡ length b
  unfolding val_of_type
  val_of_type-counts FieldType.decimal m text d b n other e = counted-length _ b n e
  val_of_type-counts FieldType.tiny m text d b n other e = counted-length _ b n e
  val_of_type-counts FieldType.short m text d b n other e = counted-length _ b n e
  val_of_type-counts FieldType.long m text d b n other e = counted-length _ b n e
  val_of_type-counts FieldType.float m text d b n other e = counted-length _ b n e
  val_of_type-counts FieldType.double m text d b n other e = counted-length _ b n e
  val_of_type-counts FieldType.null m text d b n other e = absurd (other.0 refl)
  val_of_type-counts FieldType.timestamp m text d b n other e = counted-length _ b n e
  val_of_type-counts FieldType.longlong m text d b n other e = counted-length _ b n e
  val_of_type-counts FieldType.int24 m text d b n other e = counted-length _ b n e
  val_of_type-counts FieldType.date m text d b n other e = counted-length _ b n e
  val_of_type-counts FieldType.time m text d b n other e = counted-length _ b n e
  val_of_type-counts FieldType.datetime m text d b n other e = counted-length _ b n e
  val_of_type-counts FieldType.year m text d b n other e = counted-length _ b n e
  val_of_type-counts FieldType.newdate m text d b n other e = counted-length _ b n e
  val_of_type-counts FieldType.varchar m text d b n other e = counted-length (some _) b n e
  val_of_type-counts FieldType.bit m text d b n other e = counted-length _ b n e
  val_of_type-counts FieldType.timestamp2 m text d b n other e = counted-length (some []) b n e
  val_of_type-counts FieldType.datetime2 m text d b n other e = counted-length (some []) b n e
  val_of_type-counts FieldType.time2 m text d b n other e = counted-length (some []) b n e
  val_of_type-counts FieldType.json m text d b n other e = counted-length _ b n e
  val_of_type-counts FieldType.newdecimal m text d b n other e = counted-length _ b n e
  val_of_type-counts FieldType.enum m text d b n other e = counted-length (some _) b n e
  val_of_type-counts FieldType.set m text d b n other e = counted-length _ b n e
  val_of_type-counts FieldType.tiny_blob m text d b n other e = counted-length (some _) b n e
  val_of_type-counts FieldType.medium_blob m text d b n other e = counted-length (some _) b n e
  val_of_type-counts FieldType.long_blob m text d b n other e = counted-length (some _) b n e
  val_of_type-counts FieldType.blob m text d b n other e = counted-length (some _) b n e
  val_of_type-counts FieldType.var_string m text d b n other e = counted-length (some _) b n e
  val_of_type-counts FieldType.string m text d b n other e = counted-length (some _) b n e
  val_of_type-counts FieldType.geometry m text d b n other e = absurd (other.1 refl)

  -- The values of the columns that are not NULL one behind the other; `none` if one is not converted.
  abbrev pub row_values : List Column → Option (List ℕ)
  row_values [] = some []
  row_values (c ∷ cs) = elim (c.text) [
    | none ↦ row_values cs
    | some text ↦ get_column_val_bytes fresh others c.meta text false >>= λ v.
        row_values cs >>= λ w. some (v.0 ++ w)
  ]

  row_values-null :
      (c : Column) (cs : List Column) → c.text ≡ none → row_values (c ∷ cs) ≡ row_values cs
  row_values-null c cs e = rw e refl

  row_values-value :
      (c : Column) (cs : List Column) (text : List ℕ)
      → c.text ≡ some text
      → row_values (c ∷ cs) ≡ (
          get_column_val_bytes fresh others c.meta text false >>= λ v.
          row_values cs >>= λ w. some (v.0 ++ w))
  row_values-value c cs text e = rw e refl

  one_more :
      (c : Column) (cs : List Column) (text v w bytes : List ℕ) (k : ℕ)
      → c.text ≡ some text
      → get_column_val_bytes fresh others c.meta text false ≡ some (v, k)
      → k ≡ length v
      → row_bytes fresh others cs ≡ some (w, length w)
      → v ++ w ≡ bytes
      → row_bytes fresh others (c ∷ cs) ≡ some (bytes, length bytes)
  one_more c cs text v w bytes k set e_v sized e_w both =
      row_bytes-value fresh others c cs text set
      ∙ rw (e_v, e_w)
          (ap some (
            ap (λ n. (v ++ w, n)) (omega (arith, sized, length-append v w))
            ∙ ap (λ b. (b, length b)) both))

  row_bytes-row_values :
      (cs : List Column) (bytes : List ℕ)
      → All (λ (c : Column). IsCounted c.meta.type) cs
      → row_values cs ≡ some bytes
      → row_bytes fresh others cs ≡ some (bytes, length bytes)
  row_bytes-row_values [] bytes h e = ap (λ b. some (b, length b)) (injective e)
  row_bytes-row_values (c ∷ cs) bytes (h, hs) e = elim (text-cases fresh others c.text) [
    | inl unset ↦
        row_bytes-null fresh others c cs unset
        ∙ row_bytes-row_values cs bytes hs (sym (row_values-null c cs unset) ∙ e)
    | inr (text, set) ↦
        let (v, e_v, rest) = bind-some _ _ bytes (sym (row_values-value c cs text set) ∙ e) in
        let (w, e_w, both) = bind-some _ _ bytes rest in
        one_more c cs text v.0 w bytes v.1 set e_v
          (val_of_type-counts c.meta.type c.meta text false v.0 v.1 h
            (unfold get_column_val_bytes in e_v))
          (row_bytes-row_values cs w hs e_w) (injective both)
  ]

  -- With values that are converted and memory `bits` that has a bit for each column, the image that
  -- `col_val_bytes` makes for a delete, from no values and the filled bitmap, has the values that are
  -- not NULL one behind the other, counts these bytes modulo 2 ^ 64 if no column has the type NULL or
  -- is a geometry,
  -- and the bits of the columns say which are NULL; there is no bitmap for differences.
  pub col_val_bytes-delete :
      (cs : List Column) (bits bytes : List ℕ) (after : Image)
      → length bits ≡ (length cs + 7) / 8
      → All (λ (c : Column). IsCounted c.meta.type) cs
      → row_values cs ≡ some bytes
      → after.pos ≡ 0
      → (v : Values) × (col_val_bytes fresh others RowsEventType.delete cs []
            (record { values = []; pos = 0; null_bits = fill_bitmap (length cs) bits })
            after
          ≡ some v)
        × (v.before.values ≡ bytes)
        × NullBits cs 0 v.before.null_bits
        × (v.col_bytes ≡ length bytes % 2 ^ 64)
        × (v.after ≡ after)
        × (v.partial_bitmap ≡ none)
  unfolding col_val_bytes
  col_val_bytes-delete cs bits bytes after size typed converted no_after =
      let (s', e, r) =
        serialize_before-Serialized fresh others cs 0
          (record { values = []; pos = 0; null_bits = fill_bitmap (length cs) bits }) bytes
          (length bytes) (omega (arith, length-fill_bitmap (length cs) bits))
          (fill_bitmap-IsClear (length cs) bits size)
          (row_bytes-row_values cs bytes typed converted) in
      (
        record {
          before = s';
          after = after;
          partial_bitmap = none;
          partial_cols_bytes = 0;
          col_bytes = (s'.pos + after.pos) % 2 ^ 64;
        },
        rw e refl,
        r.values_end,
        r.bits_end,
        total s'.pos after.pos r.counted_end no_after,
        refl,
        refl,
      )
    where
      total :
          (p q : ℕ)
          → p % 2 ^ 64 ≡ (0 + length bytes) % 2 ^ 64
          → q ≡ 0
          → (p + q) % 2 ^ 64 ≡ length bytes % 2 ^ 64
      total p q h k = omega arith
