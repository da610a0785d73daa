-- ===== src/DataType/Nulls.antt =====
-- The bits of NULL that `fill_bitmap`, `serialize_before` and `serialize_after` leave.
use oblogproxy.Common.{
  ℕ, suc, ◌+◌, ◌*◌, ◌%◌, ◌^◌, ◌≤◌, ◌<◌, ◌≡◌, ◌⊎◌, inl, inr, refl, sym, ap, ◌∙◌, List, [], ◌∷◌, ◌++◌,
  false, Option, none, some, length, arith, append-nil, append_assoc,
}
use oblogproxy.DataType.{◌>>=◌, injective, bind-some}
use oblogproxy.DataType.Value.{
  Converters, Column, mark, Image, with_value, with_null_bits, before_column, serialize_before,
  get_column_val_bytes,
}
use oblogproxy.DataType.Bitmaps.{bit_at, mark-bit_at}

-- The bit of a column: is it NULL.
abbrev pub null_bit : Option (List ℕ) → ℕ
null_bit none = 1
null_bit (some text) = 0

-- The bits from `i` on are those of the columns.
abbrev pub NullBits : List Column → ℕ → List ℕ → Type 0
NullBits [] i bits = Unit
NullBits (c ∷ cs) i bits = (bit_at bits i ≡ null_bit c.text) × NullBits cs (suc i) bits

-- `count` bits from `i` on are clear.
abbrev pub IsClear : ℕ → ℕ → List ℕ → Type 0
IsClear i count bits = (j : ℕ) → i ≤ j → j < i + count → bit_at bits j ≡ 0

module _ (fresh : ℕ → List ℕ) (others : Converters) where
  -- The bytes of the columns that are not NULL one behind the other, and their length; `none` if one of
  -- them is not converted.
  abbrev pub row_bytes : List Column → Option (List ℕ × ℕ)
  row_bytes [] = some ([], 0)
  row_bytes (c ∷ cs) = elim (c.text) [
    | none ↦ row_bytes cs
    | some text ↦ get_column_val_bytes fresh others c.meta text false >>= λ v.
        row_bytes cs >>= λ w. some (v.0 ++ w.0, v.1 + w.1)
  ]

  -- What a loop over the columns from `i` on leaves.
  pub record Serialized (cs : List Column) (i : ℕ) (bytes : List ℕ) (n : ℕ) (s s' : Image)
      : Type 0 where
    pub values_end : s'.values ≡ s.values ++ bytes
    pub counted_end : s'.pos % 2 ^ 64 ≡ (s.pos + n) % 2 ^ 64
    pub bits_end : NullBits cs i s'.null_bits
    pub size_end : length s'.null_bits ≡ length s.null_bits
    pub same_before : (j : ℕ) → j < i → bit_at s'.null_bits j ≡ bit_at s.null_bits j
    pub same_behind : (j : ℕ) → i + length cs ≤ j → bit_at s'.null_bits j ≡ bit_at s.null_bits j

  counted_none : (pos k : ℕ) → 0 ≡ k → pos % 2 ^ 64 ≡ (pos + k) % 2 ^ 64
  counted_none pos k e = omega arith

  pub row_bytes-null :
      (c : Column) (cs : List Column) → c.text ≡ none → row_bytes (c ∷ cs) ≡ row_bytes cs
  row_bytes-null c cs e = rw e refl

  pub row_bytes-value :
      (c : Column) (cs : List Column) (text : List ℕ)
      → c.text ≡ some text
      → row_bytes (c ∷ cs) ≡ (
          get_column_val_bytes fresh others c.meta text false >>= λ v.
          row_bytes cs >>= λ w. some (v.0 ++ w.0, v.1 + w.1))
  row_bytes-value c cs text e = rw e refl

  before_column-null :
      (c : Column) (i : ℕ) (s : Image) (bits : List ℕ)
      → c.text ≡ none
      → mark s.null_bits i ≡ some bits
      → before_column fresh others c i s ≡ some (with_null_bits s bits)
  unfolding before_column
  before_column-null c i s bits e m = rw e (rw m refl)

  before_column-value :
      (c : Column) (i : ℕ) (s : Image) (text : List ℕ) (v : List ℕ × ℕ)
      → c.text ≡ some text
      → get_column_val_bytes fresh others c.meta text false ≡ some v
      → before_column fresh others c i s ≡ some (with_value s v)
  unfolding before_column
  before_column-value c i s text v e m = rw e (rw m refl)

  added :
      (pos n p v w : ℕ)
      → p % 2 ^ 64 ≡ ((pos + v) % 2 ^ 64 + w) % 2 ^ 64
      → v + w ≡ n
      → p % 2 ^ 64 ≡ (pos + n) % 2 ^ 64
  added pos n p v w h k = omega arith

  abbrev Serializes : List Column → ℕ → Image → List ℕ → ℕ → Type 0
  Serializes cs i s bytes n =
      i + length cs ≤ 8 * length s.null_bits
      → IsClear i (length cs) s.null_bits
      → row_bytes cs ≡ some (bytes, n)
      → (s' : Image) × (serialize_before fresh others cs i s ≡ some s')
        × Serialized cs i bytes n s s'

  null_column :
      (c : Column) (cs : List Column) (i : ℕ) (s : Image) (bytes : List ℕ) (n : ℕ)
      → c.text ≡ none
      → ((s1 : Image) → Serializes cs (suc i) s1 bytes n)
      → Serializes (c ∷ cs) i s bytes n
  unfolding serialize_before
  null_column c cs i s bytes n e ih room clear converted =
      let (bits, m, l, one, o) = mark-bit_at s.null_bits i (omega arith) in
      let (s', e', r) =
        ih (with_null_bits s bits) (rw l (omega arith))
          (λ j h k. o j (λ q. omega arith) ∙ clear j (omega arith) (omega arith))
          (sym (row_bytes-null c cs e) ∙ converted) in
      (
        s',
        ap (λ q. q >>= λ s1. serialize_before fresh others cs (suc i) s1)
              (before_column-null c i s bits e m)
            ∙ e',
        record {
          values_end = r.values_end;
          counted_end = r.counted_end;
          bits_end = (r.same_before i (omega arith) ∙ one ∙ sym (ap null_bit e), r.bits_end);
          size_end = r.size_end ∙ l;
          same_before = λ j h. r.same_before j (omega arith) ∙ o j (λ q. omega arith);
          same_behind = λ j h. r.same_behind j (omega arith) ∙ o j (λ q. omega arith);
        },
      )

  value_column :
      (c : Column) (cs : List Column) (i : ℕ) (s : Image) (bytes : List ℕ) (n : ℕ) (text : List ℕ)
      → c.text ≡ some text
      → ((s1 : Image) (bytes' : List ℕ) (n' : ℕ) → Serializes cs (suc i) s1 bytes' n')
      → Serializes (c ∷ cs) i s bytes n
  unfolding serialize_before
  value_column c cs i s bytes n text e ih room clear converted =
      let (v, e_v, rest) =
        bind-some _ _ (bytes, n) (sym (row_bytes-value c cs text e) ∙ converted) in
      let (w, e_w, both) = bind-some _ _ (bytes, n) rest in
      let (s', e', r) =
        ih (with_value s v) w.0 w.1 (omega arith) (λ j h k. clear j (omega arith) (omega arith))
          e_w in
      let e_bytes = ap (λ (q : List ℕ × ℕ). q.0) (injective both) in
      let e_n = ap (λ (q : List ℕ × ℕ). q.1) (injective both) in
      (
        s',
        ap (λ q. q >>= λ s1. serialize_before fresh others cs (suc i) s1)
              (before_column-value c i s text v e e_v)
            ∙ e',
        record {
          values_end =
              r.values_end ∙ append_assoc s.values v.0 w.0 ∙ ap (λ l. s.values ++ l) e_bytes;
          counted_end = added s.pos n s'.pos v.1 w.1 r.counted_end e_n;
          bits_end = (
            r.same_before i (omega arith)
                ∙ clear i (omega arith) (omega arith)
                ∙ sym (ap null_bit e),
            r.bits_end,
          );
          size_end = r.size_end;
          same_before = λ j h. r.same_before j (omega arith);
          same_behind = λ j h. r.same_behind j (omega arith);
        },
      )

  pub text-cases : (t : Option (List ℕ)) → (t ≡ none) ⊎ ((text : List ℕ) × (t ≡ some text))
  text-cases none = inl refl
  text-cases (some text) = inr (text, refl)

  -- With a clear bit for each column and values that are converted, `serialize_before` adds the
  -- values that are not NULL one behind the other, counts their bytes, sets the bits of those that are
  -- NULL, and leaves every other bit.
  pub serialize_before-Serialized :
      (cs : List Column) (i : ℕ) (s : Image) (bytes : List ℕ) (n : ℕ)
      → i + length cs ≤ 8 * length s.null_bits
      → IsClear i (length cs) s.null_bits
      → row_bytes cs ≡ some (bytes, n)
      → (s' : Image) × (serialize_before fresh others cs i s ≡ some s')
        × Serialized cs i bytes n s s'
  unfolding serialize_before
  serialize_before-Serialized [] i s bytes n room clear converted =
      let e = injective converted in
      (
        s,
        refl,
        record {
          values_end = sym (ap (λ l. s.values ++ l) (sym (ap (λ v. v.0) e)) ∙ append-nil s.values);
          counted_end = counted_none s.pos n (ap (λ v. v.1) e);
          bits_end = tt;
          size_end = refl;
          same_before = λ j h. refl;
          same_behind = λ j h. refl;
        },
      )
  serialize_before-Serialized (c ∷ cs) i s bytes n room clear converted = elim (text-cases c.text) [
    | inl e ↦
        null_column c cs i s bytes n e (λ s1. serialize_before-Serialized cs (suc i) s1 bytes n)
          room clear converted
    | inr (text, e) ↦
        value_column c cs i s bytes n text e
          (λ s1 b k. serialize_before-Serialized cs (suc i) s1 b k) room clear converted
  ]
