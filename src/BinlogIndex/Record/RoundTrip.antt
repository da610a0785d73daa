-- ===== src/BinlogIndex/Record/RoundTrip.antt =====
-- The line of a record of the index is read back.
use oblogproxy.Common.{
  ℕ, ◌-◌, ◌^◌, ◌≤◌, ◌<◌, ◌≡◌, ◌≢◌, refl, sym, ap, ◌∙◌, append-nil, List, [], ◌∷◌, ◌++◌, false, ltb,
  ltb→lt, some, All, arith, append_assoc, Bool-cases, inl, inr,
}
use oblogproxy.Text.Split.{split, Inside, All-map, All-append, append-cons-ne-nil, split-joined}
use oblogproxy.Text.Decimal.{
  to_string, stol, IsDigit, to_string-IsDigit, stol-to_string, Ends, stol-negative,
}
use oblogproxy.Text.Lines.{newline, IsLine}
use oblogproxy.Text.Split.{joined}
use oblogproxy.BinlogIndex.Record.{
  Mapping, BinlogIndexRecord, to_string_signed, get_mapping_str, find_equals, number_of, of_found,
  parse_mapping_str, fields_of, line_of, from_parts, parse,
}

-- A name holds neither NUL nor tab nor newline.
abbrev pub IsName : List ℕ → Type 0
IsName s = All (λ b. Inside b'\t' b × (b ≢ newline)) s

-- A mapping whose text can be read back: any number of 64 bits, and a transaction id without '='.
abbrev pub IsMapping : Mapping → Type 0
IsMapping m = IsName m.0 × All (λ b. b ≢ b'=') m.0 × (m.1 < 2 ^ 64)

pub record IsPrintable (r : BinlogIndexRecord) : Type 0 where
  pub file_inside : IsName r.file_name
  pub index_fits : r.index < 2 ^ 63
  pub before_fits : IsMapping r.before_mapping
  pub current_fits : IsMapping r.current_mapping
  pub checkpoint_fits : r.checkpoint < 2 ^ 63
  pub position_fits : r.position < 2 ^ 63

to_string-IsName : (n : ℕ) → IsName (to_string n)
to_string-IsName n =
    All-map IsDigit (λ b. Inside b'\t' b × (b ≢ newline)) (to_string n) (λ b h. omega arith)
      (to_string-IsDigit n)

to_string_signed-IsName : (n : ℕ) → IsName (to_string_signed n)
unfolding to_string_signed
to_string_signed-IsName n = ground (arith, to_string-IsName n, to_string-IsName (2 ^ 64 - n))

get_mapping_str-IsName : (m : Mapping) → IsMapping m → IsName (get_mapping_str m)
unfolding get_mapping_str
get_mapping_str-IsName m h =
    All-append (λ b. Inside b'\t' b × (b ≢ newline)) m.0 (b'=' ∷ to_string_signed m.1) h.0
      (omega arith, to_string_signed-IsName m.1)

find_equals-append :
    (xid text : List ℕ)
    → All (λ b. b ≢ b'=') xid
    → find_equals (xid ++ b'=' ∷ text) ≡ some (xid, text)
unfolding find_equals
find_equals-append [] text h = refl
find_equals-append (b ∷ xid) text (h, hs) = ground (arith, find_equals-append xid text hs)

stol_text : (n : ℕ) → n < 2 ^ 63 → stol (to_string n) ≡ some n
stol_text n h = ap stol (sym (append-nil (to_string n))) ∙ stol-to_string n [] h tt

stol_signed : (n : ℕ) → n < 2 ^ 64 → stol (to_string_signed n) ≡ some n
unfolding to_string_signed
stol_signed n h = elim (Bool-cases (ltb n (2 ^ 63))) [
  | inl small ↦ rw small (stol_text n (ltb→lt n (2 ^ 63) small))
  | inr large ↦ rw large (
      let above : 2 ^ 63 ≤ n = ground arith in
      stol-negative (2 ^ 64 - n) (omega arith) (omega arith) ∙ ap some (omega arith))
]

parse_mapping_str-append :
    (xid text : List ℕ)
    → All (λ b. b ≢ b'=') xid
    → parse_mapping_str (xid ++ b'=' ∷ text) ≡ number_of xid text
unfolding parse_mapping_str
parse_mapping_str-append [] text h = unfold find_equals in refl
parse_mapping_str-append (b ∷ xid) text h =
    ap (of_found (b ∷ xid ++ b'=' ∷ text)) (find_equals-append (b ∷ xid) text h)

parse-get_mapping_str : (m : Mapping) → IsMapping m → parse_mapping_str (get_mapping_str m) ≡ some m
unfolding get_mapping_str
parse-get_mapping_str m (text, plain, fits) =
    parse_mapping_str-append m.0 (to_string_signed m.1) plain
    ∙ rw (number_of, stol_signed m.1 fits) refl

IsName-Inside : (s : List ℕ) → IsName s → All (Inside b'\t') s
IsName-Inside s = All-map (λ b. Inside b'\t' b × (b ≢ newline)) (Inside b'\t') s (λ b h. h.0)

-- What may stand behind the fields: the newline, or nothing.
record IsTail (tail : List ℕ) : Type 0 where
  inside : All (Inside b'\t') tail
  ends : Ends tail

abbrev middle_of : BinlogIndexRecord → List ℕ → List (List ℕ)
middle_of r tail =
    get_mapping_str r.current_mapping
    ∷ get_mapping_str r.before_mapping
    ∷ to_string r.checkpoint
    ∷ (to_string r.position ++ tail)
    ∷ []

fields_of-append :
    (r : BinlogIndexRecord) (tail : List ℕ)
    → fields_of r ++ tail ≡ joined b'\t' r.file_name (to_string r.index ∷ middle_of r tail)
unfolding fields_of
fields_of-append r tail = simp append_assoc

module _ (old r : BinlogIndexRecord) (p : IsPrintable r) where
  parts-Inside :
      (tail : List ℕ)
      → IsTail tail
      → All (All (Inside b'\t')) (r.file_name ∷ to_string r.index ∷ middle_of r tail)
  parts-Inside tail t = (
    IsName-Inside r.file_name p.file_inside,
    (
      IsName-Inside (to_string r.index) (to_string-IsName r.index),
      (
        IsName-Inside (get_mapping_str r.current_mapping)
            (get_mapping_str-IsName r.current_mapping p.current_fits),
        (
          IsName-Inside (get_mapping_str r.before_mapping)
              (get_mapping_str-IsName r.before_mapping p.before_fits),
          (
            IsName-Inside (to_string r.checkpoint) (to_string-IsName r.checkpoint),
            (
              All-append (Inside b'\t') (to_string r.position) tail
                  (IsName-Inside (to_string r.position) (to_string-IsName r.position)) t.inside,
              tt,
            ),
          ),
        ),
      ),
    ),
  )

  parse-fields : (tail : List ℕ) → IsTail tail → parse old (fields_of r ++ tail) ≡ some r
  unfolding parse
  parse-fields tail t =
      ap (λ text. from_parts old (split text b'\t' false)) (fields_of-append r tail)
      ∙ ap (from_parts old) (
          split-joined b'\t' (omega arith) r.file_name (to_string r.index ∷ middle_of r tail)
            (append-cons-ne-nil r.file_name _ b'\t') (parts-Inside tail t))
      ∙ rw
          (
            stol_text r.index p.index_fits,
            parse-get_mapping_str r.current_mapping p.current_fits,
            parse-get_mapping_str r.before_mapping p.before_fits,
            stol_text r.checkpoint p.checkpoint_fits,
            stol-to_string r.position tail p.position_fits t.ends,
          )
          refl

  -- A record is read back from its line with the newline, whatever the object held before.
  pub parse-line_of : parse old (line_of r) ≡ some r
  unfolding line_of
  parse-line_of = parse-fields (newline ∷ []) (record { inside = omega arith; ends = refl })

  -- And from its line without the newline.
  pub parse-fields_of : parse old (fields_of r) ≡ some r
  parse-fields_of =
      ap (parse old) (sym (append-nil (fields_of r)))
      ∙ parse-fields [] (record { inside = tt; ends = tt })

IsName-IsLine : (s : List ℕ) → IsName s → IsLine s
IsName-IsLine s = All-map (λ b. Inside b'\t' b × (b ≢ newline)) (λ b. b ≢ newline) s (λ b h. h.1)

-- The fields are one line.
pub fields_of-IsLine : (r : BinlogIndexRecord) → IsPrintable r → IsLine (fields_of r)
unfolding fields_of
fields_of-IsLine r p = before r.file_name _ p.file_inside (
    before (to_string r.index) _ (to_string-IsName r.index) (
      before (get_mapping_str r.current_mapping) _
        (get_mapping_str-IsName r.current_mapping p.current_fits)
        (before (get_mapping_str r.before_mapping) _
          (get_mapping_str-IsName r.before_mapping p.before_fits)
          (before (to_string r.checkpoint) _ (to_string-IsName r.checkpoint)
            (IsName-IsLine (to_string r.position) (to_string-IsName r.position))))))
  where
    before : (s rest : List ℕ) → IsName s → IsLine rest → IsLine (s ++ b'\t' ∷ rest)
    before s rest h hr =
        All-append (λ b. b ≢ newline) s (b'\t' ∷ rest) (IsName-IsLine s h) (omega arith, hr)
