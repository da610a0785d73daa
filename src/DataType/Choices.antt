-- ===== src/DataType/Choices.antt =====
-- ENUM and SET values: the code compares as many bytes as a value of the column has, so that the text
-- only has to begin with it. Where no value begins with another one, the member itself is found.
use oblogproxy.Common.{
  ℕ, ◌+◌, ◌*◌, ◌/◌, ◌≤◌, ◌≡◌, ◌≢◌, refl, sym, ap, ◌∙◌, List, [], ◌∷◌, ◌++◌, Bool, true, false, ◌||◌,
  Bool-cases, inl, inr, if◌then◌else◌, ltb, le→leb, some, length, arith, All,
}
use oblogproxy.Bytes.{le_bytes, int1store, int2store}
use oblogproxy.Event.Memory.{NonZero}
use oblogproxy.Text.Split.{
  Inside, joined, split-joined, eqb, eqb_refl, eqb-eq, c_string-whole, joined-NonNul,
}
use oblogproxy.DataType.{ColMeta, fixed_len}
use oblogproxy.DataType.Texts.{
  memcmp_eq, find_value, enum_bytes, convert_binlog_enum, any_begins, bitmap, convert_binlog_set,
}

-- The text begins with the value.
abbrev pub Begins : List ℕ → List ℕ → Type 0
Begins text v = (rest : List ℕ) × (text ≡ v ++ rest)

memcmp_eq-Begins :
    (v text : List ℕ) → All NonZero v → memcmp_eq v (text ++ 0 ∷ []) ≡ true → Begins text v
unfolding memcmp_eq
memcmp_eq-Begins [] text h e = (text, refl)
memcmp_eq-Begins (b ∷ v) [] (h, hs) e = absurd (h (ground arith))
memcmp_eq-Begins (b ∷ v) (c ∷ text) (h, hs) e =
    let (rest, same) = memcmp_eq-Begins v text hs (ground arith) in
    let first : c ≡ b = ground arith in (rest, rw (first, same) refl)

memcmp_eq_self : (v rest : List ℕ) → memcmp_eq v (v ++ rest) ≡ true
unfolding memcmp_eq
memcmp_eq_self [] rest = refl
memcmp_eq_self (b ∷ v) rest = ground (arith, memcmp_eq_self v rest)

memcmp_eq-apart :
    (v text : List ℕ) → All NonZero v → ¬ Begins text v → memcmp_eq v (text ++ 0 ∷ []) ≡ false
memcmp_eq-apart v text h apart = elim (Bool-cases (memcmp_eq v (text ++ 0 ∷ []))) [
  | inl same ↦ absurd (apart (memcmp_eq-Begins v text h same))
  | inr other ↦ other
]

-- A value without NUL that the text does not begin with.
abbrev pub Apart : List ℕ → List ℕ → Type 0
Apart text v = All NonZero v × ¬ Begins text v

find_value-member :
    (text : List ℕ) (before after : List (List ℕ)) (i : ℕ)
    → All (Apart text) before
    → find_value text (before ++ text ∷ after) i ≡ some (i + length before)
unfolding find_value
find_value-member text [] after i h = rw (memcmp_eq_self text (0 ∷ [])) (ap some (omega arith))
find_value-member text (v ∷ before) after i ((text_v, apart), h) =
    rw (memcmp_eq-apart v text text_v apart)
      (find_value-member text before after (i + 1) h ∙ ap some (omega arith))

-- A text that is a value of the column, and begins with no value in front of that one, is written as
-- the number of the value from 1 on, in one byte for fewer than 256 values and in two for more.
pub convert_binlog_enum-member :
    (m : ColMeta) (text : List ℕ) (before after : List (List ℕ))
    → m.values_of_enum_set ≡ before ++ text ∷ after
    → All (Apart text) before
    → convert_binlog_enum m text
      ≡ le_bytes (if ltb (length m.values_of_enum_set) 256 then 1 else 2) (length before + 1)
unfolding convert_binlog_enum int1store int2store
convert_binlog_enum-member m text before after same h =
    let found : find_value text m.values_of_enum_set 0 ≡ some (length before) =
      ap (λ vs. find_value text vs 0) same
      ∙ find_value-member text before after 0 h
      ∙ ap some (omega arith) in
    ap (enum_bytes (length m.values_of_enum_set)) found
    ∙ (elim (Bool-cases (ltb (length m.values_of_enum_set) 256)) [
      | inl few ↦ rw few refl
      | inr many ↦ rw many refl
    ])

-- Is the value one of the parts, and the bits of those that are, from 2 ^ 0 up.
abbrev pub is_member : List ℕ → List (List ℕ) → Bool
is_member v [] = false
is_member v (t ∷ ts) = eqb v t || is_member v ts

abbrev pub member_bits : List (List ℕ) → List (List ℕ) → ℕ
member_bits parts [] = 0
member_bits parts (v ∷ vs) = (if is_member v parts then 1 else 0) + 2 * member_bits parts vs

-- A part that begins with a value is that value.
abbrev pub Whole : List (List ℕ) → List ℕ → Type 0
Whole parts v = All NonZero v × All (λ t. Begins t v → t ≡ v) parts

any_begins-member :
    (v : List ℕ) (parts : List (List ℕ)) → Whole parts v → any_begins v parts ≡ is_member v parts
unfolding any_begins
any_begins-member v [] h = refl
any_begins-member v (t ∷ ts) (text, (h, hs)) =
    let rest = any_begins-member v ts (text, hs) in
    elim (Bool-cases (memcmp_eq v (t ++ 0 ∷ []))) [
      | inl begins ↦
          let same : t ≡ v = h (memcmp_eq-Begins v t text begins) in
          let equal : eqb v t ≡ true = ap (eqb v) same ∙ eqb_refl v in rw (begins, equal) refl
      | inr other ↦ elim (Bool-cases (eqb v t)) [
        | inl equal ↦
            let begins : memcmp_eq v (t ++ 0 ∷ []) ≡ true =
              ap (λ u. memcmp_eq v (u ++ 0 ∷ [])) (sym (eqb-eq v t equal))
              ∙ memcmp_eq_self v (0 ∷ []) in
            cc
        | inr differs ↦ rw (other, differs) rest
      ]
    ]

bitmap-members :
    (parts values : List (List ℕ))
    → All (Whole parts) values
    → bitmap parts values ≡ member_bits parts values
unfolding bitmap
bitmap-members parts [] h = refl
bitmap-members parts (v ∷ vs) (h, hs) =
    rw (any_begins-member v parts h, bitmap-members parts vs hs) refl

-- For a text of parts, joined by commas, none of which begins with a value that it is not, and for 64
-- values at most, the bits of the values among the parts are written, the lowest byte first.
pub convert_binlog_set-members :
    (m : ColMeta) (p : List ℕ) (ps : List (List ℕ))
    → length m.values_of_enum_set ≤ 64
    → joined b',' p ps ≢ []
    → All (All (Inside b',')) (p ∷ ps)
    → All (Whole (p ∷ ps)) m.values_of_enum_set
    → convert_binlog_set m (joined b',' p ps)
      ≡ some (
          le_bytes
            ((length m.values_of_enum_set + 7) / 8)
            (member_bits (p ∷ ps) m.values_of_enum_set))
unfolding convert_binlog_set fixed_len
convert_binlog_set-members m p ps few filled inside whole =
    rw
      (
        le→leb (length m.values_of_enum_set) 64 few,
        c_string-whole (joined b',' p ps)
            (joined-NonNul b',' (λ e. absurd (omega (arith, e))) p ps inside),
        split-joined b',' (λ e. absurd (omega (arith, e))) p ps filled inside,
        bitmap-members (p ∷ ps) m.values_of_enum_set whole,
      )
      refl
