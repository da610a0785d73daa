-- ===== src/DataType.antt =====
-- binlog/data_type.{h,cpp}: the values of columns as a row event holds them. A value comes as the
-- text that obcdc gives, in memory that ends with a NUL.
pub mod Int
pub mod Numbers
pub mod Texts
pub mod Dates
pub mod Signed
pub mod Packing
pub mod Choices
pub mod Moments
pub mod Datetime
pub mod Value
pub mod Bitmaps
pub mod Nulls
pub mod Filled
use oblogproxy.Common.{
  ℕ, ◌+◌, ◌-◌, ◌*◌, ◌/◌, ◌%◌, ◌^◌, List, [], ◌∷◌, ◌++◌, Bool, true, false, ◌||◌, ◌&&◌,
  if◌then◌else◌, ltb, leb, ◌==◌, Option, none, some, length, drop, ◌≡◌, refl, ap,
}
use oblogproxy.Text.Split.{eqb}
use oblogproxy.Bytes.{int1store, int2store}
use Prim.Native.Char.{code}
use Prim.Native.String.{String}
use Prim.Native.Nat.{bit_and, bit_xor}

-- `field_types`.
pub data FieldType : Type 0 where
  decimal tiny short long float double null timestamp longlong int24 date time datetime year newdate
        varchar bit timestamp2 datetime2 time2 json newdecimal enum set tiny_blob medium_blob
        long_blob blob var_string string geometry :
      FieldType

-- What the code asks of an `IColMeta` of obcdc; a precision or a scale is not negative here.
pub record ColMeta : Type 0 where
  pub type : FieldType
  pub len : ℕ
  pub precision : ℕ
  pub scale : ℕ
  pub encoding : List ℕ
  pub values_of_enum_set : List (List ℕ)

-- The code points of a literal.
abbrev pub codes : String → List ℕ
codes String.[] = []
codes (String.◌∷◌ c s) = code c ∷ codes s

infixl 5 ◌>>=◌
abbrev pub ◌>>=◌ : {A B : Type 0} → Option A → (A → Option B) → Option B
none >>= f = none
some a >>= f = f a

pub injective : {A : Type 0} {a b : A} → some a ≡ some b → a ≡ b
injective {a} e = ap (λ o. elim o [ none ↦ a | some x ↦ x ]) e

pub bind-some :
    {A B : Type 0} (o : Option A) (f : A → Option B) (b : B)
    → (o >>= f) ≡ some b
    → (a : A) × (o ≡ some a) × (f a ≡ some b)
bind-some none f b e = cc
bind-some (some a) f b e = (a, refl, e)

unfoldable pub fixed_len : ℕ → ℕ
fixed_len len = (len + 7) / 8

-- `none` is -1. The assert bounds the argument by 9.
unfoldable pub remainder_bytes : ℕ → Option ℕ
remainder_bytes remainder =
    if remainder == 0
    then some 0
    else if leb remainder 2
    then some 1
    else if leb remainder 4
    then some 2
    else if leb remainder 6
    then some 3
    else if leb remainder 8
    then some 4
    else none

-- A buffer that has `base` bytes and those of the fraction; `none` is the failed assert.
unfoldable pub buffer_len : ℕ → ℕ → Option ℕ
unfolding remainder_bytes
buffer_len base precision =
    if leb precision 9
    then elim (remainder_bytes precision) [ none ↦ some (base - 1) | some n ↦ some (base + n) ]
    else none

-- New memory of that size after a write at its start; `none` is a write behind it.
abbrev pub in_buffer : (ℕ → List ℕ) → List ℕ → ℕ → Option (List ℕ)
in_buffer fresh written n =
    if leb (length written) n then some (written ++ drop (length written) (fresh n)) else none

unfoldable pub any_string_equal : List ℕ → List (List ℕ) → Bool
unfolding eqb
any_string_equal s [] = false
any_string_equal s (t ∷ ts) = eqb s t || any_string_equal s ts

unfoldable pub charset_encoding_bytes : List ℕ → ℕ
unfolding any_string_equal
charset_encoding_bytes charset =
    if length charset == 0
    then 4
    else if any_string_equal charset (
        codes "dec8"
        ∷ codes "cp850"
        ∷ codes "hp8"
        ∷ codes "koi8r"
        ∷ codes "latin1"
        ∷ codes "latin2"
        ∷ codes "swe7"
        ∷ codes "ascii"
        ∷ codes "hebrew"
        ∷ codes "tis620"
        ∷ codes "koi8u"
        ∷ codes "greek"
        ∷ codes "cp1250"
        ∷ codes "latin5"
        ∷ codes "armscii8"
        ∷ codes "cp866"
        ∷ codes "keybcs2"
        ∷ codes "macce"
        ∷ codes "macroman"
        ∷ codes "cp852"
        ∷ codes "latin7"
        ∷ codes "cp1251"
        ∷ codes "cp1256"
        ∷ codes "cp1257"
        ∷ codes "binary"
        ∷ codes "geostd8"
        ∷ [])
    then 1
    else if any_string_equal charset (
        codes "big5"
        ∷ codes "sjis"
        ∷ codes "euckr"
        ∷ codes "gb2312"
        ∷ codes "gbk"
        ∷ codes "ucs2"
        ∷ codes "cp932"
        ∷ [])
    then 2
    else if any_string_equal charset (codes "ujis" ∷ codes "utf8" ∷ codes "eucjpms" ∷ [])
    then 3
    else 4

-- The bytes that are written, whose number is returned. 254, 247 and 248 are the codes of the types.
unfoldable pub set_column_metadata : ColMeta → List ℕ
unfolding charset_encoding_bytes fixed_len int1store int2store
set_column_metadata m = of_type m.type
  where
    wide : ℕ
    wide = m.len * charset_encoding_bytes m.encoding

    of_type : FieldType → List ℕ
    of_type bit = m.precision % 8 % 256 ∷ m.precision / 8 % 256 ∷ []
    of_type float = if ltb 24 m.precision then 8 ∷ [] else 4 ∷ []
    of_type double = 8 ∷ []
    of_type string = bit_xor 254 (bit_and wide 0x300 / 2 ^ 4) % 256 ∷ wide % 256 ∷ []
    of_type var_string = int2store wide
    of_type decimal = int1store m.precision ++ int1store m.scale
    of_type newdecimal = int1store m.precision ++ int1store m.scale
    of_type enum = 247 ∷ (if ltb 255 (length m.values_of_enum_set) then 2 else 1) ∷ []
    of_type set = 248 ∷ fixed_len (length m.values_of_enum_set) % 256 ∷ []
    of_type tiny_blob = 1 ∷ []
    of_type medium_blob = 3 ∷ []
    of_type json = 4 ∷ []
    of_type long_blob = 4 ∷ []
    of_type geometry = 4 ∷ []
    of_type blob = 2 ∷ []
    of_type varchar = int2store wide
    of_type timestamp = m.scale % 256 ∷ []
    of_type datetime = m.scale % 256 ∷ []
    of_type time = m.scale % 256 ∷ []
    of_type _ = []
