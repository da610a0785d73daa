-- ===== src/DataType/Texts.antt =====
-- binlog/data_type.cpp: strings, blobs, and the values of ENUM and SET columns.
use oblogproxy.Common.{
  ℕ, ◌+◌, ◌*◌, ◌%◌, ◌^◌, List, [], ◌∷◌, ◌++◌, Bool, true, false, ◌&&◌, ◌||◌, if◌then◌else◌, ltb,
  leb, ◌==◌, Option, none, some, length,
}
use oblogproxy.Bytes.{le_bytes, int1store, int2store, int3store, int4store}
use oblogproxy.Event.Memory.{c_string}
use oblogproxy.Text.Split.{split}
use oblogproxy.DataType.{ColMeta, charset_encoding_bytes, fixed_len}

-- The length of the column decides how many bytes the length of the value has.
unfoldable pub convert_binlog_var_string : ColMeta → List ℕ → List ℕ
unfolding charset_encoding_bytes int1store int2store
convert_binlog_var_string m text =
    (if ltb 255 (m.len * charset_encoding_bytes m.encoding % 2 ^ 64)
      then int2store (length text)
      else int1store (length text))
    ++ text

unfoldable pub convert_binlog_tiny_blob : List ℕ → List ℕ
convert_binlog_tiny_blob text = int1store (length text) ++ text

unfoldable pub convert_binlog_blob : List ℕ → List ℕ
convert_binlog_blob text = int2store (length text) ++ text

unfoldable pub convert_binlog_medium_blob : List ℕ → List ℕ
convert_binlog_medium_blob text = int3store (length text) ++ text

unfoldable pub convert_binlog_long_blob : List ℕ → List ℕ
convert_binlog_long_blob text = int4store (length text) ++ text

-- `memcmp` of as many bytes as the first has, at memory that begins with the second.
unfoldable pub memcmp_eq : List ℕ → List ℕ → Bool
memcmp_eq [] mem = true
memcmp_eq (v ∷ vs) [] = false
memcmp_eq (v ∷ vs) (b ∷ mem) = (v == b) && memcmp_eq vs mem

-- The index of the first value that the text begins with.
unfoldable pub find_value : List ℕ → List (List ℕ) → ℕ → Option ℕ
unfolding memcmp_eq
find_value text [] i = none
find_value text (v ∷ vs) i =
    let on = find_value text vs (i + 1) in if memcmp_eq v (text ++ 0 ∷ []) then some i else on

-- Without such a value a null buffer of no bytes is pushed.
abbrev pub enum_bytes : ℕ → Option ℕ → List ℕ
enum_bytes count none = []
enum_bytes count (some i) = if ltb count 256 then int1store (i + 1) else int2store (i + 1)

unfoldable pub convert_binlog_enum : ColMeta → List ℕ → List ℕ
unfolding find_value
convert_binlog_enum m text =
    enum_bytes (length m.values_of_enum_set) (find_value text m.values_of_enum_set 0)

unfoldable pub any_begins : List ℕ → List (List ℕ) → Bool
unfolding memcmp_eq
any_begins v [] = false
any_begins v (t ∷ ts) = memcmp_eq v (t ++ 0 ∷ []) || any_begins v ts

-- The bits of the values that some part of the text begins with, from 2 ^ 0 up.
unfoldable pub bitmap : List (List ℕ) → List (List ℕ) → ℕ
unfolding any_begins
bitmap parts [] = 0
bitmap parts (v ∷ vs) = (if any_begins v parts then 1 else 0) + 2 * bitmap parts vs

-- `none` is the exception of a set of more than 64 values.
unfoldable pub convert_binlog_set : ColMeta → List ℕ → Option (List ℕ)
unfolding split bitmap fixed_len
convert_binlog_set m text =
    let values = m.values_of_enum_set in
    if leb (length values) 64
    then some
        (le_bytes (fixed_len (length values)) (bitmap (split (c_string text) b',' false) values))
    else none
