-- ===== src/BinlogIndex/Record.antt =====
-- `BinlogIndexRecord` of binlog/binlog_index.{h,cpp} and its line in the index file.
pub mod RoundTrip
use oblogproxy.Common.{
  ℕ, suc, ◌+◌, ◌-◌, ◌^◌, ◌≤◌, ◌<◌, ◌≡◌, ◌≢◌, refl, sym, ap, ◌∙◌, append-nil, List, [], ◌∷◌, ◌++◌,
  Bool, true, false, ◌&&◌, if◌then◌else◌, ltb, ltb→lt, ◌==◌, Option, none, some, All, arith,
  append_assoc, Bool-cases, inl, inr,
}
use oblogproxy.Text.Split.{split, Inside, All-map, All-append, split-joined}
use oblogproxy.Text.Decimal.{
  to_string, stol, IsDigit, to_string-IsDigit, to_string-ne-nil, stol-to_string, stol-negative,
}
use oblogproxy.Event.Memory.{c_string}
use oblogproxy.Text.Lines.{newline}
use oblogproxy.Text.Split.{eqb}

-- The transaction id of OceanBase and the number of the MySQL transaction.
abbrev pub Mapping : Type 0
Mapping = List ℕ × ℕ

pub record BinlogIndexRecord : Type 0 where
  pub file_name : List ℕ
  pub index : ℕ
  pub before_mapping : Mapping
  pub current_mapping : Mapping
  pub checkpoint : ℕ
  pub position : ℕ

-- `BinlogIndexRecord()`
abbrev pub no_record : BinlogIndexRecord
no_record = record {
  file_name = [];
  index = 0;
  before_mapping = ([], 0);
  current_mapping = ([], 0);
  checkpoint = 0;
  position = 0;
}

-- `std::to_string` of the bits of an `int64_t`.
unfoldable pub to_string_signed : ℕ → List ℕ
to_string_signed n = if ltb n (2 ^ 63) then to_string n else b'-' ∷ to_string (2 ^ 64 - n)

unfoldable pub get_mapping_str : Mapping → List ℕ
unfolding to_string_signed
get_mapping_str (xid, n) = xid ++ b'=' ∷ to_string_signed n

-- The text in front of the first '=' and the text behind it. Without one, both are the whole text:
-- `npos + 1` is 0.
unfoldable pub find_equals : List ℕ → Option (List ℕ × List ℕ)
find_equals [] = none
find_equals (b ∷ bs) =
    let rest = find_equals bs in
    if b == b'='
    then some ([], bs)
    else elim rest [ none ↦ none | some found ↦ some (b ∷ found.0, found.1) ]

abbrev pub number_of : List ℕ → List ℕ → Option Mapping
number_of xid text = elim (stol text) [ none ↦ none | some n ↦ some (xid, n) ]

abbrev pub of_found : List ℕ → Option (List ℕ × List ℕ) → Option Mapping
of_found whole none = number_of whole whole
of_found whole (some (xid, text)) = number_of xid text

-- `none` is an exception of `std::stol`.
unfoldable pub parse_mapping_str : List ℕ → Option Mapping
unfolding find_equals
parse_mapping_str [] = some ([], 0)
parse_mapping_str (b ∷ bs) = of_found (b ∷ bs) (find_equals (b ∷ bs))

-- `to_string`, less the newline of `std::endl`.
unfoldable pub fields_of : BinlogIndexRecord → List ℕ
unfolding get_mapping_str
fields_of r =
    r.file_name
    ++ b'\t'
      ∷ (to_string r.index
          ++ b'\t'
            ∷ (get_mapping_str r.current_mapping
                ++ b'\t'
                  ∷ (get_mapping_str r.before_mapping
                      ++ b'\t' ∷ (to_string r.checkpoint ++ b'\t' ∷ to_string r.position))))

unfoldable pub line_of : BinlogIndexRecord → List ℕ
unfolding fields_of
line_of r = fields_of r ++ newline ∷ []

infixl 5 ◌>>=◌
abbrev pub ◌>>=◌ {ℓ κ} : {A : Type ℓ} {B : Type κ} → Option A → (A → Option B) → Option B
none >>= f = none
some a >>= f = f a

-- Six parts are the fields; with any other number the object stays as it is.
abbrev pub from_parts : BinlogIndexRecord → List (List ℕ) → Option BinlogIndexRecord
from_parts old (file ∷ index ∷ current ∷ before ∷ checkpoint ∷ position ∷ []) = do
  i ← stol index
  c ← parse_mapping_str current
  b ← parse_mapping_str before
  t ← stol checkpoint
  p ← stol position
  some (record {
    file_name = file;
    index = i;
    before_mapping = b;
    current_mapping = c;
    checkpoint = t;
    position = p;
  })
from_parts old _ = some old

unfoldable pub parse : BinlogIndexRecord → List ℕ → Option BinlogIndexRecord
unfolding split stol parse_mapping_str
parse old content = from_parts old (split content b'\t' false)

-- `strcmp` of two C strings: are they equal?
unfoldable pub same_c_string : List ℕ → List ℕ → Bool
unfolding eqb c_string
same_c_string s t = eqb (c_string s) (c_string t)

unfoldable pub equal_to : BinlogIndexRecord → BinlogIndexRecord → Bool
unfolding same_c_string
equal_to r s = same_c_string r.file_name s.file_name && (r.index == s.index)
