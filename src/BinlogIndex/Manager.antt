-- ===== src/BinlogIndex/Manager.antt =====
-- `BinlogIndexManager` of binlog/binlog_index.{h,cpp}: the index file and the record kept in memory,
-- and the operations that read the file or write it.
use oblogproxy.Common.{
  ℕ, ◌-◌, List, [], ◌∷◌, ◌++◌, Bool, true, false, ◌&&◌, ◌||◌, if◌then◌else◌, ltb, Option, none,
  some, length, replicate,
}
use oblogproxy.Text.Split.{eqb}
use oblogproxy.Text.Decimal.{to_string}
use oblogproxy.Text.Lines.{lines, raw_lines}
use oblogproxy.BinlogIndex.Record.{
  BinlogIndexRecord, no_record, line_of, parse, same_c_string, ◌>>=◌,
}

-- `index_file` is what the file holds.
pub record BinlogIndexManager : Type 0 where
  pub index_file : List ℕ
  pub memory_index_record : BinlogIndexRecord

-- How the calls of the file system end: whether a file opens or is copied, is cut, is written and
-- is renamed or removed. A write that fails leaves its file as it was.
pub record Io : Type 0 where
  pub opened : Bool
  pub resized : Bool
  pub written : Bool
  pub renamed : Bool
  pub removed : Bool

-- OMS_OK is true. `none` is an exception of `std::stol`, which no operation catches.
abbrev pub Outcome : Type 0
Outcome = Option (BinlogIndexManager × Bool)

-- The loop of `fetch_index_vector`: a record with index 0 is dropped.
unfoldable pub fetch_lines : List (List ℕ) → Option (List BinlogIndexRecord)
unfolding parse
fetch_lines [] = some []
fetch_lines (line ∷ ls) = do
  r ← parse no_record line
  rs ← fetch_lines ls
  some (if ltb 0 r.index then r ∷ rs else rs)

-- The records, if the file opens.
unfoldable pub fetch_index_vector : Io → BinlogIndexManager → Option (List BinlogIndexRecord × Bool)
unfolding fetch_lines raw_lines
fetch_index_vector io m =
    if io.opened
    then (do rs ← fetch_lines (raw_lines m.index_file); some (rs, true))
    else some ([], false)

-- `fill_binlog_file_name` of binlog/common_util.h; the prefix and the width are configured.
pub record Naming : Type 0 where
  pub binlog_file_prefix : List ℕ
  pub file_name_width : ℕ

unfoldable pub fill_binlog_file_name : Naming → ℕ → List ℕ
unfolding to_string
fill_binlog_file_name n index =
    n.binlog_file_prefix
    ++ b'.' ∷ (replicate (n.file_name_width - length (to_string index)) b'0' ++ to_string index)

-- The loop of `get_index`: the first record of the file asked for.
unfoldable pub find_index : Naming → List ℕ → List (List ℕ) → Option (Option BinlogIndexRecord)
unfolding fill_binlog_file_name parse same_c_string
find_index n file [] = some none
find_index n file (line ∷ ls) =
    let rest = find_index n file ls in
    parse no_record line >>= λ r.
    if ltb 0 r.index && same_c_string file (fill_binlog_file_name n r.index)
    then some (some r)
    else rest

unfoldable pub get_index :
    Naming → Io → List ℕ → BinlogIndexManager → Option (Option BinlogIndexRecord)
unfolding find_index lines
get_index n io file m = if io.opened then find_index n file (lines m.index_file) else some none

abbrev pub head_or_empty : List (List ℕ) → List ℕ
head_or_empty [] = []
head_or_empty (l ∷ ls) = l

-- `record` stays as it is where the file does not open, or has no line.
unfoldable pub get_first_index :
    Io → BinlogIndexRecord → BinlogIndexManager → Option (BinlogIndexRecord × Bool)
unfolding parse lines
get_first_index io old m =
    if io.opened
    then (do r ← parse old (head_or_empty (lines m.index_file)); some (r, true))
    else some (old, false)

unfoldable pub add_index : Io → BinlogIndexRecord → BinlogIndexManager → BinlogIndexManager × Bool
unfolding line_of
add_index io r m =
    if io.opened && io.written
    then (record m { index_file = m.index_file ++ line_of r }, true)
    else (m, false)

unfoldable pub is_active : BinlogIndexManager → List ℕ → Bool
unfolding eqb
is_active m file =
    eqb m.memory_index_record.file_name [] || eqb m.memory_index_record.file_name file

-- The lines that `rewrite_index_file` writes.
unfoldable pub text_of : List BinlogIndexRecord → List ℕ
unfolding line_of
text_of [] = []
text_of (r ∷ rs) = line_of r ++ text_of rs

unfoldable pub rewrite_index_file :
    Io → List BinlogIndexRecord → BinlogIndexManager → BinlogIndexManager × Bool
unfolding text_of
rewrite_index_file io rs m =
    if io.written && io.renamed then (record m { index_file = text_of rs }, true) else (m, false)
