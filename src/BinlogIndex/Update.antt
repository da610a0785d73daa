-- ===== src/BinlogIndex/Update.antt =====
-- `get_latest_index` and `update_index` of binlog/binlog_index.cpp, with `seekg_last_line` of
-- common/fs_util.cpp, which finds the last line of the index file.
pub mod Seek
use oblogproxy.Common.{
  ℕ, zero, suc, ◌+◌, ◌≡◌, refl, List, [], ◌∷◌, ◌++◌, Bool, true, false, not, ◌&&◌, ◌||◌,
  if◌then◌else◌, ◌==◌, Option, none, some, length, take, drop, get_elem?,
}
use oblogproxy.Text.Lines.{newline, raw_lines}
use oblogproxy.BinlogIndex.Record.{BinlogIndexRecord, line_of, parse, ◌>>=◌}
use oblogproxy.BinlogIndex.Manager.{BinlogIndexManager, Io}

abbrev pub is_newline : Option ℕ → Bool
is_newline none = false
is_newline (some b) = b == newline

-- The loop of `seekg_last_line` from an offset: it steps back by two and reads one byte, up to a
-- newline or the start of the file. Offset 1 is met in a file of one byte only, see below.
unfoldable pub seek_back : ℕ → List ℕ → ℕ
seek_back zero file = 0
seek_back (suc zero) file = 0
seek_back (suc (suc i)) file =
    let before = seek_back (suc i) file in
    if i == 0 then 0 else if is_newline (get_elem? file i) then i + 1 else before

-- In a file of one byte the step back fails and the loop never ends: `none`.
unfoldable pub seekg_last_line : List ℕ → Option ℕ
unfolding seek_back
seekg_last_line file = if length file == 1 then none else some (seek_back (length file) file)

-- `buffer` is what the memory that `getline` allocates holds when there is no line to read.
abbrev pub first_line : List ℕ → List (List ℕ) → List ℕ
first_line buffer [] = buffer
first_line buffer (l ∷ ls) = l

unfoldable pub get_latest_index :
    Io → List ℕ → BinlogIndexRecord → BinlogIndexManager → Option (BinlogIndexRecord × Bool)
unfolding seekg_last_line raw_lines parse
get_latest_index io buffer old m =
    if io.opened
    then (do
      pos ← seekg_last_line m.index_file
      r ← parse old (first_line buffer (raw_lines (drop pos m.index_file)))
      some (r, true))
    else some (old, false)

-- The record that is asked for where none is in memory yet.
unfoldable pub get_memory_index :
    Io → List ℕ → BinlogIndexManager → Option (BinlogIndexManager × BinlogIndexRecord)
unfolding get_latest_index
get_memory_index io buffer m = elim m.memory_index_record.file_name [
  | [] ↦ (do
    latest ← get_latest_index io buffer m.memory_index_record m
    some (record m { memory_index_record = latest.0 }, latest.0))
  | _ ∷ _ ↦ some (m, m.memory_index_record)
]

-- The copy loses its last line, gets the new one and takes the place of the file. The result of the
-- write is not looked at.
unfoldable pub update_index :
    Io → BinlogIndexRecord → BinlogIndexManager → Option (BinlogIndexManager × Bool)
unfolding seekg_last_line line_of
update_index io r m =
    if io.opened
    then (do
      pos ← seekg_last_line m.index_file
      let kept = take pos m.index_file
      some (
          if io.resized && io.renamed
          then (
            record {
              index_file = if io.written then kept ++ line_of r else kept;
              memory_index_record = r;
            },
            true,
          )
          else (m, false)))
    else some (m, false)
