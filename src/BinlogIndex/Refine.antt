-- ===== src/BinlogIndex/Refine.antt =====
-- The index file is a list of records: what each operation does to that list.
pub mod Operations
pub mod Purging
pub mod PurgeTo
use oblogproxy.Common.{
  ℕ, zero, suc, ◌+◌, ◌<◌, ◌≡◌, refl, sym, ap, ◌∙◌, List, [], ◌∷◌, ◌++◌, map, append_assoc,
  append-nil, Bool, true, false, Option, none, some, All, if◌then◌else◌, arith, length, take, drop,
}
use oblogproxy.Text.Split.{All-append}
use oblogproxy.Text.Lines.{newline, lines, lines-line, raw_lines, raw_lines-line}
use oblogproxy.BinlogIndex.Record.{
  BinlogIndexRecord, no_record, fields_of, line_of, parse, equal_to, ◌>>=◌,
}
use oblogproxy.BinlogIndex.Record.RoundTrip.{
  IsPrintable, parse-line_of, parse-fields_of, fields_of-IsLine,
}
use oblogproxy.BinlogIndex.Manager.{
  BinlogIndexManager, Io, fetch_lines, fetch_index_vector, add_index, text_of, rewrite_index_file,
}

-- A record that an index file can hold.
pub record IsRecord (r : BinlogIndexRecord) : Type 0 where
  pub printable : IsPrintable r
  pub numbered : 0 < r.index

-- The file holds these records, a line each.
pub record Represents (m : BinlogIndexManager) (rs : List BinlogIndexRecord) : Type 0 where
  pub text : m.index_file ≡ text_of rs
  pub records : All IsRecord rs

raw_lines-text_of :
    (rs : List BinlogIndexRecord) → All IsRecord rs → raw_lines (text_of rs) ≡ map line_of rs
unfolding text_of line_of
raw_lines-text_of [] h = unfold raw_lines in refl
raw_lines-text_of (r ∷ rs) (h, hs) =
    ap raw_lines (append_assoc (fields_of r) (newline ∷ []) (text_of rs))
    ∙ raw_lines-line (fields_of r) (text_of rs) (fields_of-IsLine r h.printable)
    ∙ ap (◌∷◌ (fields_of r ++ newline ∷ [])) (raw_lines-text_of rs hs)

pub lines-text_of :
    (rs : List BinlogIndexRecord) → All IsRecord rs → lines (text_of rs) ≡ map fields_of rs
unfolding text_of line_of
lines-text_of [] h = unfold lines in refl
lines-text_of (r ∷ rs) (h, hs) =
    ap lines (append_assoc (fields_of r) (newline ∷ []) (text_of rs))
    ∙ lines-line (fields_of r) (text_of rs) (fields_of-IsLine r h.printable)
    ∙ ap (◌∷◌ (fields_of r)) (lines-text_of rs hs)

fetch_lines-map :
    (rs : List BinlogIndexRecord) → All IsRecord rs → fetch_lines (map line_of rs) ≡ some rs
unfolding fetch_lines
fetch_lines-map [] h = refl
fetch_lines-map (r ∷ rs) (h, hs) =
    rw (parse-line_of no_record r h.printable, fetch_lines-map rs hs) (ground (arith, h.numbered))

pub fetch-Represents :
    (io : Io) (m : BinlogIndexManager) (rs : List BinlogIndexRecord)
    → io.opened ≡ true
    → Represents m rs
    → fetch_index_vector io m ≡ some (rs, true)
unfolding fetch_index_vector
fetch-Represents io m rs opened h =
    rw (opened, h.text, raw_lines-text_of rs h.records, fetch_lines-map rs h.records) refl

pub text_of-append :
    (rs ss : List BinlogIndexRecord) → text_of (rs ++ ss) ≡ text_of rs ++ text_of ss
unfolding text_of
text_of-append [] ss = refl
text_of-append (r ∷ rs) ss =
    ap (λ t. line_of r ++ t) (text_of-append rs ss)
    ∙ sym (append_assoc (line_of r) (text_of rs) (text_of ss))

-- Every call of the file system succeeds.
pub record IsWorking (io : Io) : Type 0 where
  pub opens : io.opened ≡ true
  pub resizes : io.resized ≡ true
  pub writes : io.written ≡ true
  pub renames : io.renamed ≡ true
  pub removes : io.removed ≡ true

-- The records that pass a test.
abbrev pub keep : (BinlogIndexRecord → Bool) → List BinlogIndexRecord → List BinlogIndexRecord
keep test [] = []
keep test (r ∷ rs) = if test r then r ∷ keep test rs else keep test rs

pub All-keep {κ} :
    (P : BinlogIndexRecord → Type κ) (test : BinlogIndexRecord → Bool) (rs : List BinlogIndexRecord)
    → All P rs
    → All P (keep test rs)
All-keep P test [] h = tt
All-keep P test (r ∷ rs) (h, hs) =
    elim (test r) as (λ b. All P (if b then r ∷ keep test rs else keep test rs)) [
      | true ↦ (h, All-keep P test rs hs)
      | false ↦ All-keep P test rs hs
    ]

-- An operation succeeds and leaves a file that holds these records.
abbrev pub Holds : Option (BinlogIndexManager × Bool) → List BinlogIndexRecord → Type 0
Holds o rs = (m : BinlogIndexManager) × (o ≡ some (m, true)) × Represents m rs
