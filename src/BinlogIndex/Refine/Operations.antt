-- ===== src/BinlogIndex/Refine/Operations.antt =====
-- Adding, removing and replacing a record, and reading the last one.
use oblogproxy.Common.{
  ℕ, ◌≡◌, refl, sym, ap, subst, ◌∙◌, List, [], ◌∷◌, ◌++◌, map, append_assoc, append-nil, Bool, true,
  false, Bool-cases, inl, inr, not, ◌||◌, some, All, arith, length, take, take-append, drop-append,
}
use oblogproxy.Text.Split.{All-append}
use oblogproxy.Text.Lines.{newline, raw_lines-line}
use oblogproxy.BinlogIndex.Record.{
  BinlogIndexRecord, no_record, fields_of, line_of, parse, equal_to,
}
use oblogproxy.BinlogIndex.Record.RoundTrip.{parse-line_of, parse-fields_of, fields_of-IsLine}
use oblogproxy.BinlogIndex.Manager.{BinlogIndexManager, Io, fetch_index_vector, add_index, text_of}
use oblogproxy.BinlogIndex.Purge.{remove_lines, remove_binlog}
use oblogproxy.BinlogIndex.Update.{seekg_last_line, get_latest_index, update_index}
use oblogproxy.BinlogIndex.Update.Seek.{LineStart, first, after, seekg_last_line-line}
use oblogproxy.BinlogIndex.Refine.{
  IsRecord, Represents, IsWorking, Holds, keep, All-keep, lines-text_of, text_of-append,
  fetch-Represents,
}

text_of_one : (r : BinlogIndexRecord) → text_of (r ∷ []) ≡ fields_of r ++ newline ∷ []
unfolding text_of line_of
text_of_one r = append-nil (fields_of r ++ newline ∷ [])

text_of-snoc :
    (rs : List BinlogIndexRecord) (r : BinlogIndexRecord)
    → text_of (rs ++ r ∷ []) ≡ text_of rs ++ (fields_of r ++ newline ∷ [])
text_of-snoc rs r = text_of-append rs (r ∷ []) ∙ ap (λ t. text_of rs ++ t) (text_of_one r)

fields_of-cons : (r : BinlogIndexRecord) → (c : ℕ) × (q : List ℕ) × (fields_of r ≡ c ∷ q)
unfolding fields_of
fields_of-cons r = split_name r.file_name _
  where
    split_name : (name rest : List ℕ) → (c : ℕ) × (q : List ℕ) × ((name ++ b'\t' ∷ rest) ≡ c ∷ q)
    split_name [] rest = (b'\t', rest, refl)
    split_name (c ∷ name) rest = (c, name ++ b'\t' ∷ rest, refl)

LineStart-line : (c : ℕ) (q t : List ℕ) → LineStart t → LineStart ((c ∷ q) ++ newline ∷ t)
LineStart-line c q t first = after c q
LineStart-line c q t (after d u) =
    subst LineStart (append_assoc (c ∷ q) (newline ∷ d ∷ u) (newline ∷ []))
      (after c (q ++ newline ∷ d ∷ u))

LineStart-text_of : (rs : List BinlogIndexRecord) → LineStart (text_of rs)
unfolding text_of line_of
LineStart-text_of [] = first
LineStart-text_of (r ∷ rs) =
    let (c, q, e) = fields_of-cons r in
    subst LineStart (sym (append_assoc (fields_of r) (newline ∷ []) (text_of rs)))
      (rw e (LineStart-line c q (text_of rs) (LineStart-text_of rs)))

-- The last line of the file is that of the last record.
seekg_last_line-text_of :
    (rs : List BinlogIndexRecord) (r : BinlogIndexRecord)
    → IsRecord r
    → seekg_last_line (text_of (rs ++ r ∷ [])) ≡ some (length (text_of rs))
seekg_last_line-text_of rs r h =
    let (c, q, e) = fields_of-cons r in
    ap seekg_last_line (text_of-snoc rs r)
    ∙ seekg_last_line-line (text_of rs) (fields_of r) (LineStart-text_of rs)
        (fields_of-IsLine r h.printable) (rw e (omega arith))

-- Is one of the records the target?
abbrev any : (BinlogIndexRecord → Bool) → List BinlogIndexRecord → Bool
any test [] = false
any test (r ∷ rs) = test r || any test rs

remove_lines-map :
    (target : BinlogIndexRecord) (rs : List BinlogIndexRecord)
    → All IsRecord rs
    → remove_lines target (map fields_of rs)
      ≡ some (keep (λ r. not (equal_to r target)) rs, any (λ r. equal_to r target) rs)
unfolding remove_lines
remove_lines-map target [] h = refl
remove_lines-map target (r ∷ rs) (h, hs) =
    rw (parse-fields_of no_record r h.printable, remove_lines-map target rs hs) (ground arith)

keep-all :
    (test : BinlogIndexRecord → Bool) (rs : List BinlogIndexRecord)
    → any test rs ≡ false
    → keep (λ r. not (test r)) rs ≡ rs
keep-all test [] h = refl
keep-all test (r ∷ rs) h = ground (arith, keep-all test rs)

All-snoc :
    (rs : List BinlogIndexRecord) (r : BinlogIndexRecord)
    → All IsRecord (rs ++ r ∷ [])
    → All IsRecord rs × IsRecord r
All-snoc [] r (h, hs) = (tt, h)
All-snoc (x ∷ rs) r (h, hs) = let (a, b) = All-snoc rs r hs in ((h, a), b)

module _ (io : Io) (m : BinlogIndexManager) (working : IsWorking io) where
  add_index-Represents :
      (rs : List BinlogIndexRecord) (r : BinlogIndexRecord)
      → Represents m rs
      → IsRecord r
      → Holds (some (add_index io r m)) (rs ++ r ∷ [])
  unfolding add_index line_of
  add_index-Represents rs r h hr = (
    record m { index_file = m.index_file ++ line_of r },
    rw (working.opens, working.writes) refl,
    record {
      text = ap (λ t. t ++ line_of r) h.text ∙ sym (text_of-snoc rs r);
      records = All-append IsRecord rs (r ∷ []) h.records (hr, tt);
    },
  )

  remove_binlog-Represents :
      (rs : List BinlogIndexRecord) (target : BinlogIndexRecord)
      → Represents m rs
      → Holds (remove_binlog io target m) (keep (λ r. not (equal_to r target)) rs)
  unfolding remove_binlog
  remove_binlog-Represents rs target h = elim (Bool-cases (any (λ r. equal_to r target) rs)) [
    | inl found ↦ (
      record m { index_file = text_of kept },
      rw
          (
            working.opens,
            h.text,
            lines-text_of rs h.records,
            remove_lines-map target rs h.records,
            found,
            working.writes,
            working.renames,
            working.removes,
          )
          refl,
      record { text = refl; records = kept_records },
    )
    | inr absent ↦ (
      m,
      rw
          (
            working.opens,
            h.text,
            lines-text_of rs h.records,
            remove_lines-map target rs h.records,
            absent,
          )
          refl,
      subst (Represents m) (sym (keep-all (λ r. equal_to r target) rs absent)) h,
    )
  ]
    where
      kept : List BinlogIndexRecord
      kept = keep (λ r. not (equal_to r target)) rs

      kept_records : All IsRecord kept
      kept_records = All-keep IsRecord (λ r. not (equal_to r target)) rs h.records

  module _ (rs : List BinlogIndexRecord) (last : BinlogIndexRecord)
      (h : Represents m (rs ++ last ∷ [])) where
    found_last : seekg_last_line m.index_file ≡ some (length (text_of rs))
    found_last =
        ap seekg_last_line h.text ∙ seekg_last_line-text_of rs last (All-snoc rs last h.records).1

    whole_text : m.index_file ≡ text_of rs ++ (fields_of last ++ newline ∷ [])
    whole_text = h.text ∙ text_of-snoc rs last

    update_index-Represents :
        (r : BinlogIndexRecord) → IsRecord r → Holds (update_index io r m) (rs ++ r ∷ [])
    unfolding update_index line_of
    update_index-Represents r hr = (
      record {
        index_file = take (length (text_of rs)) m.index_file ++ line_of r;
        memory_index_record = r;
      },
      rw (working.opens, found_last, working.resizes, working.renames, working.writes) refl,
      record {
        text =
            ap (λ t. take (length (text_of rs)) t ++ line_of r) whole_text
            ∙ ap (λ t. t ++ line_of r) (take-append (text_of rs) _)
            ∙ sym (text_of-snoc rs r);
        records = All-append IsRecord rs (r ∷ []) (All-snoc rs last h.records).0 (hr, tt);
      },
    )

    get_latest_index-Represents :
        (old : BinlogIndexRecord) (buffer : List ℕ)
        → get_latest_index io buffer old m ≡ some (last, true)
    unfolding get_latest_index
    get_latest_index-Represents old buffer =
        rw
          (
            working.opens,
            found_last,
            whole_text,
            drop-append (text_of rs) (fields_of last ++ newline ∷ []),
            raw_lines-line (fields_of last) []
                (fields_of-IsLine last (All-snoc rs last h.records).1.printable),
          )
          (rw (parse_last) refl)
      where
        parse_last : parse old (fields_of last ++ newline ∷ []) ≡ some last
        parse_last =
            unfold line_of in parse-line_of old last (All-snoc rs last h.records).1.printable

-- If the calls of the file system succeed and the index file holds records that can be printed, at
-- least one, then reading gives them back and `get_latest_index` gives the last one; adding a record
-- leaves the records with the new one behind them, updating leaves them with the last one replaced,
-- and removing leaves those that are not equal to the given one. Each such file is again one that
-- holds these records.
pub operations-Represents :
    (io : Io) (m : BinlogIndexManager) (rs : List BinlogIndexRecord)
    (last r old : BinlogIndexRecord) (buffer : List ℕ)
    → IsWorking io
    → Represents m (rs ++ last ∷ [])
    → IsRecord r
    → (fetch_index_vector io m ≡ some (rs ++ last ∷ [], true))
      × (get_latest_index io buffer old m ≡ some (last, true))
      × Holds (some (add_index io r m)) ((rs ++ last ∷ []) ++ r ∷ [])
      × Holds (update_index io r m) (rs ++ r ∷ [])
      × Holds (remove_binlog io r m) (keep (λ s. not (equal_to s r)) (rs ++ last ∷ []))
operations-Represents io m rs last r old buffer working h hr = (
  fetch-Represents io m (rs ++ last ∷ []) working.opens h,
  get_latest_index-Represents io m working rs last h old buffer,
  add_index-Represents io m working (rs ++ last ∷ []) r h hr,
  update_index-Represents io m working rs last h r hr,
  remove_binlog-Represents io m working (rs ++ last ∷ []) r h,
)
