-- ===== src/GtidSet/Format/RoundTrip.antt =====
-- The text of a GTID set is read back.
use oblogproxy.Common.{
  ℕ, ◌+◌, ◌^◌, ◌≤◌, ◌<◌, ◌≡◌, refl, sym, ap, ◌∙◌, List, [], ◌∷◌, ◌++◌, append-nil, map, false,
  Bool-cases, inl, inr, ◌==◌, some, All, arith, length,
}
use oblogproxy.Text.Split.{
  split, joined, Inside, All-map, All-append, append-cons-ne-nil, split-joined,
}
use oblogproxy.Text.Decimal.{
  to_string, atoll, IsDigit, to_string-IsDigit, to_string-ne-nil, atoll-to_string,
}
use oblogproxy.GtidSet.Message.{TxnRange, GtidMessage, merge_loop, merge_txn_range}
use oblogproxy.GtidSet.Merge.{
  SeparatedFrom, merge_loop-end, merge_loop-meets, merge_loop-apart, merge_loop-first,
}
use oblogproxy.GtidSet.Format.{
  range_text, ranges_text, range_of_parts, ranges_of, of_gtid_parts, format_string,
  deserialize_gtid_set,
}
use oblogproxy.GtidSet.Uuid.{uuid_hex_bin_to_str_with_delim}
use oblogproxy.GtidSet.Uuid.Hex.{IsByte}
use oblogproxy.GtidSet.Uuid.RoundTrip.{uuid_str-uuid_hex_bin, uuid_text-Inside}

-- A range whose ends `atoll` reads.
abbrev pub IsShort : TxnRange → Type 0
IsShort r = (0 < r.0) × (r.0 ≤ r.1) × (r.1 < 2 ^ 63)

-- Ranges that lie in the range that is open are absorbed.
absorbs :
    (start end : ℕ) (tail : List TxnRange)
    → 0 < start
    → end < 2 ^ 63
    → All (λ r. (r.0 ≤ r.1) × (r.1 ≤ end)) tail
    → merge_loop tail start end ≡ (start, end) ∷ []
absorbs start end [] positive fits h = merge_loop-end start end positive
absorbs start end ((first, second) ∷ tail) positive fits ((ordered, within), hs) =
    merge_loop-meets start end positive first second tail (ground arith)
    ∙ ap (merge_loop tail start) (omega arith)
    ∙ absorbs start end tail positive fits hs

-- The end of the last range.
abbrev last_end : ℕ → List TxnRange → ℕ
last_end end [] = end
last_end end (r ∷ rs) = last_end r.1 rs

walks :
    (start end : ℕ) (rs tail : List TxnRange)
    → 0 < start
    → end < 2 ^ 63
    → All IsShort rs
    → SeparatedFrom (end + 1) rs
    → All (λ r. (r.0 ≤ r.1) × (r.1 ≤ last_end end rs)) tail
    → merge_loop (rs ++ tail) start end ≡ (start, end) ∷ rs
walks start end [] tail positive fits hs apart h = absorbs start end tail positive fits h
walks start end ((first, second) ∷ rs) tail positive fits ((p, o, f), hs) (past, ordered, apart) h =
    merge_loop-apart start end positive first second (rs ++ tail) (ground arith)
    ∙ ap (◌∷◌ (start, end)) (walks first second rs tail p f hs apart h)

-- Every range of separated ones ends before the last one does.
ends_before :
    (end : ℕ) (rs : List TxnRange)
    → SeparatedFrom (end + 1) rs
    → (end ≤ last_end end rs) × All (λ r. (r.0 ≤ r.1) × (r.1 ≤ last_end end rs)) rs
ends_before end [] apart = (omega arith, tt)
ends_before end ((first, second) ∷ rs) (past, ordered, apart) =
    let (le, hs) = ends_before second rs apart in (omega (arith, le), ((ordered, le), hs))

-- Separated ranges merged with themselves stay.
pub merge_loop-twice :
    (rs : List TxnRange) → All IsShort rs → SeparatedFrom 0 rs → merge_loop (rs ++ rs) 0 0 ≡ rs
merge_loop-twice [] hs apart = unfold merge_loop in refl
merge_loop-twice (r ∷ rs) ((p, o, f), hs) (past, ordered, apart) =
    let (le, ends) = ends_before r.1 rs apart in
    merge_loop-first r (rs ++ r ∷ rs) ∙ walks r.0 r.1 rs (r ∷ rs) p f hs apart ((ordered, le), ends)

number_dash : (n : ℕ) → All (Inside b'-') (to_string n)
number_dash n =
    All-map IsDigit (Inside b'-') (to_string n) (λ b h. omega arith) (to_string-IsDigit n)

number_colon : (n : ℕ) → All (Inside b':') (to_string n)
number_colon n =
    All-map IsDigit (Inside b':') (to_string n) (λ b h. omega arith) (to_string-IsDigit n)

-- The text of a range is read back.
range_of-range_text :
    (r : TxnRange) → IsShort r → range_of_parts (split (range_text r) b'-' false) ≡ some r
unfolding range_text
range_of-range_text (first, second) (p, o, f) = elim (Bool-cases (second == first)) [
  | inl same ↦ rw same (
      ap range_of_parts (
        split-joined b'-' (omega arith) (to_string first) [] (to_string-ne-nil first)
          (number_dash first, tt))
      ∙ ap some (one_end (ground (arith, same))))
  | inr apart ↦ rw apart (
      ap range_of_parts (
        split-joined b'-' (omega arith) (to_string first) (to_string second ∷ [])
          (append-cons-ne-nil (to_string first) (to_string second) b'-')
          (number_dash first, (number_dash second, tt)))
      ∙ rw (atoll-to_string first (omega arith), atoll-to_string second f) refl)
]
  where
    one_end :
        second ≡ first
        → ◌≡◌ {A = TxnRange} (atoll (to_string first), atoll (to_string first)) (first, second)
    one_end e = rw (atoll-to_string first (omega arith), e) refl

range_text-Inside : (r : TxnRange) → All (Inside b':') (range_text r)
unfolding range_text
range_text-Inside (first, second) = elim (Bool-cases (second == first)) [
  | inl same ↦ rw same (number_colon first)
  | inr apart ↦ rw apart (
      All-append (Inside b':') (to_string first) (b'-' ∷ to_string second) (number_colon first)
        (omega arith, number_colon second))
]

ranges_of-map : (rs : List TxnRange) → All IsShort rs → ranges_of (map range_text rs) ≡ some rs
unfolding ranges_of
ranges_of-map [] h = refl
ranges_of-map (r ∷ rs) (h, hs) = rw (range_of-range_text r h, ranges_of-map rs hs) refl

ranges_text-joined :
    (x : List ℕ) (rs : List TxnRange) → x ++ ranges_text rs ≡ joined b':' x (map range_text rs)
ranges_text-joined x [] = append-nil x
ranges_text-joined x (r ∷ rs) = ap (λ t. x ++ b':' ∷ t) (ranges_text-joined (range_text r) rs)

ranges-Inside : (rs : List TxnRange) → All (All (Inside b':')) (map range_text rs)
ranges-Inside [] = tt
ranges-Inside (r ∷ rs) = (range_text-Inside r, ranges-Inside rs)

-- A GTID set with a UUID of 16 bytes and ranges, one at least, that are in order, neither touch nor
-- overlap, and end below 2 ^ 63, is read back from its text into an object without ranges.
pub deserialize_gtid_set-format_string :
    (old m : GtidMessage) (r : TxnRange) (rs : List TxnRange)
    → length m.gtid_uuid ≡ 16
    → All IsByte m.gtid_uuid
    → m.txn_range ≡ r ∷ rs
    → All IsShort (r ∷ rs)
    → SeparatedFrom 0 (r ∷ rs)
    → old.txn_range ≡ []
    → deserialize_gtid_set old (format_string m)
      ≡ some (record old { gtid_uuid = m.gtid_uuid; txn_range = m.txn_range })
unfolding deserialize_gtid_set format_string merge_txn_range
deserialize_gtid_set-format_string old m r rs sixteen bytes e hs apart empty =
    ap (λ ranges. of_gtid_parts old (split (uuid ++ ranges_text ranges) b':' false)) e
    ∙ ap (λ t. of_gtid_parts old (split t b':' false)) (ranges_text-joined uuid (r ∷ rs))
    ∙ ap (of_gtid_parts old) (
        split-joined b':' (omega arith) uuid (map range_text (r ∷ rs))
          (append-cons-ne-nil uuid _ b':')
          (uuid_text-Inside m.gtid_uuid bytes sixteen, ranges-Inside (r ∷ rs)))
    ∙ rw (uuid_str-uuid_hex_bin m.gtid_uuid bytes sixteen, ranges_of-map (r ∷ rs) hs, empty) refl
    ∙ ap (λ ranges. some (record old { gtid_uuid = m.gtid_uuid; txn_range = ranges }))
        (merge_loop-twice (r ∷ rs) hs apart ∙ sym e)
  where
    uuid : List ℕ
    uuid = uuid_hex_bin_to_str_with_delim m.gtid_uuid
