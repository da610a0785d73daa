-- ===== src/GtidManager/Search.antt =====
-- `binary_search_gtid_seq` and `boundary_gtid_seq` of binlog/gtid_manager.cpp, which look up a
-- sequence in the texts of sequences with '|' between them.
pub mod Found
pub mod Chosen
use oblogproxy.Common.{
  ℕ, zero, suc, ◌+◌, ◌-◌, ◌/◌, ◌%◌, ◌^◌, List, [], ◌∷◌, ◌++◌, Bool, true, false, ◌||◌,
  if◌then◌else◌, ltb, leb, ◌==◌, Option, none, some, length, get_elem?,
}
use oblogproxy.Text.Split.{split}
use oblogproxy.GtidManager.Seq.{GtidSeq, no_gtid_seq, deserialize}

-- `gtid_seq_set[i]`; the empty text out of range.
abbrev pub text_at : List (List ℕ) → ℕ → List ℕ
text_at [] i = []
text_at (t ∷ ts) zero = t
text_at (t ∷ ts) (suc i) = text_at ts i

abbrev pub last_text : List ℕ → List (List ℕ) → List ℕ
last_text t [] = t
last_text t (u ∷ us) = last_text u us

-- The loop of the search on `idx_low`, `idx_high` and `local_gtid_seq`, which ends with `idx_high`.
-- `none` is that the fuel does not last.
unfoldable pub search_loop : ℕ → ℕ → List (List ℕ) → ℕ → ℕ → GtidSeq → Option ℕ
unfolding deserialize
search_loop zero timestamp set low high local = none
search_loop (suc fuel) timestamp set low high local =
    let mid = low + (high - low) / 2 in
    let local' = deserialize local (text_at set mid) in
    let above = ltb timestamp local'.commit_version_start in
    let rest =
      search_loop fuel timestamp set (if above then low else mid + 1)
        (if above then (mid + 2 ^ 64 - 1) % 2 ^ 64 else high) local' in
    if leb low high then rest else some high

-- Each round leaves less between the two indices, so that the number of texts and one is enough.
unfoldable pub binary_search_texts : ℕ → List ℕ → List (List ℕ) → GtidSeq → Option GtidSeq
unfolding search_loop
binary_search_texts timestamp front others gtid_seq =
    let set = front ∷ others in
    let back = last_text front others in
    let at_back = deserialize no_gtid_seq back in
    let at_front = deserialize at_back front in
    if (timestamp == 0) || ltb at_back.commit_version_start timestamp
    then some (deserialize gtid_seq back)
    else if ltb timestamp at_front.commit_version_start
    then some (deserialize gtid_seq front)
    else elim (search_loop (length set + 1) timestamp set 0 (length set - 1) at_front) [
      | none ↦ none
      | some high ↦ some (deserialize gtid_seq (text_at set high))
    ]

abbrev pub search_parts : ℕ → List (List ℕ) → GtidSeq → Option (Option GtidSeq)
search_parts timestamp [] gtid_seq = some none
search_parts timestamp (front ∷ others) gtid_seq =
    elim (binary_search_texts timestamp front others gtid_seq) [
      | none ↦ none
      | some found ↦ some (some found)
    ]

-- `none` inside is OMS_FAILED, for an empty text. Outside, it would be that the search never ends.
unfoldable pub binary_search_gtid_seq : ℕ → List ℕ → GtidSeq → Option (Option GtidSeq)
unfolding split binary_search_texts
binary_search_gtid_seq timestamp gtids gtid_seq =
    search_parts timestamp (split gtids b'|' false) gtid_seq

-- The texts in front of the first '|' and behind the last one.
unfoldable pub find_bar : List ℕ → List ℕ
find_bar [] = []
find_bar (b ∷ bs) = let rest = find_bar bs in if b == b'|' then [] else b ∷ rest

unfoldable pub after_bar : List ℕ → List ℕ → List ℕ
after_bar found [] = found
after_bar found (b ∷ bs) = after_bar (if b == b'|' then bs else found) bs

-- The first and the last sequence of the list; `none` is OMS_FAILED.
unfoldable pub boundary_gtid_seq : List ℕ → GtidSeq × GtidSeq → Option (GtidSeq × GtidSeq)
unfolding deserialize find_bar after_bar
boundary_gtid_seq [] pair = none
boundary_gtid_seq (b ∷ bs) pair =
    some (deserialize pair.0 (find_bar (b ∷ bs)), deserialize pair.1 (after_bar (b ∷ bs) (b ∷ bs)))
