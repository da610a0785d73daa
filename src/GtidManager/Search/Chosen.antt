-- ===== src/GtidManager/Search/Chosen.antt =====
-- What `binary_search_gtid_seq` returns for a list of sequences in the order of their versions.
use oblogproxy.Common.{
  ℕ, zero, suc, ◌+◌, ◌-◌, ◌^◌, ◌≤◌, ◌<◌, ◌≡◌, ◌≢◌, refl, ap, ◌∙◌, List, [], ◌∷◌, ◌++◌, map, true,
  false, ◌||◌, Bool-cases, ◌⊎◌, inl, inr, ltb, ltb→lt, ◌==◌, some, length, All, arith,
}
use oblogproxy.Text.Split.{
  Inside, split, joined, split-joined, All-map, All-append, append-cons-ne-nil,
}
use oblogproxy.Text.Decimal.{to_string, IsDigit, to_string-IsDigit}
use oblogproxy.GtidManager.Seq.{
  GtidSeq, no_gtid_seq, serialize, deserialize, IsPrintable, deserialize-serialize,
}
use oblogproxy.GtidManager.Search.{
  last_text, search_loop, binary_search_texts, search_parts, binary_search_gtid_seq,
}
use oblogproxy.GtidManager.Search.Found.{
  seq_at, version_at, IsOrdered, text_at-map, seq_at-IsPrintable, IsLastUpTo, search_loop-found,
}

-- A sequence that a list of texts can hold: it is printable and its transaction id has no '|'.
pub record IsListed (s : GtidSeq) : Type 0 where
  pub printable : IsPrintable s
  pub no_bar : All (λ b. b ≢ b'|') s.xid_start

-- What a search returns: the last sequence for the timestamp 0, the first one for a timestamp below
-- its version, and otherwise the last one whose version is not above the timestamp.
pub data Chosen (ss : List GtidSeq) (timestamp i : ℕ) : Type 0 where
  no_timestamp : timestamp ≡ 0 → i + 1 ≡ length ss → Chosen ss timestamp i
  too_early : 0 < timestamp → timestamp < version_at ss 0 → i ≡ 0 → Chosen ss timestamp i
  last_up_to : 0 < timestamp → IsLastUpTo ss timestamp i → Chosen ss timestamp i

last_text-map :
    (s : GtidSeq) (ss : List GtidSeq)
    → last_text (serialize s) (map serialize ss) ≡ serialize (seq_at (s ∷ ss) (length ss))
last_text-map s [] = refl
last_text-map s (t ∷ ss) = last_text-map t ss

length-map : (ss : List GtidSeq) → length (map serialize ss) ≡ length ss
length-map [] = refl
length-map (s ∷ ss) = ap suc (length-map ss)

module _ (s : GtidSeq) (ss : List GtidSeq) (timestamp : ℕ) (old : GtidSeq)
    (printable : All IsPrintable (s ∷ ss)) (ordered : IsOrdered (s ∷ ss))
    (fits : length (s ∷ ss) < 2 ^ 64) where
  read_last :
      (o : GtidSeq)
      → deserialize o (last_text (serialize s) (map serialize ss)) ≡ seq_at (s ∷ ss) (length ss)
  read_last o =
      ap (deserialize o) (last_text-map s ss)
      ∙ deserialize-serialize o (seq_at (s ∷ ss) (length ss))
          (seq_at-IsPrintable (s ∷ ss) (length ss) printable (omega arith))

  read_first : (o : GtidSeq) → deserialize o (serialize s) ≡ s
  read_first o = deserialize-serialize o s printable.0

  answers_back :
      ((timestamp == 0) || ltb (version_at (s ∷ ss) (length ss)) timestamp) ≡ true
      → binary_search_texts timestamp (serialize s) (map serialize ss) old
        ≡ some (seq_at (s ∷ ss) (length ss))
  unfolding binary_search_texts
  answers_back h = rw (read_last no_gtid_seq, h, read_last old) refl

  answers_front :
      ((timestamp == 0) || ltb (version_at (s ∷ ss) (length ss)) timestamp) ≡ false
      → ltb timestamp s.commit_version_start ≡ true
      → binary_search_texts timestamp (serialize s) (map serialize ss) old ≡ some s
  unfolding binary_search_texts
  answers_front h early = rw (read_last no_gtid_seq, h, read_first, early, read_first old) refl

  answers_found :
      (i : ℕ)
      → ((timestamp == 0) || ltb (version_at (s ∷ ss) (length ss)) timestamp) ≡ false
      → ltb timestamp s.commit_version_start ≡ false
      → search_loop
          (length (serialize s ∷ map serialize ss) + 1)
          timestamp
          (serialize s ∷ map serialize ss)
          0
          (length (serialize s ∷ map serialize ss) - 1)
          s
        ≡ some i
      → i < length (s ∷ ss)
      → binary_search_texts timestamp (serialize s) (map serialize ss) old
        ≡ some (seq_at (s ∷ ss) i)
  unfolding binary_search_texts
  answers_found i h early found l =
      rw (read_last no_gtid_seq, h, read_first, early, found)
        (ap some (
          ap (deserialize old) (text_at-map (s ∷ ss) i l)
          ∙ deserialize-serialize old (seq_at (s ∷ ss) i)
              (seq_at-IsPrintable (s ∷ ss) i printable l)))

  binary_search_texts-Chosen :
      (i : ℕ) × (binary_search_texts timestamp (serialize s) (map serialize ss) old
        ≡ some (seq_at (s ∷ ss) i))
      × Chosen (s ∷ ss) timestamp i
  binary_search_texts-Chosen =
      elim (Bool-cases ((timestamp == 0) || ltb (version_at (s ∷ ss) (length ss)) timestamp)) [
        | inl late ↦ (length ss, answers_back late, at_end (Nat-cases timestamp) late)
        | inr inside ↦ elim (Bool-cases (ltb timestamp s.commit_version_start)) [
          | inl early ↦ (
            0,
            answers_front inside early,
            too_early (ground (arith, inside)) (ltb→lt timestamp s.commit_version_start early) refl,
          )
          | inr later ↦
              let first : s.commit_version_start ≤ timestamp = ground (arith, later) in
              let (i, found, last) =
                search_loop-found (s ∷ ss) timestamp printable ordered fits first
                  (length (s ∷ ss) + 1) 0 (length (s ∷ ss) - 1) s (omega arith) (omega arith)
                  (omega arith) (λ j h. absurd (omega arith)) (λ j h l. absurd (omega arith)) in
              (
                i,
                answers_found i inside later (same_length found) last.0,
                last_up_to (ground (arith, inside)) last,
              )
        ]
      ]
    where
      Nat-cases : (n : ℕ) → (n ≡ 0) ⊎ (0 < n)
      Nat-cases zero = inl refl
      Nat-cases (suc n) = inr (omega arith)

      at_end :
          (timestamp ≡ 0) ⊎ (0 < timestamp)
          → ((timestamp == 0) || ltb (version_at (s ∷ ss) (length ss)) timestamp) ≡ true
          → Chosen (s ∷ ss) timestamp (length ss)
      at_end (inl none_given) late = no_timestamp none_given (omega arith)
      at_end (inr given) late =
          let past : version_at (s ∷ ss) (length ss) < timestamp = ground (arith, late) in
          last_up_to given (omega arith, omega (arith, past), λ j h l. absurd (omega arith))

      same_length :
          {i : ℕ}
          → search_loop
              (length (s ∷ ss) + 1)
              timestamp
              (map serialize (s ∷ ss))
              0
              (length (s ∷ ss) - 1)
              s
            ≡ some i
          → search_loop
              (length (serialize s ∷ map serialize ss) + 1)
              timestamp
              (serialize s ∷ map serialize ss)
              0
              (length (serialize s ∷ map serialize ss) - 1)
              s
            ≡ some i
      same_length h = rw (length-map ss) h

serialize-Inside : (s : GtidSeq) → IsListed s → All (Inside b'|') (serialize s)
unfolding serialize
serialize-Inside s l = piece (to_string s.commit_version_start) _ (number s.commit_version_start) (
    piece s.xid_start _ (xid s.xid_start l.printable.xid_inside l.no_bar)
      (piece (to_string s.gtid_start) _ (number s.gtid_start) (number s.trxs_num)))
  where
    number : (n : ℕ) → All (Inside b'|') (to_string n)
    number n =
        All-map IsDigit (Inside b'|') (to_string n) (λ b h. omega arith) (to_string-IsDigit n)

    xid : (t : List ℕ) → All (Inside b'#') t → All (λ b. b ≢ b'|') t → All (Inside b'|') t
    xid [] h hs = tt
    xid (b ∷ t) (h, hs) (n, ns) = ((h.0, n), xid t hs ns)

    piece :
        (t rest : List ℕ)
        → All (Inside b'|') t
        → All (Inside b'|') rest
        → All (Inside b'|') (t ++ b'#' ∷ rest)
    piece t rest h hs = All-append (Inside b'|') t (b'#' ∷ rest) h (omega arith, hs)

All-serialize : (ss : List GtidSeq) → All IsListed ss → All (All (Inside b'|')) (map serialize ss)
All-serialize [] h = tt
All-serialize (s ∷ ss) (h, hs) = (serialize-Inside s h, All-serialize ss hs)

joined-ne-nil : (s : GtidSeq) (ts : List (List ℕ)) → joined b'|' (serialize s) ts ≢ []
unfolding serialize
joined-ne-nil s [] = append-cons-ne-nil (to_string s.commit_version_start) _ b'#'
joined-ne-nil s (t ∷ ts) = append-cons-ne-nil (serialize s) (joined b'|' t ts) b'|'

-- In the joined texts of sequences, one at least and fewer than 2 ^ 64, in the order of their commit
-- versions and without '|', the search ends and finds: the last sequence for the timestamp 0, the
-- first one for a timestamp below its version, and otherwise the last one whose version is not above
-- the timestamp, whatever the object held before.
pub binary_search_gtid_seq-Chosen :
    (s : GtidSeq) (ss : List GtidSeq) (timestamp : ℕ) (old : GtidSeq)
    → All IsListed (s ∷ ss)
    → IsOrdered (s ∷ ss)
    → length (s ∷ ss) < 2 ^ 64
    → (i : ℕ) × (binary_search_gtid_seq timestamp (joined b'|' (serialize s) (map serialize ss)) old
        ≡ some (some (seq_at (s ∷ ss) i)))
      × Chosen (s ∷ ss) timestamp i
unfolding binary_search_gtid_seq
binary_search_gtid_seq-Chosen s ss timestamp old listed ordered fits =
    let parts : split (joined b'|' (serialize s) (map serialize ss)) b'|' false
        ≡ serialize s ∷ map serialize ss =
      split-joined b'|' (omega arith) (serialize s) (map serialize ss)
        (joined-ne-nil s (map serialize ss)) (All-serialize (s ∷ ss) listed) in
    let (i, found, chosen) =
      binary_search_texts-Chosen s ss timestamp old
        (All-map IsListed IsPrintable (s ∷ ss) (λ t h. h.printable) listed) ordered fits in
    (i, ap (λ ps. search_parts timestamp ps old) parts ∙ rw (search_parts, found) refl, chosen)
