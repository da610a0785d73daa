-- ===== src/GtidManager/Search/Found.antt =====
-- What the binary search finds among sequences in the order of their commit versions.
use oblogproxy.Common.{
  ℕ, zero, suc, ◌+◌, ◌-◌, ◌/◌, ◌%◌, ◌^◌, ◌≤◌, ◌<◌, ◌≡◌, refl, ap, ◌∙◌, List, [], ◌∷◌, map, true,
  false, Bool-cases, inl, inr, if◌then◌else◌, ltb, leb, leb→gt, leb→le, ltb→lt, some, length, All,
  arith,
}
use oblogproxy.GtidManager.Seq.{
  GtidSeq, no_gtid_seq, serialize, deserialize, IsPrintable, deserialize-serialize,
}
use oblogproxy.GtidManager.Search.{text_at, search_loop}

-- The sequence at an index; the empty one out of range.
abbrev pub seq_at : List GtidSeq → ℕ → GtidSeq
seq_at [] i = no_gtid_seq
seq_at (s ∷ ss) zero = s
seq_at (s ∷ ss) (suc i) = seq_at ss i

abbrev pub version_at : List GtidSeq → ℕ → ℕ
version_at ss i = (seq_at ss i).commit_version_start

abbrev pub IsOrdered : List GtidSeq → Type 0
IsOrdered ss = (i j : ℕ) → i ≤ j → j < length ss → version_at ss i ≤ version_at ss j

pub text_at-map :
    (ss : List GtidSeq) (i : ℕ)
    → i < length ss
    → text_at (map serialize ss) i ≡ serialize (seq_at ss i)
text_at-map [] i h = absurd (omega arith)
text_at-map (s ∷ ss) zero h = refl
text_at-map (s ∷ ss) (suc i) h = text_at-map ss i (omega arith)

pub seq_at-IsPrintable :
    (ss : List GtidSeq) (i : ℕ) → All IsPrintable ss → i < length ss → IsPrintable (seq_at ss i)
seq_at-IsPrintable [] i hs l = absurd (omega arith)
seq_at-IsPrintable (s ∷ ss) zero (h, hs) l = h
seq_at-IsPrintable (s ∷ ss) (suc i) (h, hs) l = seq_at-IsPrintable ss i hs (omega arith)

-- The index of the last sequence whose version is not above the timestamp.
abbrev pub IsLastUpTo : List GtidSeq → ℕ → ℕ → Type 0
IsLastUpTo ss timestamp i =
    (i < length ss)
    × (version_at ss i ≤ timestamp)
    × ((j : ℕ) → i < j → j < length ss → timestamp < version_at ss j)

module _ (ss : List GtidSeq) (timestamp : ℕ) (printable : All IsPrintable ss)
    (ordered : IsOrdered ss) (fits : length ss < 2 ^ 64) (first : version_at ss 0 ≤ timestamp) where
  read_at :
      (i : ℕ) (old : GtidSeq)
      → i < length ss
      → deserialize old (text_at (map serialize ss) i) ≡ seq_at ss i
  read_at i old h =
      ap (deserialize old) (text_at-map ss i h)
      ∙ deserialize-serialize old (seq_at ss i) (seq_at-IsPrintable ss i printable h)

  -- One round: the middle, its sequence, and where the search goes on.
  search_ends :
      (fuel low high : ℕ) (local : GtidSeq)
      → leb low high ≡ false
      → search_loop (suc fuel) timestamp (map serialize ss) low high local ≡ some high
  unfolding search_loop
  search_ends fuel low high local h = rw h refl

  search_step :
      (fuel low high mid : ℕ) (local : GtidSeq)
      → leb low high ≡ true
      → mid ≡ low + (high - low) / 2
      → mid < length ss
      → search_loop (suc fuel) timestamp (map serialize ss) low high local
        ≡ search_loop fuel timestamp
            (map serialize ss)
            (if ltb timestamp (version_at ss mid) then low else mid + 1)
            (if ltb timestamp (version_at ss mid) then (mid + 2 ^ 64 - 1) % 2 ^ 64 else high)
            (seq_at ss mid)
  unfolding search_loop
  search_step fuel low high mid local h e l = rw (h, ← e, read_at mid local l) refl

  abbrev pub Finds : ℕ → ℕ → ℕ → GtidSeq → Type 0
  Finds fuel low high local =
      (i : ℕ) × (search_loop fuel timestamp (map serialize ss) low high local ≡ some i)
      × IsLastUpTo ss timestamp i

  module _ (fuel low high mid : ℕ) (local : GtidSeq) (meets : leb low high ≡ true)
      (e : mid ≡ low + (high - low) / 2) (l : mid < length ss) where
    search_down :
        ltb timestamp (version_at ss mid) ≡ true
        → 0 < mid
        → Finds fuel low (mid - 1) (seq_at ss mid)
        → Finds (suc fuel) low high local
    search_down above positive (i, found, last) =
        let back : (mid + 2 ^ 64 - 1) % 2 ^ 64 ≡ mid - 1 = omega arith in
        (i, search_step fuel low high mid local meets e l ∙ rw (above, back) found, last)

    search_up :
        ltb timestamp (version_at ss mid) ≡ false
        → Finds fuel (mid + 1) high (seq_at ss mid)
        → Finds (suc fuel) low high local
    search_up upto (i, found, last) =
        (i, search_step fuel low high mid local meets e l ∙ rw upto found, last)

  pub search_loop-found :
      (fuel low high : ℕ) (local : GtidSeq)
      → high + 1 < low + fuel
      → low ≤ high + 1
      → high < length ss
      → ((j : ℕ) → j < low → version_at ss j ≤ timestamp)
      → ((j : ℕ) → high < j → j < length ss → timestamp < version_at ss j)
      → Finds fuel low high local
  search_loop-found zero low high local measure meet inside below above = absurd (omega arith)
  search_loop-found (suc fuel) low high local measure meet inside below above =
      let mid = low + (high - low) / 2 in
      elim (Bool-cases (leb low high)) [
        | inr crossed ↦ (
          high,
          search_ends fuel low high local crossed,
          (inside, below high (leb→gt low high crossed), above),
        )
        | inl meets ↦
            let le : low ≤ high = leb→le low high meets in
            elim (Bool-cases (ltb timestamp (version_at ss mid))) [
              | inl over ↦
                  let lt : timestamp < version_at ss mid =
                    ltb→lt timestamp (version_at ss mid) over in
                  let positive : 0 < mid = not_first mid lt in
                  search_down fuel low high mid local meets refl (omega arith) over positive (
                    search_loop-found fuel low (mid - 1) (seq_at ss mid) (omega arith) (omega arith)
                      (omega arith) below
                      (λ j h hj. omega (arith, ordered mid j (omega arith) hj, lt)))
              | inr upto ↦
                  let ge : version_at ss mid ≤ timestamp = ground (arith, upto) in
                  search_up fuel low high mid local meets refl (omega arith) upto (
                    search_loop-found fuel (mid + 1) high (seq_at ss mid) (omega arith)
                      (omega arith) inside
                      (λ j h. omega (arith, ordered j mid (omega arith) (omega arith), ge)) above)
            ]
      ]
    where
      not_first : (mid : ℕ) → timestamp < version_at ss mid → 0 < mid
      not_first zero h = absurd (omega (arith, first))
      not_first (suc mid) h = omega arith
