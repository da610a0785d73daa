-- ===== src/GtidSet/Merge.antt =====
-- The merging of ranges that come in the order of their starts.
use Prim.Native.Nat.{max}
use oblogproxy.Common.{
  ℕ, ◌+◌, ◌%◌, ◌^◌, ◌≤◌, ◌<◌, ◌≡◌, ◌∙◌, refl, sym, ap, subst, List, [], ◌∷◌, ◌++◌, Bool, true,
  false, ◌&&◌, ◌||◌, leb, ◌==◌, All, arith, inl, inr, Bool-cases,
}
use oblogproxy.GtidSet.Message.{TxnRange, GtidMessage, covers, merge_loop, merge_txn_range}

-- A range of transaction ids, which start at 1.
abbrev pub IsRange : TxnRange → Type 0
IsRange r = (0 < r.0) × (r.0 ≤ r.1) × (r.1 + 1 < 2 ^ 64)

-- The starts do not go below `lowest`, nor down.
abbrev pub OrderedFrom : ℕ → List TxnRange → Type 0
OrderedFrom lowest [] = Unit {0}
OrderedFrom lowest (r ∷ rs) = (lowest ≤ r.0) × OrderedFrom r.0 rs

-- Each range leaves out one id at least before the next one; `past` is behind the last range.
abbrev pub SeparatedFrom : ℕ → List TxnRange → Type 0
SeparatedFrom past [] = Unit {0}
SeparatedFrom past (r ∷ rs) = (past < r.0) × (r.0 ≤ r.1) × SeparatedFrom (r.1 + 1) rs

OrderedFrom-lower : (a b : ℕ) (rs : List TxnRange) → a ≤ b → OrderedFrom b rs → OrderedFrom a rs
OrderedFrom-lower a b [] h o = tt
OrderedFrom-lower a b (r ∷ rs) h (low, o) = (omega (arith, h, low), o)

-- Two ranges that meet are one.
joined :
    (x start end first second : ℕ) (rest : Bool)
    → start ≤ first
    → first ≤ end + 1
    → ((leb start x && leb x (max end second)) || rest)
      ≡ ((leb start x && leb x end) || ((leb first x && leb x second) || rest))
joined x start end first second rest low meets = ground arith

-- The three steps of the loop once a range is open.
module _ (start end : ℕ) (positive : 0 < start) where
  not_zero : (start == 0) ≡ false
  not_zero = ground arith

  pub merge_loop-end : merge_loop [] start end ≡ (start, end) ∷ []
  unfolding merge_loop
  merge_loop-end = rw not_zero refl

  pub merge_loop-meets :
      (first second : ℕ) (rs : List TxnRange)
      → leb first ((end + 1) % 2 ^ 64) ≡ true
      → merge_loop ((first, second) ∷ rs) start end ≡ merge_loop rs start (max end second)
  unfolding merge_loop
  merge_loop-meets first second rs meets = rw (not_zero, meets) refl

  pub merge_loop-apart :
      (first second : ℕ) (rs : List TxnRange)
      → leb first ((end + 1) % 2 ^ 64) ≡ false
      → merge_loop ((first, second) ∷ rs) start end ≡ (start, end) ∷ merge_loop rs first second
  unfolding merge_loop
  merge_loop-apart first second rs apart = rw (not_zero, apart) refl

-- The next end, without the wrap around.
meets-le :
    (first end : ℕ) → end + 1 < 2 ^ 64 → leb first ((end + 1) % 2 ^ 64) ≡ true → first ≤ end + 1
meets-le first end fits h = ground arith

apart-lt :
    (first end : ℕ) → end + 1 < 2 ^ 64 → leb first ((end + 1) % 2 ^ 64) ≡ false → end + 1 < first
apart-lt first end fits h = ground arith

last_one : (b : Bool) → (b || false) ≡ b
last_one true = refl
last_one false = refl

merge_loop-covers :
    (x : ℕ) (rs : List TxnRange) (start end : ℕ)
    → IsRange (start, end)
    → All IsRange rs
    → OrderedFrom start rs
    → covers x (merge_loop rs start end) ≡ ((leb start x && leb x end) || covers x rs)
merge_loop-covers x [] start end (positive, ordered, fits) hs o =
    rw (merge_loop-end start end positive) refl
merge_loop-covers x ((first, second) ∷ rs) start end (positive, ordered, fits) ((p, q, f), hs)
      (low, o) =
    elim (Bool-cases (leb first ((end + 1) % 2 ^ 64))) [
      | inl meets ↦
          ap (covers x) (merge_loop-meets start end positive first second rs meets)
          ∙ merge_loop-covers x rs start (max end second) (positive, omega arith, omega arith) hs
              (OrderedFrom-lower start first rs low o)
          ∙ joined x start end first second (covers x rs) low (meets-le first end fits meets)
      | inr apart ↦
          ap (covers x) (merge_loop-apart start end positive first second rs apart)
          ∙ ap (λ b. (leb start x && leb x end) || b)
              (merge_loop-covers x rs first second (p, q, f) hs o)
    ]

merge_loop-Separated :
    (past : ℕ) (rs : List TxnRange) (start end : ℕ)
    → IsRange (start, end)
    → All IsRange rs
    → past < start
    → SeparatedFrom past (merge_loop rs start end)
merge_loop-Separated past [] start end (positive, ordered, fits) hs l =
    subst (SeparatedFrom past) (sym (merge_loop-end start end positive)) (l, ordered, tt)
merge_loop-Separated past ((first, second) ∷ rs) start end (positive, ordered, fits) ((p, q, f), hs)
      l =
    elim (Bool-cases (leb first ((end + 1) % 2 ^ 64))) [
      | inl meets ↦
          subst (SeparatedFrom past)
            (sym (merge_loop-meets start end positive first second rs meets))
            (merge_loop-Separated past rs start (max end second)
              (positive, omega arith, omega arith) hs l)
      | inr apart ↦
          subst (SeparatedFrom past)
            (sym (merge_loop-apart start end positive first second rs apart))
            (
              l,
              ordered,
              merge_loop-Separated (end + 1) rs first second (p, q, f) hs
                  (apart-lt first end fits apart),
            )
    ]

pub merge_loop-first :
    (r : TxnRange) (rs : List TxnRange) → merge_loop (r ∷ rs) 0 0 ≡ merge_loop rs r.0 r.1
unfolding merge_loop
merge_loop-first r rs = refl

merge_loop-nil : merge_loop [] 0 0 ≡ []
unfolding merge_loop
merge_loop-nil = refl

pub covers-append :
    (x : ℕ) (rs ss : List TxnRange) → covers x (rs ++ ss) ≡ (covers x rs || covers x ss)
covers-append x [] ss = refl
covers-append x ((first, second) ∷ rs) ss =
    ap (λ b. (leb first x && leb x second) || b) (covers-append x rs ss)
    ∙ sym (or_assoc (leb first x && leb x second) (covers x rs) (covers x ss))
  where
    or_assoc : (a b c : Bool) → ((a || b) || c) ≡ (a || (b || c))
    or_assoc true b c = refl
    or_assoc false b c = refl

-- If the ranges of `message` and then of `target` are ranges of ids and come in the order of their
-- starts, `target` has exactly the ids of both afterwards, in ranges that neither touch nor overlap.
pub merge_txn_range-covers :
    (message target : GtidMessage)
    → All IsRange (message.txn_range ++ target.txn_range)
    → OrderedFrom 0 (message.txn_range ++ target.txn_range)
    → ((x : ℕ)
        → covers x (merge_txn_range message target).txn_range
          ≡ (covers x message.txn_range || covers x target.txn_range))
      × SeparatedFrom 0 (merge_txn_range message target).txn_range
unfolding merge_txn_range
merge_txn_range-covers message target hs o = (
  λ x.
      whole x (message.txn_range ++ target.txn_range) hs o
      ∙ covers-append x message.txn_range target.txn_range,
  apart (message.txn_range ++ target.txn_range) hs,
)
  where
    whole :
        (x : ℕ) (rs : List TxnRange)
        → All IsRange rs
        → OrderedFrom 0 rs
        → covers x (merge_loop rs 0 0) ≡ covers x rs
    whole x [] h' o' = ap (covers x) merge_loop-nil
    whole x (r ∷ rs) (h', hs') (low, o') =
        ap (covers x) (merge_loop-first r rs) ∙ merge_loop-covers x rs r.0 r.1 h' hs' o'

    apart : (rs : List TxnRange) → All IsRange rs → SeparatedFrom 0 (merge_loop rs 0 0)
    apart [] h' = subst (SeparatedFrom 0) (sym merge_loop-nil) tt
    apart (r ∷ rs) (h', hs') =
        subst (SeparatedFrom 0) (sym (merge_loop-first r rs))
          (merge_loop-Separated 0 rs r.0 r.1 h' hs' h'.0)
