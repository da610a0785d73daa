-- ===== src/BinlogIndex/Update/Seek.antt =====
-- `seekg_last_line` stops at the start of the last line.
use oblogproxy.Common.{
  ℕ, zero, suc, ◌+◌, ◌≤◌, ◌<◌, ◌≡◌, refl, sym, ap, ◌∙◌, List, [], ◌∷◌, ◌++◌, true, false, ◌==◌, ◌⊎◌,
  inl, inr, some, arith, length, get_elem?, length-append, zero_add, suc_add, if◌then◌else◌,
}
use oblogproxy.Text.Lines.{newline, IsLine}
use oblogproxy.BinlogIndex.Update.{is_newline, seek_back, seekg_last_line}

get_past : (xs ys : List ℕ) (j : ℕ) → get_elem? (xs ++ ys) (length xs + j) ≡ get_elem? ys j
get_past [] ys j = ap (get_elem? ys) (zero_add j)
get_past (x ∷ xs) ys j = ap (get_elem? (x ∷ (xs ++ ys))) (suc_add (length xs) j) ∙ get_past xs ys j

line_byte :
    (line rest : List ℕ) (j : ℕ)
    → IsLine line
    → j < length line
    → is_newline (get_elem? (line ++ rest) j) ≡ false
line_byte [] rest j h l = absurd (omega arith)
line_byte (b ∷ line) rest zero (h, hs) l = ground arith
line_byte (b ∷ line) rest (suc j) (h, hs) l = line_byte line rest j hs (omega arith)

seek_step :
    (i : ℕ) (file : List ℕ)
    → seek_back (suc (suc i)) file ≡ (
        if i == 0
        then 0
        else if is_newline (get_elem? file i)
        then i + 1
        else seek_back (suc i) file)
unfolding seek_back
seek_step i file = refl

-- What stands in front of a line: nothing, or more than one byte with a newline at the end.
pub data LineStart : List ℕ → Type 0 where
  first : LineStart []
  after : (c : ℕ) (q : List ℕ) → LineStart ((c ∷ q) ++ newline ∷ [])

newline_at :
    (q rest : List ℕ) → is_newline (get_elem? ((q ++ newline ∷ []) ++ rest) (length q)) ≡ true
newline_at [] rest = refl
newline_at (c ∷ q) rest = newline_at q rest

-- A step at an offset where the byte before the last is not the first of the file.
seek_found :
    (i : ℕ) (file : List ℕ)
    → is_newline (get_elem? file (suc i)) ≡ true
    → seek_back (suc (suc (suc i))) file ≡ suc (suc i)
unfolding seek_back
seek_found i file h = ground (arith, h)

seek_on :
    (i : ℕ) (file : List ℕ)
    → is_newline (get_elem? file i) ≡ false
    → 0 < i
    → seek_back (suc (suc i)) file ≡ seek_back (suc i) file
seek_on i file h positive = ground (arith, h, seek_step i file)

seek_zero : (i : ℕ) (file : List ℕ) → i ≡ 0 → seek_back (suc (suc i)) file ≡ 0
seek_zero i file h = ground (arith, seek_step i file)

at_start :
    (pre rest : List ℕ) → LineStart pre → seek_back (suc (length pre)) (pre ++ rest) ≡ length pre
at_start pre rest first = unfold seek_back in refl
at_start pre rest (after c q) =
    ap (λ k. seek_back (suc (suc k)) ((c ∷ q ++ newline ∷ []) ++ rest)) places
    ∙ seek_found (length q) ((c ∷ q ++ newline ∷ []) ++ rest) (newline_at (c ∷ q) rest)
    ∙ ap suc (sym places)
  where
    places : length (q ++ newline ∷ []) ≡ suc (length q)
    places = omega (arith, length-append q (newline ∷ []))

-- From each offset in the last line the search comes to its start.
seek_back-line :
    (pre line : List ℕ) (j : ℕ)
    → LineStart pre
    → IsLine line
    → j ≤ length line
    → seek_back (suc (length pre + j)) (pre ++ (line ++ newline ∷ [])) ≡ length pre
seek_back-line pre line zero start h l =
    ap (λ k. seek_back (suc k) (pre ++ (line ++ newline ∷ []))) (omega arith)
    ∙ at_start pre (line ++ newline ∷ []) start
seek_back-line pre line (suc j) start h l =
    ap (λ k. seek_back (suc k) file) (omega arith) ∙ elim (Nat-cases (length pre + j)) [
      | inl nothing ↦ seek_zero (length pre + j) file nothing ∙ omega arith
      | inr positive ↦
          seek_on (length pre + j) file
            (ap is_newline (get_past pre (line ++ newline ∷ []) j)
              ∙ line_byte line (newline ∷ []) j h (omega arith))
            positive
          ∙ seek_back-line pre line j start h (omega arith)
    ]
  where
    file : List ℕ
    file = pre ++ (line ++ newline ∷ [])

    Nat-cases : (n : ℕ) → (n ≡ 0) ⊎ (0 < n)
    Nat-cases zero = inl refl
    Nat-cases (suc n) = inr (omega arith)

-- In a file whose last line has a byte at least, the search finds the offset of that line.
pub seekg_last_line-line :
    (pre line : List ℕ)
    → LineStart pre
    → IsLine line
    → 0 < length line
    → seekg_last_line (pre ++ (line ++ newline ∷ [])) ≡ some (length pre)
unfolding seekg_last_line
seekg_last_line-line pre line start h l = ground (
  arith,
  whole,
  seek_back-line pre line (length line) start h,
  ap (λ k. seek_back k (pre ++ (line ++ newline ∷ []))) whole,
)
  where
    whole : length (pre ++ (line ++ newline ∷ [])) ≡ suc (length pre + length line)
    whole =
        omega (arith, length-append pre (line ++ newline ∷ []), length-append line (newline ∷ []))
