-- ===== src/Text/Lines.antt =====
-- `getline`: the lines of a file, whose last line may lack its newline.
use oblogproxy.Common.{
  ℕ, ◌≡◌, ◌≢◌, refl, List, [], ◌∷◌, ◌++◌, if◌then◌else◌, ◌==◌, All, arith, append_assoc, ap, ◌∙◌,
}

abbrev pub newline : ℕ
newline = 10

-- A byte in front of the first line.
abbrev pub prepend : ℕ → List (List ℕ) → List (List ℕ)
prepend b [] = (b ∷ []) ∷ []
prepend b (l ∷ ls) = (b ∷ l) ∷ ls

unfoldable pub lines : List ℕ → List (List ℕ)
lines [] = []
lines (b ∷ bs) = let rest = lines bs in if b == newline then [] ∷ rest else prepend b rest

-- Each line with its newline.
unfoldable pub unlines : List (List ℕ) → List ℕ
unlines [] = []
unlines (l ∷ ls) = l ++ newline ∷ unlines ls

abbrev pub IsLine : List ℕ → Type 0
IsLine l = All (λ b. b ≢ newline) l

pub lines-line : (l rest : List ℕ) → IsLine l → lines (l ++ newline ∷ rest) ≡ l ∷ lines rest
unfolding lines
lines-line [] rest h = refl
lines-line (b ∷ l) rest (h, hs) = ground (arith, lines-line l rest hs)

pub lines-unlines : (ls : List (List ℕ)) → All IsLine ls → lines (unlines ls) ≡ ls
unfolding unlines
lines-unlines [] h = unfold lines in refl
lines-unlines (l ∷ ls) (h, hs) = lines-line l (unlines ls) h ∙ ap (◌∷◌ l) (lines-unlines ls hs)

pub unlines-append : (ls ms : List (List ℕ)) → unlines (ls ++ ms) ≡ unlines ls ++ unlines ms
unfolding unlines
unlines-append [] ms = refl
unlines-append (l ∷ ls) ms = rw (unlines-append ls ms, append_assoc) refl

prepend-IsLine :
    (b : ℕ) (ls : List (List ℕ)) → b ≢ newline → All IsLine ls → All IsLine (prepend b ls)
prepend-IsLine b [] h hs = ((h, tt), tt)
prepend-IsLine b (l ∷ ls) h (hl, hs) = ((h, hl), hs)

-- No line holds a newline.
pub lines-IsLine : (bs : List ℕ) → All IsLine (lines bs)
unfolding lines
lines-IsLine [] = tt
lines-IsLine (b ∷ bs) = ground (arith, lines-IsLine bs, prepend-IsLine b (lines bs))

-- `getline` of C keeps the newline.
unfoldable pub raw_lines : List ℕ → List (List ℕ)
raw_lines [] = []
raw_lines (b ∷ bs) =
    let rest = raw_lines bs in if b == newline then (b ∷ []) ∷ rest else prepend b rest

pub raw_lines-line :
    (l rest : List ℕ)
    → IsLine l
    → raw_lines (l ++ newline ∷ rest) ≡ (l ++ newline ∷ []) ∷ raw_lines rest
unfolding raw_lines
raw_lines-line [] rest h = refl
raw_lines-line (b ∷ l) rest (h, hs) = ground (arith, raw_lines-line l rest hs)
