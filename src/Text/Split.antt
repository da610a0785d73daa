-- ===== src/Text/Split.antt =====
-- `split` of common/str.cpp. The loop reads the text as a C string, up to its first NUL.
use oblogproxy.Common.{
  ℕ, ◌≡◌, ◌≢◌, refl, sym, ap, ◌∙◌, List, [], ◌∷◌, ◌++◌, Bool, true, false, not, ◌&&◌, ◌||◌,
  if◌then◌else◌, ◌==◌, All, arith, append_assoc, append-nil,
}
use oblogproxy.Event.Memory.{c_string}

-- `cur` is what stands between `p_pre` and `p_cur`.
unfoldable pub split_loop : ℕ → Bool → Bool → List ℕ → List ℕ → List (List ℕ)
split_loop sep first flag [] cur = cur ∷ []
split_loop sep first flag (b ∷ bs) cur =
    let cut = split_loop sep first true bs [] in
    let on = split_loop sep first flag bs (cur ++ b ∷ []) in
    if (b == sep) && (not first || not flag) then cur ∷ cut else on

unfoldable pub split : List ℕ → ℕ → Bool → List (List ℕ)
unfolding split_loop c_string
split [] sep first = []
split (b ∷ bs) sep first = split_loop sep first false (c_string (b ∷ bs)) []

-- A byte of a part: neither the separator nor the NUL that ends a C string.
abbrev pub Inside : ℕ → ℕ → Type 0
Inside sep b = (b ≢ 0) × (b ≢ sep)

module _ (sep : ℕ) where
  split_loop-within :
      (flag : Bool) (p rest cur : List ℕ)
      → All (Inside sep) p
      → split_loop sep false flag (p ++ rest) cur ≡ split_loop sep false flag rest (cur ++ p)
  unfolding split_loop
  split_loop-within flag [] rest cur h = rw append-nil refl
  split_loop-within flag (b ∷ p) rest cur ((nul, apart), h) =
      ground (arith, split_loop-within flag p rest (cur ++ b ∷ []) h, append_assoc cur (b ∷ []) p)

  split_loop-cut :
      (flag : Bool) (rest cur : List ℕ)
      → split_loop sep false flag (sep ∷ rest) cur ≡ cur ∷ split_loop sep false true rest []
  unfolding split_loop
  split_loop-cut flag rest cur = ground arith

  split_loop-end : (flag : Bool) (cur : List ℕ) → split_loop sep false flag [] cur ≡ cur ∷ []
  unfolding split_loop
  split_loop-end flag cur = refl

  -- A part and the separator behind it.
  split_loop-part :
      (flag : Bool) (p rest : List ℕ)
      → All (Inside sep) p
      → split_loop sep false flag (p ++ sep ∷ rest) [] ≡ p ∷ split_loop sep false true rest []
  split_loop-part flag p rest h =
      rw (split_loop-within flag p (sep ∷ rest) [] h, split_loop-cut flag rest p) refl

  -- The last part.
  split_loop-last :
      (flag : Bool) (p : List ℕ) → All (Inside sep) p → split_loop sep false flag p [] ≡ p ∷ []
  split_loop-last flag p h =
      ap (λ q. split_loop sep false flag q []) (sym (append-nil p))
      ∙ split_loop-within flag p [] [] h
      ∙ split_loop-end flag p

pub c_string-whole : (s : List ℕ) → All (λ b. b ≢ 0) s → c_string s ≡ s
unfolding c_string
c_string-whole [] h = refl
c_string-whole (b ∷ s) (h, hs) = ground (arith, c_string-whole s hs)

-- Parts with the separator between them.
abbrev pub joined : ℕ → List ℕ → List (List ℕ) → List ℕ
joined sep p [] = p
joined sep p (q ∷ qs) = p ++ sep ∷ joined sep q qs

pub All-map {ℓ κ μ} :
    {A : Type ℓ} (P : A → Type κ) (Q : A → Type μ) (xs : List A)
    → ((a : A) → P a → Q a)
    → All P xs
    → All Q xs
All-map P Q [] f h = tt
All-map P Q (x ∷ xs) f (h, hs) = (f x h, All-map P Q xs f hs)

pub All-append {ℓ κ} :
    {A : Type ℓ} (P : A → Type κ) (xs ys : List A) → All P xs → All P ys → All P (xs ++ ys)
All-append P [] ys h hs = hs
All-append P (x ∷ xs) ys (h, hs) hys = (h, All-append P xs ys hs hys)

-- A text without NUL is split from its start.
split-text :
    (s : List ℕ) (sep : ℕ)
    → s ≢ []
    → All (λ b. b ≢ 0) s
    → split s sep false ≡ split_loop sep false false s []
unfolding split
split-text [] sep ne h = absurd (ne refl)
split-text (b ∷ s) sep ne h = ap (λ t. split_loop sep false false t []) (c_string-whole (b ∷ s) h)

pub append-cons-ne-nil : (xs ys : List ℕ) (y : ℕ) → xs ++ y ∷ ys ≢ []
append-cons-ne-nil [] ys y = cc
append-cons-ne-nil (x ∷ xs) ys y = cc

module _ (sep : ℕ) (separates : sep ≢ 0) where
  pub joined-NonNul :
      (p : List ℕ) (ps : List (List ℕ))
      → All (All (Inside sep)) (p ∷ ps)
      → All (λ b. b ≢ 0) (joined sep p ps)
  joined-NonNul p [] (h, hs) = All-map (Inside sep) (λ b. b ≢ 0) p (λ b i. i.0) h
  joined-NonNul p (q ∷ qs) (h, hs) =
      All-append (λ b. b ≢ 0) p (sep ∷ joined sep q qs)
        (All-map (Inside sep) (λ b. b ≢ 0) p (λ b i. i.0) h) (separates, joined-NonNul q qs hs)

  split_loop-joined :
      (flag : Bool) (p : List ℕ) (ps : List (List ℕ))
      → All (All (Inside sep)) (p ∷ ps)
      → split_loop sep false flag (joined sep p ps) [] ≡ p ∷ ps
  split_loop-joined flag p [] (h, hs) = split_loop-last sep flag p h
  split_loop-joined flag p (q ∷ qs) (h, hs) =
      split_loop-part sep flag p (joined sep q qs) h ∙ ap (◌∷◌ p) (split_loop-joined true q qs hs)

  -- Parts are split where they were joined, unless there is nothing to split.
  pub split-joined :
      (p : List ℕ) (ps : List (List ℕ))
      → joined sep p ps ≢ []
      → All (All (Inside sep)) (p ∷ ps)
      → split (joined sep p ps) sep false ≡ p ∷ ps
  split-joined p ps ne h =
      split-text (joined sep p ps) sep ne (joined-NonNul p ps h) ∙ split_loop-joined false p ps h

-- Equality of two texts.
unfoldable pub eqb : List ℕ → List ℕ → Bool
eqb [] [] = true
eqb [] (y ∷ ys) = false
eqb (x ∷ xs) [] = false
eqb (x ∷ xs) (y ∷ ys) = (x == y) && eqb xs ys

pub eqb-eq : (xs ys : List ℕ) → eqb xs ys ≡ true → xs ≡ ys
unfolding eqb
eqb-eq [] [] h = refl
eqb-eq [] (y ∷ ys) h = cc
eqb-eq (x ∷ xs) [] h = cc
eqb-eq (x ∷ xs) (y ∷ ys) h = ground (arith, eqb-eq xs ys)

pub eqb_refl : (xs : List ℕ) → eqb xs xs ≡ true
unfolding eqb
eqb_refl [] = refl
eqb_refl (x ∷ xs) = ground (arith, eqb_refl xs)
