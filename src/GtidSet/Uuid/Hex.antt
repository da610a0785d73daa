-- ===== src/GtidSet/Uuid/Hex.antt =====
-- Hexadecimal digits are read back.
use oblogproxy.Common.{
  ℕ, ◌+◌, ◌*◌, ◌/◌, ◌%◌, ◌<◌, ◌≡◌, ◌≢◌, refl, sym, ap, ◌∙◌, subst, List, [], ◌∷◌, ◌++◌, map, false,
  ◌==◌, none, some, All, arith, length,
}
use oblogproxy.Text.Decimal.{is_space, skip_space}
use oblogproxy.GtidSet.Uuid.{
  hex_digit, dumphex, to_lower, hex_value, read_hex, hex_element, element_of, hex_to_bin,
}

abbrev pub IsByte : ℕ → Type 0
IsByte b = b < 256

-- The digits of bytes in lower case.
abbrev pub hex : List ℕ → List ℕ
hex bs = map to_lower (dumphex bs)

-- A lower case digit: neither space nor sign, nor a separator of the texts of sets.
record IsDigitOf (n c : ℕ) : Type 0 where
  value : hex_value c ≡ some n
  no_space : is_space c ≡ false
  no_minus : (c == b'-') ≡ false
  no_plus : (c == b'+') ≡ false
  inside : (c ≢ 0) × (c ≢ b'-') × (c ≢ b':')

digit-IsDigitOf : (n : ℕ) → n < 16 → IsDigitOf n (to_lower (hex_digit n))
digit-IsDigitOf n h = record {
  value = ground arith;
  no_space = ground arith;
  no_minus = ground arith;
  no_plus = ground arith;
  inside = (ground arith, ground arith, ground arith);
}

read_hex-digit :
    (n d c : ℕ) (s : List ℕ) → hex_value c ≡ some d → read_hex n (c ∷ s) ≡ read_hex (n * 16 + d) s
unfolding read_hex
read_hex-digit n d c s h =
    subst (λ o. (elim o [ none ↦ n | some v ↦ read_hex (n * 16 + v) s ]) ≡ read_hex (n * 16 + d) s)
      (sym h) refl

read_hex_end : (n : ℕ) → read_hex n [] ≡ n
unfolding read_hex
read_hex_end n = refl

skip_space-none : (c : ℕ) (s : List ℕ) → is_space c ≡ false → skip_space (c ∷ s) ≡ c ∷ s
unfolding skip_space
skip_space-none c s h = rw h refl

hex_element-pair :
    (m n c d : ℕ) → IsDigitOf m c → IsDigitOf n d → hex_element (c ∷ d ∷ []) ≡ (m * 16 + n) % 256
unfolding hex_element
hex_element-pair m n c d h k =
    ap element_of (skip_space-none c (d ∷ []) h.no_space)
    ∙ rw (h.no_minus, h.no_plus)
        (ap (λ v. v % 256)
          (read_hex-digit 0 m c (d ∷ []) h.value
            ∙ read_hex-digit (0 * 16 + m) n d [] k.value
            ∙ read_hex_end ((0 * 16 + m) * 16 + n)
            ∙ omega arith))

pub hex_to_bin-hex : (bs : List ℕ) → All IsByte bs → hex_to_bin (hex bs) ≡ bs
unfolding hex_to_bin dumphex
hex_to_bin-hex [] h = refl
hex_to_bin-hex (b ∷ bs) (h, hs) =
    rw
      (
        hex_element-pair (b / 16) (b % 16) _ _ (digit-IsDigitOf (b / 16) (omega arith))
            (digit-IsDigitOf (b % 16) (omega arith)),
        hex_to_bin-hex bs hs,
      )
      (ap (λ c. c ∷ bs) (omega arith))

pub length-hex : (bs : List ℕ) → length (hex bs) ≡ 2 * length bs
unfolding dumphex
length-hex [] = refl
length-hex (b ∷ bs) = omega (arith, length-hex bs)

pub hex-append : (xs ys : List ℕ) → hex (xs ++ ys) ≡ hex xs ++ hex ys
unfolding dumphex
hex-append [] ys = refl
hex-append (x ∷ xs) ys = rw (hex-append xs ys) refl

pub hex-Inside :
    (bs : List ℕ) → All IsByte bs → All (λ c. (c ≢ 0) × (c ≢ b'-') × (c ≢ b':')) (hex bs)
unfolding dumphex
hex-Inside [] h = tt
hex-Inside (b ∷ bs) (h, hs) = (
  (digit-IsDigitOf (b / 16) (omega arith)).inside,
  ((digit-IsDigitOf (b % 16) (omega arith)).inside, hex-Inside bs hs),
)
