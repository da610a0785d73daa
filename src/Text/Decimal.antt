-- ===== src/Text/Decimal.antt =====
-- The decimal conversions of the C++ library: `std::to_string` of a `uint64_t`, `atoll` and
-- `std::stol`, both with the value that the code stores into a `uint64_t`.
use oblogproxy.Common.{
  ℕ, zero, suc, ◌+◌, ◌-◌, ◌*◌, ◌/◌, ◌%◌, ◌^◌, ◌≤◌, ◌<◌, min, ◌≡◌, ◌≢◌, refl, sym, ap, ◌∙◌,
  append-nil, List, [], ◌∷◌, ◌++◌, Bool, true, false, ◌&&◌, ◌||◌, if◌then◌else◌, ltb, leb, ◌==◌,
  All, arith, Option, none, some,
}

-- The digits of a number in front of `out`, of 20 at most, which a `uint64_t` does not exceed.
unfoldable pub digits : ℕ → ℕ → List ℕ → List ℕ
digits zero n out = out
digits (suc fuel) n out =
    let more = digits fuel (n / 10) ((b'0' + n % 10) ∷ out) in
    if ltb n 10 then (b'0' + n) ∷ out else more

unfoldable pub to_string : ℕ → List ℕ
unfolding digits
to_string n = digits 20 n []

abbrev pub is_digit : ℕ → Bool
is_digit c = leb b'0' c && leb c b'9'

-- The value of the digits that lead a text, behind the value read so far.
unfoldable pub read_digits : ℕ → List ℕ → ℕ
read_digits n [] = n
read_digits n (c ∷ s) =
    let rest = read_digits (n * 10 + (c - b'0')) s in if is_digit c then rest else n

-- `isspace` in the C locale.
abbrev pub is_space : ℕ → Bool
is_space c = (c == 32) || (leb 9 c && leb c 13)

unfoldable pub skip_space : List ℕ → List ℕ
skip_space [] = []
skip_space (c ∷ s) = let rest = skip_space s in if is_space c then rest else c ∷ s

-- Is there a digit, is there a minus, and the magnitude.
pub record Scanned : Type 0 where
  pub found : Bool
  pub negative : Bool
  pub magnitude : ℕ

unfoldable pub scan_magnitude : Bool → List ℕ → Scanned
unfolding read_digits
scan_magnitude negative [] = record { found = false; negative = negative; magnitude = 0 }
scan_magnitude negative (c ∷ s) = record {
  found = is_digit c;
  negative = negative;
  magnitude = read_digits 0 (c ∷ s);
}

unfoldable pub scan_sign : List ℕ → Scanned
unfolding scan_magnitude
scan_sign [] = scan_magnitude false []
scan_sign (c ∷ s) =
    if c == b'-'
    then scan_magnitude true s
    else if c == b'+'
    then scan_magnitude false s
    else scan_magnitude false (c ∷ s)

-- The bits of a signed 64-bit number, at its nearest where it does not fit.
abbrev pub saturated : Scanned → ℕ
saturated r =
    if r.negative
    then (2 ^ 64 - min r.magnitude (2 ^ 63)) % 2 ^ 64
    else min r.magnitude (2 ^ 63 - 1)

unfoldable pub atoll : List ℕ → ℕ
unfolding scan_sign skip_space
atoll s = saturated (scan_sign (skip_space s))

-- `none` is the exception: no number, or one out of range.
unfoldable pub stol : List ℕ → Option ℕ
unfolding scan_sign skip_space
stol s =
    let r = scan_sign (skip_space s) in
    if r.found && leb r.magnitude (if r.negative then 2 ^ 63 else 2 ^ 63 - 1)
    then some (saturated r)
    else none

abbrev pub IsDigit : ℕ → Type 0
IsDigit c = (b'0' ≤ c) × (c ≤ b'9')

digits-IsDigit : (fuel n : ℕ) (out : List ℕ) → All IsDigit out → All IsDigit (digits fuel n out)
unfolding digits
digits-IsDigit zero n out h = h
digits-IsDigit (suc fuel) n out h =
    ground (arith, digits-IsDigit fuel (n / 10) ((b'0' + n % 10) ∷ out))

-- A printed number has digits only.
pub to_string-IsDigit : (n : ℕ) → All IsDigit (to_string n)
unfolding to_string
to_string-IsDigit n = digits-IsDigit 20 n [] tt

-- One more digit.
read_digits_digit :
    (d n : ℕ) (s : List ℕ) → d < 10 → read_digits n ((b'0' + d) ∷ s) ≡ read_digits (n * 10 + d) s
unfolding read_digits
read_digits_digit d n s h = ground arith

-- Reading the digits of `n` in front of `out` goes on with `n` behind them.
read_digits-digits :
    (fuel n : ℕ) (out : List ℕ)
    → n < 10 ^ suc fuel
    → read_digits 0 (digits (suc fuel) n out) ≡ read_digits n out
unfolding digits
read_digits-digits zero n out h = ground (arith, read_digits_digit n 0 out)
read_digits-digits (suc fuel) n out h =
    let power : 10 ^ suc (suc fuel) ≡ 10 ^ suc fuel * 10 = omega arith in
    ground (
      arith,
      read_digits_digit n 0 out,
      read_digits_digit (n % 10) (n / 10) out,
      read_digits-digits fuel (n / 10) ((b'0' + n % 10) ∷ out),
    )

digits-append :
    (fuel n : ℕ) (out rest : List ℕ) → digits fuel n (out ++ rest) ≡ digits fuel n out ++ rest
unfolding digits
digits-append zero n out rest = refl
digits-append (suc fuel) n out rest =
    ground (arith, digits-append fuel (n / 10) ((b'0' + n % 10) ∷ out) rest)

-- What follows a number: nothing, or a byte that is not a digit.
abbrev pub Ends : List ℕ → Type 0
Ends [] = Unit {0}
Ends (c ∷ s) = is_digit c ≡ false

read_digits-Ends : (n : ℕ) (rest : List ℕ) → Ends rest → read_digits n rest ≡ n
unfolding read_digits
read_digits-Ends n [] h = refl
read_digits-Ends n (c ∷ s) h = rw h refl

read_digits-to_string :
    (n : ℕ) (rest : List ℕ) → n < 2 ^ 64 → Ends rest → read_digits 0 (to_string n ++ rest) ≡ n
unfolding to_string
read_digits-to_string n rest h e =
    ap (read_digits 0) (sym (digits-append 20 n [] rest))
    ∙ read_digits-digits 19 n rest (omega arith)
    ∙ read_digits-Ends n rest e

-- A text that begins with a digit is scanned from there.
pub scan_sign-digit :
    (c : ℕ) (s : List ℕ)
    → IsDigit c
    → scan_sign (skip_space (c ∷ s))
      ≡ record { found = true; negative = false; magnitude = read_digits 0 (c ∷ s) }
unfolding scan_sign skip_space
scan_sign-digit c s h = ground arith

digits_cons : (fuel n : ℕ) (c : ℕ) (s : List ℕ) → digits fuel n (c ∷ s) ≢ []
unfolding digits
digits_cons zero n c s = cc
digits_cons (suc fuel) n c s = ground (arith, digits_cons fuel (n / 10) (b'0' + n % 10) (c ∷ s))

pub to_string-ne-nil : (n : ℕ) → to_string n ≢ []
unfolding to_string digits
to_string-ne-nil n = ground (arith, digits_cons 19 (n / 10) (b'0' + n % 10) [])

pub scan_sign-append :
    (t rest : List ℕ)
    → All IsDigit t
    → t ≢ []
    → scan_sign (skip_space (t ++ rest))
      ≡ record { found = true; negative = false; magnitude = read_digits 0 (t ++ rest) }
scan_sign-append [] rest h ne = absurd (ne refl)
scan_sign-append (c ∷ s) rest (h, hs) ne = scan_sign-digit c (s ++ rest) h

pub scan_sign-to_string :
    (n : ℕ) (rest : List ℕ)
    → n < 2 ^ 64
    → Ends rest
    → scan_sign (skip_space (to_string n ++ rest))
      ≡ record { found = true; negative = false; magnitude = n }
scan_sign-to_string n rest h e =
    scan_sign-append (to_string n) rest (to_string-IsDigit n) (to_string-ne-nil n)
    ∙ ap (λ k. record { found = true; negative = false; magnitude = k })
        (read_digits-to_string n rest h e)

-- A number that fits a signed 64-bit integer is read back.
pub atoll-to_string : (n : ℕ) → n < 2 ^ 63 → atoll (to_string n) ≡ n
unfolding atoll
atoll-to_string n h =
    ap saturated (
      ap (λ t. scan_sign (skip_space t)) (sym (append-nil (to_string n)))
      ∙ scan_sign-to_string n [] (omega arith) tt)
    ∙ omega arith

pub stol-to_string :
    (n : ℕ) (rest : List ℕ) → n < 2 ^ 63 → Ends rest → stol (to_string n ++ rest) ≡ some n
unfolding stol
stol-to_string n rest h e = rw (scan_sign-to_string n rest (omega arith) e) (ground arith)

scan_magnitude-append :
    (negative : Bool) (t rest : List ℕ)
    → All IsDigit t
    → t ≢ []
    → scan_magnitude negative (t ++ rest)
      ≡ record { found = true; negative = negative; magnitude = read_digits 0 (t ++ rest) }
unfolding scan_magnitude
scan_magnitude-append negative [] rest h ne = absurd (ne refl)
scan_magnitude-append negative (c ∷ s) rest (h, hs) ne = ground arith

scan_sign-minus : (s : List ℕ) → scan_sign (skip_space (b'-' ∷ s)) ≡ scan_magnitude true s
unfolding scan_sign skip_space
scan_sign-minus s = refl

pub scan_sign-negative :
    (n : ℕ)
    → n < 2 ^ 64
    → scan_sign (skip_space (b'-' ∷ to_string n))
      ≡ record { found = true; negative = true; magnitude = n }
scan_sign-negative n h =
    scan_sign-minus (to_string n)
    ∙ ap (scan_magnitude true) (sym (append-nil (to_string n)))
    ∙ scan_magnitude-append true (to_string n) [] (to_string-IsDigit n) (to_string-ne-nil n)
    ∙ ap (λ k. record { found = true; negative = true; magnitude = k })
        (read_digits-to_string n [] h tt)

-- The text of a negative number is read as its bits.
pub stol-negative : (n : ℕ) → 0 < n → n ≤ 2 ^ 63 → stol (b'-' ∷ to_string n) ≡ some (2 ^ 64 - n)
unfolding stol
stol-negative n positive h = rw (scan_sign-negative n (omega arith)) (ground arith)
