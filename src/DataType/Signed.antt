-- ===== src/DataType/Signed.antt =====
-- The integers of a column are written as the two's complement of the number that their text stands
-- for, and a fraction is cut at its precision.
use oblogproxy.Common.{
  ℕ, zero, suc, ◌-◌, ◌/◌, ◌^◌, ◌≤◌, ◌<◌, ◌≡◌, ◌≢◌, sym, ap, ◌∙◌, List, [], ◌∷◌, if◌then◌else◌, leb,
  ◌==◌, some, arith, All, append-nil,
}
use native.Mathlib.Nat.{div-div-eq-div-mul}
use oblogproxy.Bytes.{le_bytes}
use oblogproxy.Bytes.Widths.{int_variable_store-le_bytes}
use oblogproxy.Event.Memory.{c_string}
use oblogproxy.Text.Split.{c_string-whole, All-map}
use oblogproxy.Text.Decimal.{
  to_string, IsDigit, to_string-IsDigit, scan_sign, skip_space, scan_sign-to_string,
  scan_sign-negative,
}
use oblogproxy.DataType.Int.{ℤ, pos, negsuc, pos_part, neg_part, ◌-ℤ◌}
use oblogproxy.DataType.Numbers.{
  stoull, int_two_complement, get_number_len, padded, cut_out, cutout_or_pad_zero,
}

-- The text of an integer, its range, and its two's complement on 64 bits.
abbrev pub signed_text : ℤ → List ℕ
signed_text (pos n) = to_string n
signed_text (negsuc n) = b'-' ∷ to_string (suc n)

abbrev pub Is64Bits : ℤ → Type 0
Is64Bits (pos n) = n < 2 ^ 64
Is64Bits (negsuc n) = n < 2 ^ 63

abbrev pub bits_of : ℤ → ℕ
bits_of (pos n) = n
bits_of (negsuc n) = 2 ^ 64 - suc n

NonNul-digits : (n : ℕ) → All (λ b. b ≢ 0) (to_string n)
NonNul-digits n =
    All-map IsDigit (λ b. b ≢ 0) (to_string n) (λ b h. λ e. absurd (omega (arith, h.0, e)))
      (to_string-IsDigit n)

c_string-signed_text : (v : ℤ) → c_string (signed_text v) ≡ signed_text v
c_string-signed_text (pos n) = c_string-whole (to_string n) (NonNul-digits n)
c_string-signed_text (negsuc n) =
    c_string-whole (b'-' ∷ to_string (suc n))
      ((λ e. absurd (omega (arith, e))), NonNul-digits (suc n))

stoull-signed_text : (v : ℤ) → Is64Bits v → stoull (signed_text v) ≡ some (bits_of v)
unfolding stoull
stoull-signed_text (pos n) h =
    let scanned =
      ap (λ t. scan_sign (skip_space t)) (sym (append-nil (to_string n)))
      ∙ scan_sign-to_string n [] h tt in
    rw scanned (ground arith)
stoull-signed_text (negsuc n) h = rw (scan_sign-negative (suc n) (omega arith)) (ground arith)

-- For a signed or unsigned 64-bit integer and a width of 1 to 6 or 8 bytes, the value of a column is
-- as many low bytes of the two's complement, the lowest first.
pub int_two_complement-signed_text :
    (len : ℕ) (v : ℤ)
    → Is64Bits v
    → len ≤ 8
    → len ≢ 7
    → int_two_complement len (signed_text v) ≡ some (le_bytes len (bits_of v))
unfolding int_two_complement
int_two_complement-signed_text len v h small odd =
    rw (c_string-signed_text v, stoull-signed_text v h)
      (ap some (int_variable_store-le_bytes (bits_of v) len ∙ chosen))
  where
    chosen :
        (if len == 7 then [] else if leb len 8 then le_bytes len (bits_of v) else [])
        ≡ le_bytes len (bits_of v)
    chosen = ground (arith, small, odd)

cut_out-div : (rounds number : ℕ) → cut_out rounds number ≡ number / 10 ^ rounds
unfolding cut_out
cut_out-div zero number = grind arith
cut_out-div (suc rounds) number =
    cut_out-div rounds (number / 10)
    ∙ div-div-eq-div-mul number 10 (10 ^ rounds)
    ∙ ap (λ m. number / m) (omega arith)

-- A fraction that is given with `p` digits, of which `prefix` are zeros in front of the number, is cut
-- to the first `k` of them: whatever the length of its number, this divides by 10 ^ (p - k).
pub cutout_or_pad_zero-fraction :
    (number k p : ℕ)
    → k ≤ p
    → cutout_or_pad_zero number (pos k -ℤ (pos p -ℤ pos (get_number_len number)))
      ≡ number / 10 ^ (p - k)
unfolding cutout_or_pad_zero
cutout_or_pad_zero-fraction number k p h =
    rw (nothing_missing (get_number_len number), too_many (get_number_len number))
      (unfold padded in cut_out-div (p - k) number)
  where
    nothing_missing : (len : ℕ) → pos_part (pos k -ℤ (pos p -ℤ pos len) -ℤ pos len) ≡ 0
    nothing_missing len = ground (arith, h)

    too_many : (len : ℕ) → neg_part (pos k -ℤ (pos p -ℤ pos len) -ℤ pos len) ≡ p - k
    too_many len = ground (arith, h)
