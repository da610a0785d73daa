-- ===== src/DataType/Packing.antt =====
-- The texts of dates and times as obcdc gives them, and the packed values that the code makes of them.
use oblogproxy.Common.{
  ℕ, zero, suc, ◌+◌, ◌-◌, ◌*◌, ◌/◌, ◌%◌, ◌^◌, ◌≤◌, ◌<◌, ◌≡◌, refl, ap, ◌∙◌, false, if◌then◌else◌,
  arith, max,
}
use Prim.Native.Nat.{bit_or, digits, bit_or-bitwise}
use native.Mathlib.Nat.{mod-eq_of_lt}
use oblogproxy.DataType.Numbers.{widened}
use oblogproxy.DataType.Dates.{IDate, shift_or, packed_datetime}

-- `|` of a number whose `k` low bits are clear and one of `k` bits is their sum.
abbrev or_digits : ℕ → ℕ → ℕ → ℕ
or_digits n a b = digits (λ b. b) max n a b

or_digits_fuel : (n m a b : ℕ) → a ≤ n → a ≤ m → or_digits n a b ≡ or_digits m a b
or_digits_fuel zero zero a b p q = refl
or_digits_fuel zero (suc m) zero b p q = refl
or_digits_fuel zero (suc m) (suc a) b p q = absurd (omega arith)
or_digits_fuel (suc n) zero zero b p q = refl
or_digits_fuel (suc n) zero (suc a) b p q = absurd (omega arith)
or_digits_fuel (suc n) (suc m) zero b p q = refl
or_digits_fuel (suc n) (suc m) (suc a) b p q =
    omega (arith, or_digits_fuel n m (suc a / 2) (b / 2) (omega arith) (omega arith))

zero-bit_or : (b : ℕ) → bit_or 0 b ≡ b
zero-bit_or b = bit_or-bitwise 0 b

pub bit_or_step : (a b : ℕ) → bit_or a b ≡ bit_or (a / 2) (b / 2) * 2 + max (a % 2) (b % 2)
bit_or_step zero b = omega (arith, zero-bit_or b, zero-bit_or (b / 2))
bit_or_step (suc a) b = omega (
  arith,
  bit_or-bitwise (suc a) b,
  bit_or-bitwise (suc a / 2) (b / 2),
  or_digits_fuel a (suc a / 2) (suc a / 2) (b / 2) (omega arith) (omega arith),
)

pub bit_or-zero_fuel : (n a : ℕ) → a ≤ n → bit_or a 0 ≡ a
bit_or-zero_fuel n zero h = zero-bit_or 0
bit_or-zero_fuel zero (suc a) h = absurd (omega arith)
bit_or-zero_fuel (suc n) (suc a) h =
    omega (arith, bit_or_step (suc a) 0, bit_or-zero_fuel n (suc a / 2) (omega arith))

double : (k x : ℕ) → x * 2 ^ suc k ≡ 2 * (x * 2 ^ k)
double k x = let power : 2 ^ suc k ≡ 2 * 2 ^ k = omega arith in rw power (grind arith)

pub bit_or-low : (k x y : ℕ) → y < 2 ^ k → bit_or (x * 2 ^ k) y ≡ x * 2 ^ k + y
bit_or-low zero x y h =
    let none_low : y ≡ 0 = omega arith in
    rw none_low (bit_or-zero_fuel (x * 1) (x * 1) (omega arith) ∙ omega arith)
bit_or-low (suc k) x y h = rw (double k x) (step (x * 2 ^ k) (bit_or-low k x (y / 2) (omega arith)))
  where
    step : (z : ℕ) → bit_or z (y / 2) ≡ z + y / 2 → bit_or (2 * z) y ≡ 2 * z + y
    step z ih =
        let half : 2 * z / 2 ≡ z = omega arith in
        let below : bit_or (2 * z / 2) (y / 2) ≡ z + y / 2 = rw half ih in
        omega (arith, bit_or_step (2 * z) y, below)

shift_or-low :
    (time k v : ℕ) → v < 2 ^ k → time * 2 ^ k < 2 ^ 64 → shift_or time k v ≡ time * 2 ^ k + v
shift_or-low time k v h fits = rw (mod-eq_of_lt fits) (bit_or-low k time v h)

widened_small : (v : ℕ) → v < 2 ^ 31 → widened v ≡ v
widened_small v h = ground arith

-- Fields that have the widths of a DATETIME value, and no sign.
pub record IsPackable (d : IDate) : Type 0 where
  pub months : d.year * 13 + d.month < 2 ^ 17
  pub day : d.day < 2 ^ 5
  pub hour : d.hour < 2 ^ 5
  pub minute : d.minute < 2 ^ 6
  pub second : d.second < 2 ^ 6
  pub positive : d.negative ≡ false

-- The number that such fields are packed to: 17 bits for 13 months a year, and 5, 5, 6 and 6 bits.
abbrev pub datetime_value : IDate → ℕ
datetime_value d =
    (d.year * 13 + d.month) * 2 ^ 22
    + d.day * 2 ^ 17
    + d.hour * 2 ^ 12
    + d.minute * 2 ^ 6
    + d.second

-- One more field behind those that are packed.
field :
    (t x k v : ℕ)
    → t ≡ x
    → v < 2 ^ k
    → v < 2 ^ 31
    → x * 2 ^ k < 2 ^ 64
    → shift_or t k (widened v) ≡ x * 2 ^ k + v
field t x k v same h small fits =
    ap (λ n. shift_or n k (widened v)) same
    ∙ ap (shift_or x k) (widened_small v small)
    ∙ shift_or-low x k v h fits

pub packed_datetime-value : (d : IDate) → IsPackable d → packed_datetime d ≡ datetime_value d
unfolding packed_datetime
packed_datetime-value d h =
    let months = d.year * 13 + d.month in
    let date = months * 2 ^ 5 + d.day in
    let hours = date * 2 ^ 5 + d.hour in
    let minutes = hours * 2 ^ 6 + d.minute in
    field _ minutes 6 d.second
      (field _ hours 6 d.minute
        (field _ date 5 d.hour
          (field _ months 5 d.day no_sign h.day (omega (arith, h.day)) (omega (arith, h.months)))
          h.hour (omega (arith, h.hour)) (omega (arith, h.months, h.day)))
        h.minute (omega (arith, h.minute)) (omega (arith, h.months, h.day, h.hour)))
      h.second (omega (arith, h.second)) (omega (arith, h.months, h.day, h.hour, h.minute))
    ∙ omega arith
  where
    months_small : (d.year * 13 + d.month) % 2 ^ 32 ≡ d.year * 13 + d.month
    months_small = omega (arith, h.months)

    no_sign :
        shift_or
          (if d.negative then 2 ^ 64 - 1 else 0)
          17
          (widened ((d.year * 13 + d.month) % 2 ^ 32))
        ≡ d.year * 13 + d.month
    no_sign =
        ap
          (λ b.
            shift_or (if b then 2 ^ 64 - 1 else 0) 17 (widened ((d.year * 13 + d.month) % 2 ^ 32)))
          h.positive
        ∙ ap (λ n. shift_or 0 17 (widened n)) months_small
        ∙ field 0 0 17 (d.year * 13 + d.month) refl h.months (omega (arith, h.months)) (omega arith)
        ∙ omega arith
