-- ===== src/DataType/Bitmaps.antt =====
-- The bits of a bitmap, and what setting one of them leaves.
use oblogproxy.Common.{
  ℕ, zero, suc, ◌*◌, ◌/◌, ◌%◌, ◌^◌, ◌<◌, ◌≡◌, ◌≢◌, ◌⊎◌, inl, inr, refl, sym, ap, ◌∙◌, List, [], ◌∷◌,
  Option, none, some, length, arith, Bool-cases, ◌==◌, get_elem?,
}
use Prim.Native.Nat.{bit_or}
use oblogproxy.DataType.Packing.{bit_or_step, bit_or-zero_fuel}
use oblogproxy.DataType.{◌>>=◌}
use oblogproxy.DataType.Value.{or_at, mark}

-- The bit `k` of a number.
abbrev pub nth_bit : ℕ → ℕ → ℕ
nth_bit zero b = b % 2
nth_bit (suc k) b = nth_bit k (b / 2)

abbrev pub byte_bit : Option ℕ → ℕ → ℕ
byte_bit none k = 0
byte_bit (some b) k = nth_bit k b

-- The bit `i` of a bitmap, 0 behind its end.
abbrev pub bit_at : List ℕ → ℕ → ℕ
bit_at bits i = byte_bit (get_elem? bits (i / 8)) (i % 8)

double_power : (k : ℕ) → 2 ^ suc k ≡ 2 * 2 ^ k
double_power k = omega arith

half_or : (b k : ℕ) → bit_or b (2 ^ suc k) / 2 ≡ bit_or (b / 2) (2 ^ k)
half_or b k =
    let half : 2 ^ suc k / 2 ≡ 2 ^ k = omega arith in
    omega (arith, bit_or_step b (2 ^ suc k), ap (bit_or (b / 2)) half)

low_or : (b k : ℕ) → bit_or b (2 ^ suc k) % 2 ≡ b % 2
low_or b k = let even : 2 ^ suc k % 2 ≡ 0 = omega arith in omega (arith, bit_or_step b (2 ^ suc k))

nth_bit-set : (k b : ℕ) → nth_bit k (bit_or b (2 ^ k)) ≡ 1
nth_bit-set zero b = omega (arith, bit_or_step b 1)
nth_bit-set (suc k) b = ap (nth_bit k) (half_or b k) ∙ nth_bit-set k (b / 2)

nth_bit-other : (j k b : ℕ) → (j ≢ k) → nth_bit j (bit_or b (2 ^ k)) ≡ nth_bit j b
nth_bit-other zero zero b h = absurd (h refl)
nth_bit-other zero (suc k) b h = low_or b k
nth_bit-other (suc j) zero b h =
    ap (nth_bit j) (omega (arith, bit_or_step b 1, bit_or-zero_fuel (b / 2) (b / 2) (omega arith)))
nth_bit-other (suc j) (suc k) b h =
    ap (nth_bit j) (half_or b k) ∙ nth_bit-other j k (b / 2) (λ e. h (ap suc e))

eq_or_ne : (a b : ℕ) → (a ≡ b) ⊎ (a ≢ b)
eq_or_ne a b = elim (Bool-cases (a == b)) [
  | inl equal ↦ inl (ground arith)
  | inr differ ↦ inr (λ e. ground arith)
]

-- `or_at` in the memory changes that byte only.
or_at-get :
    (bits : List ℕ) (k mask : ℕ)
    → k < length bits
    → (bits' : List ℕ) × (b : ℕ) × (or_at bits k mask ≡ some bits')
      × (length bits' ≡ length bits)
      × (get_elem? bits k ≡ some b)
      × (get_elem? bits' k ≡ some (bit_or b mask))
      × ((j : ℕ) → j ≢ k → get_elem? bits' j ≡ get_elem? bits j)
unfolding or_at
or_at-get [] k mask h = absurd (omega arith)
or_at-get (b ∷ bs) zero mask h = (bit_or b mask ∷ bs, b, refl, refl, refl, refl, others)
  where
    others : (j : ℕ) → j ≢ 0 → get_elem? (bit_or b mask ∷ bs) j ≡ get_elem? (b ∷ bs) j
    others zero n = absurd (n refl)
    others (suc j) n = refl
or_at-get (b ∷ bs) (suc k) mask h =
    let (cs, c, e, l, g, g', o) = or_at-get bs k mask (omega arith) in
    (b ∷ cs, c, ap (λ r. r >>= λ ds. some (b ∷ ds)) e, ap suc l, g, g', others cs o)
  where
    others :
        (cs : List ℕ)
        → ((j : ℕ) → j ≢ k → get_elem? cs j ≡ get_elem? bs j)
        → (j : ℕ) → j ≢ suc k
        → get_elem? (b ∷ cs) j ≡ get_elem? (b ∷ bs) j
    others cs o zero n = refl
    others cs o (suc j) n = o j (λ e. n (ap suc e))

-- `mark` sets one bit.
pub mark-bit_at :
    (bits : List ℕ) (i : ℕ)
    → i < 8 * length bits
    → (bits' : List ℕ) × (mark bits i ≡ some bits')
      × (length bits' ≡ length bits)
      × (bit_at bits' i ≡ 1)
      × ((j : ℕ) → j ≢ i → bit_at bits' j ≡ bit_at bits j)
mark-bit_at bits i h =
    let (bits', b, e, l, g, g', o) = or_at-get bits (i / 8) (2 ^ (i % 8)) (omega arith) in
    (bits', e, l, rw g' (nth_bit-set (i % 8) b), others bits' b g g' o)
  where
    others :
        (bits' : List ℕ) (b : ℕ)
        → get_elem? bits (i / 8) ≡ some b
        → get_elem? bits' (i / 8) ≡ some (bit_or b (2 ^ (i % 8)))
        → ((j : ℕ) → j ≢ i / 8 → get_elem? bits' j ≡ get_elem? bits j)
        → (j : ℕ) → j ≢ i
        → bit_at bits' j ≡ bit_at bits j
    others bits' b e_b g o j n = elim (eq_or_ne (j / 8) (i / 8)) [
      | inl same ↦
          ap (λ q. byte_bit (get_elem? bits' q) (j % 8)) same
          ∙ ap (λ r. byte_bit r (j % 8)) g
          ∙ nth_bit-other (j % 8) (i % 8) b (λ e. n (omega arith))
          ∙ sym (ap (λ r. byte_bit r (j % 8)) e_b)
          ∙ sym (ap (λ q. byte_bit (get_elem? bits q) (j % 8)) same)
      | inr differ ↦ ap (λ r. byte_bit r (j % 8)) (o (j / 8) differ)
    ]
