-- ===== src/Lenenc/Agreement.antt =====
-- How the writers and readers of length-encoded integers agree, and where they do not.
use oblogproxy.Common.{
  ℕ, ◌/◌, ◌%◌, ◌^◌, ◌≤◌, ◌<◌, ◌≡◌, ◌⊎◌, List, ◌∷◌, ◌++◌, some, ltb, if◌then◌else◌, length, arith,
  append_assoc, drop, subst, refl,
}
use oblogproxy.Bytes.{◌>>=◌, int2store, int3store, int8store, le_bytes, load_le}
use oblogproxy.Lenenc.{
  packet_store_length, write_lenenc_uint, get_lenenc_uint, get_packed_integer, ullong_max,
  after_first, get_lenenc_wide,
}
use oblogproxy.Bytes.RoundTrip.{int1load-cons, load_le-le_bytes}

get_lenenc_uint-cons : (b : ℕ) (rest : List ℕ) → get_lenenc_uint (b ∷ rest) ≡ after_first b rest
unfolding get_lenenc_uint
get_lenenc_uint-cons b rest = rw (int1load-cons b rest, ◌>>=◌)

-- Below 2 ^ 16, and from 2 ^ 24 on below the largest 64-bit number, the two writers write the same
-- bytes into a buffer with room for nine.
pub write_lenenc_uint-packet_store_length :
    (capacity v : ℕ)
    → 9 ≤ capacity
    → (v < 2 ^ 16) ⊎ ((2 ^ 24 ≤ v) × (v < ullong_max))
    → write_lenenc_uint capacity v ≡ some (packet_store_length v)
unfolding write_lenenc_uint packet_store_length int2store int8store
write_lenenc_uint-packet_store_length capacity v h r = ground arith

-- What `get_lenenc_uint` makes of a number that `write_lenenc_uint` wrote.
abbrev pub read_back : ℕ → ℕ
read_back v =
    if ltb v (2 ^ 16)
    then v
    else if ltb v (2 ^ 24)
    then v / 256
    else if ltb v ullong_max
    then v % 2 ^ 32
    else ullong_max

upper_three :
    (v : ℕ) (rest : List ℕ)
    → v < 2 ^ 24
    → load_le 3 (drop 1 (le_bytes 4 v) ++ rest) ≡ some (v / 256, rest)
upper_three v rest h =
    subst (λ bs. load_le 3 (bs ++ rest) ≡ some (v / 256, rest)) same
      (load_le-le_bytes 3 (v / 256) rest (omega arith))
  where
    same : le_bytes 3 (v / 256) ≡ drop 1 (le_bytes 4 v)
    same = unfold le_bytes in refl

lower_four :
    (v : ℕ) (rest : List ℕ) → get_lenenc_wide (le_bytes 8 v ++ rest) ≡ some (v % 2 ^ 32, rest)
unfolding get_lenenc_wide
lower_four v rest =
    rw (halves, append_assoc, load_le-le_bytes 4 (v % 2 ^ 32) _ (omega arith), ◌>>=◌)
      (unfold le_bytes in refl)
  where
    halves : le_bytes 8 v ≡ le_bytes 4 (v % 2 ^ 32) ++ le_bytes 4 (v / 2 ^ 32)
    halves = unfold le_bytes in ground arith

-- Whenever `write_lenenc_uint` succeeds on a 64-bit number, `get_lenenc_uint` takes exactly the
-- bytes that it wrote; it returns the number itself below 2 ^ 16, the number divided by 256 from
-- there below 2 ^ 24, its low 32 bits from there below the largest 64-bit number, and that number
-- for itself.
pub get_lenenc_uint-write_lenenc_uint :
    (capacity v : ℕ) (bs rest : List ℕ)
    → v < 2 ^ 64
    → write_lenenc_uint capacity v ≡ some bs
    → get_lenenc_uint (bs ++ rest) ≡ some (read_back v, rest)
unfolding write_lenenc_uint after_first
get_lenenc_uint-write_lenenc_uint capacity v bs rest h e = ground (
  arith,
  get_lenenc_uint-cons v rest,
  get_lenenc_uint-cons 0xfb rest,
  get_lenenc_uint-cons 0xfc (le_bytes 2 v ++ rest),
  get_lenenc_uint-cons 0xfd (drop 1 (le_bytes 4 v) ++ rest),
  get_lenenc_uint-cons 0xfe (le_bytes 8 v ++ rest),
  load_le-le_bytes 2 v rest,
  upper_three v rest,
  lower_four v rest,
)

load_le-int3store :
    (v : ℕ) (rest : List ℕ) → v < 2 ^ 24 → load_le 3 (int3store v ++ rest) ≡ some (v, rest)
load_le-int3store v rest h =
    subst (λ bs. load_le 3 (bs ++ rest) ≡ some (v, rest)) same (load_le-le_bytes 3 v rest h)
  where
    same : le_bytes 3 v ≡ int3store v
    same = unfold le_bytes int3store in ground arith

-- `get_lenenc_uint` reads back what `packet_store_length` wrote, for every length of 32 bits.
pub get_lenenc_uint-packet_store_length :
    (v : ℕ) (rest : List ℕ)
    → v < 2 ^ 32
    → get_lenenc_uint (packet_store_length v ++ rest) ≡ some (v, rest)
unfolding packet_store_length after_first int2store int3store int8store
get_lenenc_uint-packet_store_length v rest h = ground (
  arith,
  get_lenenc_uint-cons v rest,
  get_lenenc_uint-cons 252 (le_bytes 2 v ++ rest),
  get_lenenc_uint-cons 253 (int3store v ++ rest),
  get_lenenc_uint-cons 254 (le_bytes 8 v ++ rest),
  load_le-le_bytes 2 v rest,
  load_le-int3store v rest,
  lower_four v rest,
)

-- The size that `get_packed_integer` predicts is the one that `write_lenenc_uint` writes, but for
-- two ranges, where it is too small: it predicts 3 bytes for 4 at [2 ^ 16, 2 ^ 17) and 4 bytes for
-- 9 at [2 ^ 24, 2 ^ 25). (The largest 64-bit number is left out.)
pub get_packed_integer-write_lenenc_uint :
    (capacity v : ℕ) (bs : List ℕ)
    → v < ullong_max
    → write_lenenc_uint capacity v ≡ some bs
    → (length bs ≡ get_packed_integer v)
      ⊎ ((2 ^ 16 ≤ v) × (v < 2 ^ 17) × (length bs ≡ 4) × (get_packed_integer v ≡ 3))
      ⊎ ((2 ^ 24 ≤ v) × (v < 2 ^ 25) × (length bs ≡ 9) × (get_packed_integer v ≡ 4))
unfolding write_lenenc_uint get_packed_integer le_bytes
get_packed_integer-write_lenenc_uint capacity v bs h e = ground arith
