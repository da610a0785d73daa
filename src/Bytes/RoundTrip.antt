-- ===== src/Bytes/RoundTrip.antt =====
-- A load reads back what the store of its width wrote, and leaves what follows.

use native.Mathlib.Nat.{pow-suc}
use oblogproxy.Common.{
  ℕ, zero, suc, ◌/◌, ◌^◌, ◌<◌, ◌≡◌, refl, ap, List, [], ◌∷◌, ◌++◌, some, arith, length, take-append,
  drop-append, length-append,
}
use oblogproxy.Bytes.{
  load_bytes, le_bytes, le_value, int1store, int2store, int4store, int6store, int8store, int1load,
  int2load, int4load, int6load, int8load, load_le, sum6, ◌>>=◌,
}

pub length-le_bytes : (n v : ℕ) → length (le_bytes n v) ≡ n
unfolding le_bytes
length-le_bytes zero v = refl
length-le_bytes (suc n) v = ap suc (length-le_bytes n (v / 256))

pub le_value-le_bytes : (n v : ℕ) → v < 256 ^ n → le_value (le_bytes n v) ≡ v
unfolding le_bytes le_value
le_value-le_bytes zero v h = omega arith
le_value-le_bytes (suc n) v h =
    omega (arith, le_value-le_bytes n (v / 256) (omega (arith, pow-suc 256 n)))

pub load_bytes-append :
    (n : ℕ) (xs rest : List ℕ) → length xs ≡ n → load_bytes n (xs ++ rest) ≡ some (xs, rest)
unfolding load_bytes
load_bytes-append n xs rest h =
    rw (← h, take-append, drop-append) (ground (arith, length-append xs rest))

pub load_le-le_bytes :
    (n v : ℕ) (rest : List ℕ) → v < 256 ^ n → load_le n (le_bytes n v ++ rest) ≡ some (v, rest)
unfolding load_le
load_le-le_bytes n v rest h =
    ground (
      arith,
      load_bytes-append n (le_bytes n v) rest (length-le_bytes n v),
      le_value-le_bytes n v h,
    )

pub int1load-cons : (b : ℕ) (rest : List ℕ) → int1load (b ∷ rest) ≡ some (b, rest)
unfolding int1load load_le le_value
int1load-cons b rest = rw (load_bytes-append 1 (b ∷ []) rest refl, ◌>>=◌) (ground arith)

pub int1load-int1store :
    (v : ℕ) (rest : List ℕ) → v < 2 ^ 8 → int1load (int1store v ++ rest) ≡ some (v, rest)
unfolding int1load int1store
int1load-int1store v rest h = load_le-le_bytes 1 v rest (omega arith)

pub int2load-int2store :
    (v : ℕ) (rest : List ℕ) → v < 2 ^ 16 → int2load (int2store v ++ rest) ≡ some (v, rest)
unfolding int2load int2store
int2load-int2store v rest h = load_le-le_bytes 2 v rest (omega arith)

pub int4load-int4store :
    (v : ℕ) (rest : List ℕ) → v < 2 ^ 32 → int4load (int4store v ++ rest) ≡ some (v, rest)
unfolding int4load int4store
int4load-int4store v rest h = load_le-le_bytes 4 v rest (omega arith)

pub int8load-int8store :
    (v : ℕ) (rest : List ℕ) → v < 2 ^ 64 → int8load (int8store v ++ rest) ≡ some (v, rest)
unfolding int8load int8store
int8load-int8store v rest h = load_le-le_bytes 8 v rest (omega arith)

sum6-int6store : (v : ℕ) → v < 2 ^ 48 → sum6 (int6store v) ≡ v
unfolding int6store
sum6-int6store v h = omega arith

pub int6load-int6store :
    (v : ℕ) (rest : List ℕ) → v < 2 ^ 48 → int6load (int6store v ++ rest) ≡ some (v, rest)
unfolding int6load
int6load-int6store v rest h =
    rw
      (load_bytes-append 6 (int6store v) rest (unfold int6store in refl), ◌>>=◌, sum6-int6store v h)

-- The widths that the stores write.
pub length-int1store : (v : ℕ) → length (int1store v) ≡ 1
unfolding int1store
length-int1store v = length-le_bytes 1 v

pub length-int2store : (v : ℕ) → length (int2store v) ≡ 2
unfolding int2store
length-int2store v = length-le_bytes 2 v

pub length-int4store : (v : ℕ) → length (int4store v) ≡ 4
unfolding int4store
length-int4store v = length-le_bytes 4 v

pub length-int6store : (v : ℕ) → length (int6store v) ≡ 6
unfolding int6store
length-int6store v = refl

pub length-int8store : (v : ℕ) → length (int8store v) ≡ 8
unfolding int8store
length-int8store v = length-le_bytes 8 v

pub ruleset store_lengths =
    (length-int1store, length-int2store, length-int4store, length-int6store, length-int8store)
