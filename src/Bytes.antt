-- ===== src/Bytes.antt =====
pub mod RoundTrip
pub mod Widths
-- codec/byte_decoder.h: integers in byte buffers. A buffer is the list of its bytes, and a store
-- gives the bytes that it writes; the host is little-endian, as common/codec_endian.h requires.
use oblogproxy.Common.{
  Bool, ℕ, zero, suc, ◌+◌, ◌*◌, ◌/◌, ◌%◌, ◌^◌, List, [], ◌∷◌, ◌++◌, Option, none, some, arith,
  length, take, drop, leb, ◌==◌, if◌then◌else◌, replicate,
}

-- A read takes what it needs from the front of a buffer. `none` is a read past its end.
abbrev pub Read : Type 0 → Type 0
Read A = List ℕ → Option (A × List ℕ)

infixl 5 ◌>>=◌ ◌>>◌
abbrev pub ◌>>=◌ : {A B : Type 0} → Read A → (A → Read B) → Read B
◌>>=◌ m f s = elim (m s) [ none ↦ none | some (a, s') ↦ f a s' ]

abbrev pub ◌>>◌ : {A B : Type 0} → Read A → Read B → Read B
m >> k = m >>= λ _. k

abbrev pub pure : {A : Type 0} → A → Read A
pure a s = some (a, s)

-- `memcpy` of the next `n` bytes.
unfoldable pub load_bytes : ℕ → Read (List ℕ)
load_bytes n s = if leb n (length s) then some (take n s, drop n s) else none

-- `pos += n` with nothing read.
abbrev pub skip : ℕ → Read (Unit {0})
skip n s = some (tt, drop n s)

-- A failed `assert` ends the program.
abbrev pub assert : Bool → Read (Unit {0})
assert b s = if b then some (tt, s) else none

-- What a reader makes of a buffer, wherever it stops.
abbrev pub run : {A : Type 0} → Read A → List ℕ → Option A
run m s = elim (m s) [ none ↦ none | some (a, _) ↦ some a ]

-- The bytes of a number in memory, and the number that bytes hold.
unfoldable pub le_bytes : ℕ → ℕ → List ℕ
le_bytes zero v = []
le_bytes (suc n) v = v % 256 ∷ le_bytes n (v / 256)

unfoldable pub le_value : List ℕ → ℕ
le_value [] = 0
le_value (b ∷ bs) = b + 256 * le_value bs

-- The stores through a typed pointer write the memory image of the integer.
unfoldable pub int1store : ℕ → List ℕ
int1store a = le_bytes 1 a

unfoldable pub int2store : ℕ → List ℕ
int2store a = le_bytes 2 a

unfoldable pub int4store : ℕ → List ℕ
int4store a = le_bytes 4 a

unfoldable pub int8store : ℕ → List ℕ
int8store a = le_bytes 8 a

-- `(unsigned char)(A >> k)`.
abbrev byte_at : ℕ → ℕ → ℕ
byte_at a k = a / 2 ^ k % 256

unfoldable pub int3store : ℕ → List ℕ
int3store a = a % 256 ∷ byte_at a 8 ∷ byte_at a 16 ∷ []

unfoldable pub int5store : ℕ → List ℕ
int5store a = a % 256 ∷ byte_at a 8 ∷ byte_at a 16 ∷ byte_at a 24 ∷ byte_at a 32 ∷ []

unfoldable pub int6store : ℕ → List ℕ
int6store a = a % 256 ∷ byte_at a 8 ∷ byte_at a 16 ∷ byte_at a 24 ∷ byte_at a 32 ∷ byte_at a 40 ∷ []

-- A width without a case writes nothing.
pub int_variable_store : ℕ → ℕ → List ℕ
int_variable_store a variable =
    if variable == 1
    then int1store a
    else if variable == 2
    then int2store a
    else if variable == 3
    then int3store a
    else if variable == 4
    then int4store a
    else if variable == 5
    then int5store a
    else if variable == 6
    then int6store a
    else if variable == 8
    then int8store a
    else []

unfoldable pub be_int2store : ℕ → List ℕ
be_int2store a = byte_at a 8 ∷ a % 256 ∷ []

unfoldable pub be_int3store : ℕ → List ℕ
be_int3store a = byte_at a 16 ∷ byte_at a 8 ∷ a % 256 ∷ []

unfoldable pub be_int4store : ℕ → List ℕ
be_int4store a = byte_at a 24 ∷ byte_at a 16 ∷ byte_at a 8 ∷ a % 256 ∷ []

unfoldable pub be_int5store : ℕ → List ℕ
be_int5store a = byte_at a 32 ∷ byte_at a 24 ∷ byte_at a 16 ∷ byte_at a 8 ∷ a % 256 ∷ []

-- The `hf_` stores take the upper part of the number by `A >> 32` first.
unfoldable pub hf_int2store : ℕ → List ℕ
hf_int2store a = byte_at a 8 ∷ a % 256 ∷ []

unfoldable pub hf_int3store : ℕ → List ℕ
hf_int3store a = byte_at a 16 ∷ byte_at a 8 ∷ a % 256 ∷ []

unfoldable pub hf_int4store : ℕ → List ℕ
hf_int4store a = byte_at a 24 ∷ byte_at a 16 ∷ byte_at a 8 ∷ a % 256 ∷ []

unfoldable pub hf_int5store : ℕ → List ℕ
hf_int5store a = a / 2 ^ 32 % 256 ∷ byte_at a 24 ∷ byte_at a 16 ∷ byte_at a 8 ∷ a % 256 ∷ []

unfoldable pub hf_int6store : ℕ → List ℕ
hf_int6store a =
    byte_at (a / 2 ^ 32) 8
    ∷ a / 2 ^ 32 % 256
    ∷ byte_at a 24
    ∷ byte_at a 16
    ∷ byte_at a 8
    ∷ a % 256
    ∷ []

unfoldable pub hf_int7store : ℕ → List ℕ
hf_int7store a =
    byte_at (a / 2 ^ 32) 16
    ∷ byte_at (a / 2 ^ 32) 8
    ∷ a / 2 ^ 32 % 256
    ∷ byte_at a 24
    ∷ byte_at a 16
    ∷ byte_at a 8
    ∷ a % 256
    ∷ []

-- The halves are `uint32_t` arguments.
unfoldable pub hf_int8store : ℕ → List ℕ
unfolding hf_int4store
hf_int8store a = hf_int4store (a / 2 ^ 32 % 2 ^ 32) ++ hf_int4store (a % 2 ^ 32)

-- The loads; those through a typed pointer read the memory image of the integer.
unfoldable pub load_le : ℕ → Read ℕ
load_le n = do bs ← load_bytes n; pure (le_value bs)

unfoldable pub int1load : Read ℕ
int1load = load_le 1

unfoldable pub int2load : Read ℕ
int2load = load_le 2

unfoldable pub int4load : Read ℕ
int4load = load_le 4

unfoldable pub int8load : Read ℕ
int8load = load_le 8

abbrev sum6 : List ℕ → ℕ
sum6 (b0 ∷ b1 ∷ b2 ∷ b3 ∷ b4 ∷ b5 ∷ bs) =
    (b0 + b1 * 2 ^ 8 + b2 * 2 ^ 16 + b3 * 2 ^ 24) % 2 ^ 32 + b4 * 2 ^ 32 + b5 * 2 ^ 40
sum6 bs = 0

unfoldable pub int6load : Read ℕ
int6load = do bs ← load_bytes 6; pure (sum6 bs)

-- `malloc(bytes)` with every byte set.
unfoldable pub fill_bit_map : ℕ → List ℕ
fill_bit_map bytes = replicate bytes 0xff
