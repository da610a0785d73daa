-- ===== src/Bytes/Widths.antt =====
-- The hand-written stores against the memory image of the integer, in both byte orders.
use mathlib.Core.List.{reverse}
use oblogproxy.Common.{ℕ, ◌≡◌, [], arith, if◌then◌else◌, leb, ◌==◌}
use oblogproxy.Bytes.{
  le_bytes, int1store, int2store, int3store, int4store, int5store, int6store, int8store,
  be_int2store, be_int3store, be_int4store, be_int5store, hf_int2store, hf_int3store, hf_int4store,
  hf_int5store, hf_int6store, hf_int7store, hf_int8store, int_variable_store,
}

-- Every width that `int_variable_store` knows writes the low bytes of the number, lowest first;
-- any other writes nothing.
pub int_variable_store-le_bytes :
    (a n : ℕ)
    → int_variable_store a n ≡ (if n == 7 then [] else if leb n 8 then le_bytes n a else [])
unfolding int_variable_store int1store int2store int3store int4store int5store int6store int8store
    le_bytes
int_variable_store-le_bytes a n = ground arith

-- The `be_` stores of 2 to 5 bytes write the little-endian image in reverse.
pub be_store-reverse :
    (a : ℕ)
    → (be_int2store a ≡ reverse (le_bytes 2 a))
      × (be_int3store a ≡ reverse (le_bytes 3 a))
      × (be_int4store a ≡ reverse (le_bytes 4 a))
      × (be_int5store a ≡ reverse (le_bytes 5 a))
unfolding be_int2store be_int3store be_int4store be_int5store le_bytes
be_store-reverse a = ground arith

-- The `hf_` stores of 2 to 8 bytes write the little-endian image in reverse.
pub hf_store-reverse :
    (a : ℕ)
    → (hf_int2store a ≡ reverse (le_bytes 2 a))
      × (hf_int3store a ≡ reverse (le_bytes 3 a))
      × (hf_int4store a ≡ reverse (le_bytes 4 a))
      × (hf_int5store a ≡ reverse (le_bytes 5 a))
      × (hf_int6store a ≡ reverse (le_bytes 6 a))
      × (hf_int7store a ≡ reverse (le_bytes 7 a))
      × (hf_int8store a ≡ reverse (le_bytes 8 a))
unfolding hf_int2store hf_int3store hf_int5store hf_int6store hf_int7store hf_int8store le_bytes
hf_store-reverse a = ground arith
