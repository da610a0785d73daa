-- ===== src/Event/Memory.antt =====
-- C strings and freshly allocated memory, as the events use them.
-- `fresh n` is what `n` bytes hold that nothing was written to.
use oblogproxy.Common.{
  ℕ, zero, suc, ◌+◌, ◌≤◌, ◌≡◌, ◌≢◌, refl, List, [], ◌∷◌, ◌++◌, Option, none, some, if◌then◌else◌,
  ◌==◌, leb, drop, length, arith, All, length-append, append-nil, append_assoc, subst,
}
use oblogproxy.Bytes.{load_bytes}
use oblogproxy.Bytes.RoundTrip.{load_bytes-append}

-- The bytes before the first NUL.
unfoldable pub c_string : List ℕ → List ℕ
c_string [] = []
c_string (b ∷ bs) = let rest = c_string bs in if b == 0 then [] else b ∷ rest

-- obaccess/ob_mysql_packet.cpp. `none` is OMS_FAILED, with nothing written.
unfoldable pub write_null_terminate_string : ℕ → List ℕ → Option (List ℕ)
write_null_terminate_string capacity str =
    if leb (length str + 1) capacity then some (str ++ 0 ∷ []) else none

-- `n` bytes of memory after a write at their start.
abbrev pub overlay : (ℕ → List ℕ) → ℕ → Option (List ℕ) → List ℕ
overlay fresh n none = fresh n
overlay fresh n (some written) = written ++ drop (length written) (fresh n)

abbrev pub NonZero : ℕ → Type 0
NonZero b = b ≢ 0

pub c_string-append : (s rest : List ℕ) → All NonZero s → c_string (s ++ 0 ∷ rest) ≡ s
unfolding c_string
c_string-append [] rest h = refl
c_string-append (b ∷ s) rest (h, hs) = ground (arith, c_string-append s rest hs)

-- A string whose capacity is its length and one is written whole, its NUL included.
pub overlay-exact :
    (fresh : ℕ → List ℕ) (s : List ℕ)
    → length (fresh (length s + 1)) ≡ length s + 1
    → overlay fresh (length s + 1) (write_null_terminate_string (length s + 1) s) ≡ s ++ 0 ∷ []
unfolding write_null_terminate_string
overlay-exact fresh s h = ground (
  arith,
  drop_all (fresh (length s + 1)) (length (s ++ 0 ∷ [])),
  length-append s (0 ∷ []),
  append-nil (s ++ 0 ∷ []),
)
  where
    drop_all : (xs : List ℕ) (n : ℕ) → length xs ≤ n → drop n xs ≡ []
    drop_all [] zero h' = refl
    drop_all [] (suc n) h' = refl
    drop_all (x ∷ xs) zero h' = elim h' [ ]
    drop_all (x ∷ xs) (suc n) h' = drop_all xs n (omega arith)

-- Such a string is read back with its NUL, and is the C string in any memory that begins so.
pub load_bytes-text :
    (s rest : List ℕ) → load_bytes (length s + 1) (s ++ 0 ∷ rest) ≡ some (s ++ 0 ∷ [], rest)
load_bytes-text s rest =
    subst (λ bs. load_bytes (length s + 1) bs ≡ some (s ++ 0 ∷ [], rest))
      (append_assoc s (0 ∷ []) rest)
      (load_bytes-append (length s + 1) (s ++ 0 ∷ []) rest (length-append s (0 ∷ [])))

pub c_string-text : (s heap : List ℕ) → All NonZero s → c_string ((s ++ 0 ∷ []) ++ heap) ≡ s
c_string-text s heap h = rw append_assoc (c_string-append s heap h)
