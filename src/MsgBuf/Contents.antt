-- ===== src/MsgBuf/Contents.antt =====
-- What a reader stands on: the bytes of all chunks, and its place among them.
use oblogproxy.Common.{
  ℕ, zero, suc, ◌+◌, ◌^◌, ◌≤◌, ◌<◌, ◌≡◌, refl, sym, ap, ◌∙◌, List, [], ◌∷◌, ◌++◌, append_assoc,
  append-nil, arith, length, take, drop, length-append, zero_add, suc_add, Bool, true, false,
}
use oblogproxy.MsgBuf.{
  Chunk, MsgBuf, Position, MsgBufReader, add64, byte_size_from, byte_size, bytes, new_reader,
  copied,
}

-- The bytes of the chunks in front of an iterator, which stand in reverse.
unfoldable pub bytes_behind : List Chunk → List ℕ
bytes_behind [] = []
bytes_behind (c ∷ cs) = bytes_behind cs ++ c

abbrev pub all_bytes : Position → List ℕ
all_bytes p = bytes_behind p.behind ++ bytes p.ahead

abbrev pub place : Position → ℕ
place p = length (bytes_behind p.behind) + p.pos

-- The bytes that are not read yet.
abbrev pub rest : Position → List ℕ
rest p = drop p.pos (bytes p.ahead)

-- A position is inside the chunk of its iterator, or at its end.
abbrev pub Inside : List Chunk → ℕ → Type 0
Inside [] pos = pos ≡ 0
Inside (c ∷ cs) pos = pos ≤ length c

-- A reader of a message below 2 ^ 64 bytes. `next` moves on without counting what it gives.
pub record IsValid (r : MsgBufReader) : Type 0 where
  pub inside : Inside r.at.ahead r.at.pos
  pub whole : r.total_size ≡ length (all_bytes r.at)
  pub counted : r.read_size ≤ place r.at
  pub fits : r.total_size < 2 ^ 64

byte_size_from-bytes :
    (n : ℕ) (m : MsgBuf) → n + length (bytes m) < 2 ^ 64 → byte_size_from n m ≡ n + length (bytes m)
unfolding byte_size_from bytes
byte_size_from-bytes n [] h = omega arith
byte_size_from-bytes n (c ∷ cs) h =
    let whole = length-append c (bytes cs) in
    let small : add64 n (length c) ≡ n + length c = omega (arith, whole) in
    rw small (omega (arith, whole, byte_size_from-bytes (n + length c) cs (omega (arith, whole))))

-- `byte_size` is the number of the bytes.
pub byte_size-bytes : (m : MsgBuf) → length (bytes m) < 2 ^ 64 → byte_size m ≡ length (bytes m)
unfolding byte_size
byte_size-bytes m h = byte_size_from-bytes 0 m (omega arith) ∙ omega arith

Inside-start : (m : MsgBuf) → Inside m 0
Inside-start [] = refl
Inside-start (c ∷ cs) = omega arith

pub new_reader-IsValid : (m : MsgBuf) → length (bytes m) < 2 ^ 64 → IsValid (new_reader m)
unfolding new_reader bytes_behind
new_reader-IsValid m h = record {
  inside = Inside-start m;
  whole = byte_size-bytes m h;
  counted = omega arith;
  fits = omega (arith, byte_size-bytes m h);
}

-- What is left is what stands behind the place.
pub rest-place : (p : Position) → rest p ≡ drop (place p) (all_bytes p)
rest-place p = drop_past (bytes_behind p.behind) (bytes p.ahead) p.pos
  where
    drop_past : (xs ys : List ℕ) (n : ℕ) → drop n ys ≡ drop (length xs + n) (xs ++ ys)
    drop_past [] ys n = ap (λ k. drop k ys) (sym (zero_add n))
    drop_past (x ∷ xs) ys n =
        drop_past xs ys n ∙ ap (λ k. drop k (x ∷ (xs ++ ys))) (sym (suc_add (length xs) n))

pub take_within : (n : ℕ) (xs ys : List ℕ) → n ≤ length xs → take n (xs ++ ys) ≡ take n xs
take_within zero xs ys h = refl
take_within (suc n) [] ys h = elim h [ ]
take_within (suc n) (x ∷ xs) ys h = ap (◌∷◌ x) (take_within n xs ys (omega arith))

pub copied-append :
    (skip : Bool) (out xs ys : List ℕ)
    → (out ++ copied skip xs) ++ copied skip ys ≡ out ++ copied skip (xs ++ ys)
copied-append true out xs ys = append-nil (out ++ [])
copied-append false out xs ys = append_assoc out xs ys
