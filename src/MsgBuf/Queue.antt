-- ===== src/MsgBuf/Queue.antt =====
-- A MsgBufReader as a queue of the bytes that are not read yet.
use oblogproxy.Common.{
  ℕ, zero, suc, ◌+◌, ◌^◌, ◌≤◌, ◌<◌, ◌≡◌, refl, sym, ap, ◌∙◌, List, [], ◌∷◌, arith, length, take,
  drop, length-append, length-drop, drop-drop, Bool, true, false, ◌==◌,
}
use oblogproxy.MsgBuf.{
  Chunk, Position, MsgBufReader, add64, bytes, copied, read_loop, moved, read_or_skip, read,
}
use oblogproxy.MsgBuf.Contents.{bytes_behind, all_bytes, place, rest, Inside, IsValid, rest-place}
use oblogproxy.MsgBuf.Reads.{Moves, read_loop-enough, read_loop-short}

-- After `k` bytes were taken from the front of the queue.
pub record Takes (r s : MsgBufReader) (k : ℕ) : Type 0 where
  pub valid : IsValid s
  pub same : all_bytes s.at ≡ all_bytes r.at
  pub further : place s.at ≡ place r.at + k
  pub counted : s.read_size ≡ r.read_size + k
  pub left : rest s.at ≡ drop k (rest r.at)

pub rest-drop : (p q : Position) (k : ℕ) → Moves p q k → rest q ≡ drop k (rest p)
rest-drop p q k m =
    rest-place q
    ∙ ap (λ n. drop n (all_bytes q)) m.further
    ∙ ap (drop (place p + k)) m.same
    ∙ sym (drop-drop (place p) k (all_bytes p))
    ∙ ap (drop k) (sym (rest-place p))

length-rest : (p : Position) → length (rest p) + place p ≤ length (all_bytes p) + p.pos
length-rest p = omega (
  arith,
  length-append (bytes_behind p.behind) (bytes p.ahead),
  length-drop p.pos (bytes p.ahead),
)

Inside-le : (ahead : List Chunk) (pos : ℕ) → Inside ahead pos → pos ≤ length (bytes ahead)
unfolding bytes
Inside-le [] pos h = omega arith
Inside-le (c ∷ cs) pos h = omega (arith, length-append c (bytes cs))

-- The place and what is left make up the message.
pub place-rest : (r : MsgBufReader) → IsValid r → place r.at + length (rest r.at) ≡ r.total_size
place-rest r v = omega (
  arith,
  v.whole,
  length-append (bytes_behind r.at.behind) (bytes r.at.ahead),
  length-drop r.at.pos (bytes r.at.ahead),
  Inside-le r.at.ahead r.at.pos v.inside,
)

length-ahead : (r : MsgBufReader) → IsValid r → length (bytes r.at.ahead) < 2 ^ 64
length-ahead r v =
    omega (arith, v.whole, v.fits, length-append (bytes_behind r.at.behind) (bytes r.at.ahead))

module _ (r : MsgBufReader) (v : IsValid r) where
  after : Position → ℕ → MsgBufReader
  after q k = record r { at = q; read_size = add64 r.read_size k }

  taken : (q : Position) (k : ℕ) → k ≤ length (rest r.at) → Moves r.at q k → Takes r (after q k) k
  unfolding after
  taken q k enough m =
      let whole = place-rest r v in
      let sum : add64 r.read_size k ≡ r.read_size + k = omega (arith, v.counted, v.fits) in
      record {
        valid = record {
          inside = m.inside;
          whole = v.whole ∙ ap length (sym m.same);
          counted = omega (arith, v.counted, m.further, sum);
          fits = v.fits;
        };
        same = m.same;
        further = m.further;
        counted = sum;
        left = rest-drop r.at q k m;
      }

  pub read_or_skip-takes :
      (skip : Bool) (k : ℕ)
      → 0 < k
      → k ≤ length (rest r.at)
      → (s : MsgBufReader) × (read_or_skip skip k r ≡ (true, copied skip (take k (rest r.at)), s))
        × Takes r s k
  unfolding read_or_skip after
  read_or_skip-takes skip k positive enough =
      let (q, found, m) =
        read_loop-enough skip r.at.behind r.at.ahead r.at.pos 0 k [] v.inside positive enough
          (omega (arith, length-ahead r v)) in
      (
        after q k,
        ap (λ n. moved k r (read_loop skip n 0 r.at.behind r.at.ahead r.at.pos [])) (omega arith)
            ∙ ap (moved k r) found,
        taken q k enough m,
      )

  pub read_or_skip-short :
      (skip : Bool) (k : ℕ)
      → length (rest r.at) < k
      → read_or_skip skip k r ≡ (false, copied skip (rest r.at), r)
  unfolding read_or_skip
  read_or_skip-short skip k few =
      ap (λ n. moved k r (read_loop skip n 0 r.at.behind r.at.ahead r.at.pos [])) (omega arith)
      ∙ ap (moved k r) (
          read_loop-short skip r.at.behind r.at.ahead r.at.pos 0 k [] v.inside few
            (omega (arith, length-ahead r v)))

  stays : Takes r r 0
  stays = record {
    valid = v;
    same = refl;
    further = omega arith;
    counted = omega arith;
    left = refl;
  }

  read_some : (k : ℕ) → read (suc k) r ≡ read_or_skip false (suc k) r
  unfolding read
  read_some k = let test : (suc k == 0) ≡ false = ground arith in rw test refl

  -- In a valid reader, wherever its chunks are cut, `read` of a number of bytes that are left
  -- succeeds, writes them to the target and takes them from the front of the bytes that are left.
  pub read-takes :
      (k : ℕ)
      → k ≤ length (rest r.at)
      → (s : MsgBufReader) × (read k r ≡ (true, take k (rest r.at), s)) × Takes r s k
  unfolding read
  read-takes zero enough = (r, refl, stays)
  read-takes (suc k) enough =
      let (s, found, t) = read_or_skip-takes false (suc k) (omega arith) enough in
      (s, read_some k ∙ found, t)

  -- In a valid reader, `read` of more bytes than are left fails, writes all that are left to the
  -- target, and leaves the reader as it was.
  pub read-short : (k : ℕ) → length (rest r.at) < k → read k r ≡ (false, rest r.at, r)
  unfolding read
  read-short zero few = elim few [ ]
  read-short (suc k) few = read_some k ∙ read_or_skip-short false (suc k) few
