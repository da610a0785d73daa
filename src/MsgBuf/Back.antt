-- ===== src/MsgBuf/Back.antt =====
-- `backward` of a MsgBufReader.
use oblogproxy.Common.{
  ℕ, ◌+◌, ◌-◌, ◌≤◌, ◌<◌, ◌≡◌, refl, sym, ap, ◌∙◌, List, [], ◌∷◌, append_assoc, arith, length, take,
  drop, length-append, true, Bool-cases, inl, inr, ltb, le→ltb, some,
}
use oblogproxy.MsgBuf.{Chunk, Position, MsgBufReader, bytes, read, back_loop, went_back, backward}
use oblogproxy.MsgBuf.Contents.{bytes_behind, all_bytes, place, rest, Inside, IsValid, rest-place}
use oblogproxy.MsgBuf.Reads.{at_chunk}
use oblogproxy.MsgBuf.Queue.{read-takes}

Inside-less : (ahead : List Chunk) (pos n : ℕ) → Inside ahead pos → Inside ahead (pos - n)
Inside-less [] pos n h = omega arith
Inside-less (c ∷ cs) pos n h = omega arith

-- From one position back to another, by so many bytes.
record Returns (p q : Position) (k : ℕ) : Type 0 where
  pub inside : Inside q.ahead q.pos
  pub same : all_bytes q ≡ all_bytes p
  pub nearer : place q + k ≡ place p

back_loop-Returns :
    (k : ℕ) (behind ahead : List Chunk) (pos : ℕ)
    → Inside ahead pos
    → k ≤ length (bytes_behind behind) + pos
    → (q : Position) × (back_loop k behind ahead pos ≡ some q)
      × Returns (at_chunk behind ahead pos) q k
unfolding back_loop bytes_behind bytes
back_loop-Returns k [] ahead pos inside enough = (
  at_chunk [] ahead (pos - k),
  rw (le→ltb pos k (omega arith)) refl,
  record { inside = Inside-less ahead pos k inside; same = refl; nearer = omega arith },
)
back_loop-Returns k (c ∷ cs) ahead pos inside enough =
    let whole = length-append (bytes_behind cs) c in
    elim (Bool-cases (ltb pos k)) [
      | inl over ↦
          let far : pos < k = ground arith in
          let (q, found, m) =
            back_loop-Returns (k - pos) cs (c ∷ ahead) (length c) (omega arith)
              (omega (arith, whole)) in
          (
            q,
            rw over found,
            record {
              inside = m.inside;
              same = m.same ∙ sym (append_assoc (bytes_behind cs) c (bytes ahead));
              nearer = omega (arith, whole, m.nearer);
            },
          )
      | inr within ↦
          let close : k ≤ pos = ground arith in
          (
            at_chunk (c ∷ cs) ahead (pos - k),
            rw within refl,
            record { inside = Inside-less ahead pos k inside; same = refl; nearer = omega arith },
          )
    ]

-- After `k` bytes were put back to the front of the queue.
pub record Untakes (r s : MsgBufReader) (k : ℕ) : Type 0 where
  pub valid : IsValid s
  pub same : all_bytes s.at ≡ all_bytes r.at
  pub nearer : place s.at + k ≡ place r.at
  pub counted : s.read_size + k ≡ r.read_size

pub backward-Untakes :
    (r : MsgBufReader) (k : ℕ)
    → IsValid r
    → k ≤ r.read_size
    → (s : MsgBufReader) × (backward k r ≡ some (true, s)) × Untakes r s k
unfolding backward
backward-Untakes r k v enough =
    let (q, found, m) =
      back_loop-Returns k r.at.behind r.at.ahead r.at.pos v.inside (omega (arith, v.counted)) in
    (
      record r { at = q; read_size = r.read_size - k },
      rw (le→ltb r.read_size k enough) (ap (went_back k r) found),
      record {
        valid = record {
          inside = m.inside;
          whole = v.whole ∙ ap length (sym m.same);
          counted = omega (arith, v.counted, m.nearer);
          fits = v.fits;
        };
        same = m.same;
        nearer = m.nearer;
        counted = omega arith;
      },
    )

drop_place : (p q : Position) → all_bytes q ≡ all_bytes p → place q ≡ place p → rest q ≡ rest p
drop_place p q same there =
    rest-place q
    ∙ ap (λ n. drop n (all_bytes q)) there
    ∙ ap (drop (place p)) same
    ∙ sym (rest-place p)

-- In a valid reader, going back by what was read restores the bytes that are left, whatever chunks
-- the read went over.
pub backward-read :
    (r : MsgBufReader) (k : ℕ)
    → IsValid r
    → k ≤ length (rest r.at)
    → (s t : MsgBufReader) × (read k r ≡ (true, take k (rest r.at), s))
      × (backward k s ≡ some (true, t))
      × IsValid t
      × (rest t.at ≡ rest r.at)
      × (t.read_size ≡ r.read_size)
backward-read r k v enough =
    let (s, found, t) = read-takes r v k enough in
    let (u, back, b) = backward-Untakes s k t.valid (omega (arith, t.counted)) in
    (
      s,
      u,
      found,
      back,
      b.valid,
      drop_place r.at u.at (b.same ∙ t.same) (omega (arith, b.nearer, t.further)),
      omega (arith, b.counted, t.counted),
    )
