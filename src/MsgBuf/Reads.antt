-- ===== src/MsgBuf/Reads.antt =====
-- The reads of a MsgBufReader, wherever the chunks are cut: a queue of bytes.
use oblogproxy.Common.{
  ℕ, ◌+◌, ◌-◌, ◌^◌, ◌≤◌, ◌<◌, ◌≡◌, refl, sym, ap, ◌∙◌, List, [], ◌∷◌, ◌++◌, append_assoc,
  append-nil, arith, length, take, drop, length-append, length-drop, take_past, drop_within, Bool,
  true, false, Bool-cases, inl, inr, leb, lt→ltb, le→leb, leb-not, none, some, take-length,
  drop_nil, subst,
}
use oblogproxy.MsgBuf.{Chunk, Position, add64, sub64, bytes, copied, read_loop}
use oblogproxy.MsgBuf.Contents.{bytes_behind, all_bytes, place, Inside, take_within, copied-append}

-- From one position to another, by so many bytes.
pub record Moves (p q : Position) (k : ℕ) : Type 0 where
  pub inside : Inside q.ahead q.pos
  pub same : all_bytes q ≡ all_bytes p
  pub further : place q ≡ place p + k

abbrev pub at_chunk : List Chunk → List Chunk → ℕ → Position
at_chunk behind ahead pos = record { behind = behind; ahead = ahead; pos = pos }

-- Over a chunk that is read to its end.
step_over :
    (behind : List Chunk) (c : Chunk) (cs : List Chunk) (pos k : ℕ) (q : Position)
    → pos ≤ length c
    → Moves (at_chunk (c ∷ behind) cs 0) q k
    → Moves (at_chunk behind (c ∷ cs) pos) q (length c - pos + k)
unfolding bytes_behind bytes
step_over behind c cs pos k q inside m = record {
  inside = m.inside;
  same = m.same ∙ append_assoc (bytes_behind behind) c (bytes cs);
  further = omega (arith, inside, m.further, length-append (bytes_behind behind) c);
}

rest_chunk :
    (c : Chunk) (cs : List Chunk) (pos : ℕ)
    → pos ≤ length c
    → drop pos (bytes (c ∷ cs)) ≡ drop pos c ++ bytes cs
unfolding bytes
rest_chunk c cs pos inside = drop_within pos c (bytes cs) inside

take_over : (xs ys : List ℕ) (n k : ℕ) → length xs ≡ n → take (n + k) (xs ++ ys) ≡ xs ++ take k ys
take_over xs ys n k h = subst (λ m. take (m + k) (xs ++ ys) ≡ xs ++ take k ys) h (take_past xs ys k)

-- What is left of a chunk is written whole.
rest_of_chunk : (c : Chunk) (pos n : ℕ) → n ≡ length c - pos → take n (drop pos c) ≡ drop pos c
rest_of_chunk c pos n h =
    ap (λ k. take k (drop pos c)) (h ∙ sym (length-drop pos c)) ∙ take-length (drop pos c)

Inside-next : (cs : List Chunk) → Inside cs 0
Inside-next [] = refl
Inside-next (c ∷ cs) = omega arith

-- One round of the loop.
module _ (skip : Bool) (behind : List Chunk) (c : Chunk) (cs : List Chunk) (pos : ℕ)
    (inside : pos ≤ length c) where
  left_in_chunk : length c < 2 ^ 64 → sub64 (length c) pos ≡ length c - pos
  left_in_chunk fits = omega (arith, inside)

  read_loop-within :
      (rs k : ℕ) (out : List ℕ)
      → 0 < k
      → k ≤ length c - pos
      → rs + (length c - pos) < 2 ^ 64
      → length c < 2 ^ 64
      → read_loop skip (rs + k) rs behind (c ∷ cs) pos out
        ≡ (some (at_chunk behind (c ∷ cs) (pos + k)), out ++ copied skip (take k (drop pos c)))
  unfolding read_loop
  read_loop-within rs k out positive enough small fits =
      let left = left_in_chunk fits in
      let sum : add64 rs (sub64 (length c) pos) ≡ rs + (length c - pos) = omega (arith, left) in
      let amount : rs + k - rs ≡ k = omega arith in
      let there : add64 pos (rs + k - rs) ≡ pos + k = omega (arith, inside) in
      rw
        (
          lt→ltb rs (rs + k) (omega arith),
          sum,
          le→leb (rs + k) (rs + (length c - pos)) (omega arith),
          there,
          amount,
        )
        refl

  read_loop-over :
      (rs k : ℕ) (out : List ℕ)
      → 0 < k
      → rs + (length c - pos) < 2 ^ 64
      → length c < 2 ^ 64
      → read_loop skip (rs + (length c - pos) + k) rs behind (c ∷ cs) pos out
        ≡ read_loop skip
            (rs + (length c - pos) + k)
            (rs + (length c - pos))
            (c ∷ behind)
            cs
            0
            (out ++ copied skip (drop pos c))
  unfolding read_loop
  read_loop-over rs k out positive small fits =
      let left = left_in_chunk fits in
      let sum : add64 rs (length c - pos) ≡ rs + (length c - pos) = omega arith in
      rw
        (
          left,
          sum,
          rest_of_chunk c pos (length c - pos) refl,
          lt→ltb rs (rs + (length c - pos) + k) (omega arith),
          leb-not (rs + (length c - pos) + k) (rs + (length c - pos)) (omega arith),
        )
        refl

length-rest_chunk :
    (c : Chunk) (cs : List Chunk) (pos : ℕ)
    → pos ≤ length c
    → length (drop pos (bytes (c ∷ cs))) ≡ length c - pos + length (bytes cs)
length-rest_chunk c cs pos inside =
    ap length (rest_chunk c cs pos inside)
    ∙ length-append (drop pos c) (bytes cs)
    ∙ ap (λ n. n + length (bytes cs)) (length-drop pos c)

bytes_over :
    (c : Chunk) (cs : List Chunk) (pos k m : ℕ)
    → pos ≤ length c
    → k ≡ length c - pos + m
    → drop pos c ++ take m (bytes cs) ≡ take k (drop pos (bytes (c ∷ cs)))
bytes_over c cs pos k m inside h = sym (
    ap (take k) (rest_chunk c cs pos inside)
    ∙ ap (λ n. take n (drop pos c ++ bytes cs)) h
    ∙ take_over (drop pos c) (bytes cs) (length c - pos) m (length-drop pos c))

copied-none : (skip : Bool) (out : List ℕ) → out ++ copied skip [] ≡ out
copied-none true out = append-nil out
copied-none false out = append-nil out

module _ (skip : Bool) where
  abbrev pub Finds : List Chunk → List Chunk → ℕ → ℕ → ℕ → List ℕ → Type 0
  Finds behind ahead pos rs k out =
      (q : Position) × (read_loop skip (rs + k) rs behind ahead pos out
        ≡ (some q, out ++ copied skip (take k (drop pos (bytes ahead)))))
      × Moves (at_chunk behind ahead pos) q k

  read_loop-end :
      (size rs : ℕ) (behind : List Chunk) (pos : ℕ) (out : List ℕ)
      → read_loop skip size rs behind [] pos out ≡ (none, out)
  unfolding read_loop
  read_loop-end size rs behind pos out = refl

  -- The bytes that are asked for are there.
  pub read_loop-enough :
      (behind ahead : List Chunk) (pos rs k : ℕ) (out : List ℕ)
      → Inside ahead pos
      → 0 < k
      → k ≤ length (drop pos (bytes ahead))
      → rs + length (bytes ahead) < 2 ^ 64
      → Finds behind ahead pos rs k out
  unfolding bytes
  read_loop-enough behind [] pos rs k out inside positive enough fits =
      absurd (omega (arith, enough, length-drop {0} {A = ℕ} pos []))
  read_loop-enough behind (c ∷ cs) pos rs k out inside positive enough fits =
      let whole = length-append c (bytes cs) in
      let left = length-rest_chunk c cs pos inside in
      elim (Bool-cases (leb k (length c - pos))) [
        | inl within ↦
            let close : k ≤ length c - pos = ground arith in
            (
              at_chunk behind (c ∷ cs) (pos + k),
              read_loop-within skip behind c cs pos inside rs k out positive close
                    (omega (arith, whole)) (omega (arith, whole))
                  ∙ ap (λ t. (some (at_chunk behind (c ∷ cs) (pos + k)), out ++ copied skip t))
                      (sym
                          (take_within k (drop pos c) (bytes cs) (omega (arith, length-drop pos c)))
                        ∙ ap (take k) (sym (rest_chunk c cs pos inside))),
              record { inside = omega arith; same = refl; further = omega arith },
            )
        | inr over ↦
            let far : length c - pos < k = ground arith in
            let m = k - (length c - pos) in
            let size : k ≡ length c - pos + m = omega arith in
            let (q, found, moves) =
              read_loop-enough (c ∷ behind) cs 0 (rs + (length c - pos)) m
                (out ++ copied skip (drop pos c)) (Inside-next cs) (omega arith)
                (omega (arith, left)) (omega (arith, whole)) in
            (
              q,
              ap (λ n. read_loop skip n rs behind (c ∷ cs) pos out) (omega arith)
                  ∙ read_loop-over skip behind c cs pos inside rs m out (omega arith)
                      (omega (arith, whole)) (omega (arith, whole))
                  ∙ found
                  ∙ ap (λ t. (some q, t))
                      (copied-append skip out (drop pos c) (take m (bytes cs))
                        ∙ ap (λ t. out ++ copied skip t) (bytes_over c cs pos k m inside size)),
              subst (Moves (at_chunk behind (c ∷ cs) pos) q) (sym size)
                  (step_over behind c cs pos m q inside moves),
            )
      ]

  -- There are fewer.
  pub read_loop-short :
      (behind ahead : List Chunk) (pos rs k : ℕ) (out : List ℕ)
      → Inside ahead pos
      → length (drop pos (bytes ahead)) < k
      → rs + length (bytes ahead) < 2 ^ 64
      → read_loop skip (rs + k) rs behind ahead pos out
        ≡ (none, out ++ copied skip (drop pos (bytes ahead)))
  unfolding bytes
  read_loop-short behind [] pos rs k out inside few fits =
      read_loop-end (rs + k) rs behind pos out
      ∙ ap (λ t. (none, t))
          (sym (copied-none skip out) ∙ ap (λ t. out ++ copied skip t) (sym (drop_nil pos)))
  read_loop-short behind (c ∷ cs) pos rs k out inside few fits =
      let whole = length-append c (bytes cs) in
      let left = length-rest_chunk c cs pos inside in
      let m = k - (length c - pos) in
      ap (λ n. read_loop skip n rs behind (c ∷ cs) pos out) (omega (arith, left))
      ∙ read_loop-over skip behind c cs pos inside rs m out (omega (arith, left))
          (omega (arith, whole)) (omega (arith, whole))
      ∙ read_loop-short (c ∷ behind) cs 0 (rs + (length c - pos)) m
          (out ++ copied skip (drop pos c)) (Inside-next cs) (omega (arith, left))
          (omega (arith, whole))
      ∙ ap (λ t. (none, t))
          (copied-append skip out (drop pos c) (bytes cs)
            ∙ ap (λ t. out ++ copied skip t) (sym (rest_chunk c cs pos inside)))
