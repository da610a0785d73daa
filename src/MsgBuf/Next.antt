-- ===== src/MsgBuf/Next.antt =====
-- `next` and `has_more` of a MsgBufReader.
use oblogproxy.Common.{
  ℕ, ◌+◌, ◌-◌, ◌^◌, ◌≤◌, ◌<◌, ◌≡◌, ◌≢◌, refl, sym, ap, ◌∙◌, List, [], ◌∷◌, ◌++◌, append_assoc,
  append-nil, arith, length, drop, length-append, length-drop, true, false, Bool-cases, inl, inr,
  ltb, ◌==◌, Option, none, some, subst, if◌then◌else◌, drop_within, drop_nil, drop_all,
}
use oblogproxy.MsgBuf.{
  Chunk, Position, MsgBufReader, int_size, bytes, next_loop, next, has_more_in, has_more,
}
use oblogproxy.MsgBuf.Contents.{bytes_behind, all_bytes, place, rest, Inside, IsValid}
use oblogproxy.MsgBuf.Reads.{at_chunk}

-- What `next` gives: a chunk of bytes from the front of the queue, and the position behind it.
record Gives (behind ahead : List Chunk) (pos : ℕ) (chunk : List ℕ) (size : ℕ) (q : Position)
    : Type 0 where
  pub sized : size ≡ length chunk
  pub inside : Inside q.ahead q.pos
  pub same : all_bytes q ≡ bytes_behind behind ++ bytes ahead
  pub front : chunk ++ rest q ≡ drop pos (bytes ahead)
  pub further : place q ≡ length (bytes_behind behind) + pos + length chunk
  pub all : length chunk ≡ 0 → rest q ≡ []

abbrev GivesAt : List Chunk → List Chunk → ℕ → List ℕ × ℕ × Position → Type 0
GivesAt behind ahead pos (chunk, size, q) = Gives behind ahead pos chunk size q

-- Over a chunk that is used up, and at one that is not.
module _ (behind : List Chunk) (c d : Chunk) (ds : List Chunk) (pos : ℕ) where
  next_loop-over :
      (int_size c pos == 0) ≡ true → next_loop behind c (d ∷ ds) pos ≡ next_loop (c ∷ behind) d ds 0
  unfolding next_loop
  next_loop-over h = rw h refl

  next_loop-here :
      (int_size c pos == 0) ≡ false
      → next_loop behind c (d ∷ ds) pos
        ≡ (drop pos c, int_size c pos, at_chunk (c ∷ behind) (d ∷ ds) 0)
  unfolding next_loop
  next_loop-here h = rw h refl

  Gives-over :
      (r : List ℕ × ℕ × Position)
      → pos ≤ length c
      → length c - pos ≡ 0
      → GivesAt (c ∷ behind) (d ∷ ds) 0 r
      → GivesAt behind (c ∷ d ∷ ds) pos r
  unfolding bytes bytes_behind
  Gives-over (chunk, size, q) inside used_up g = record {
    sized = g.sized;
    inside = g.inside;
    same = g.same ∙ append_assoc (bytes_behind behind) c (d ++ bytes ds);
    front =
        g.front
        ∙ sym (ap (λ t. t ++ (d ++ bytes ds)) (drop_all pos c (omega arith)))
        ∙ sym (drop_within pos c (d ++ bytes ds) inside);
    further = omega (arith, inside, used_up, g.further, length-append (bytes_behind behind) c);
    all = g.all;
  }

next_loop-Gives :
    (behind : List Chunk) (c : Chunk) (cs : List Chunk) (pos : ℕ)
    → pos ≤ length c
    → length (bytes (c ∷ cs)) < 2 ^ 31
    → GivesAt behind (c ∷ cs) pos (next_loop behind c cs pos)
unfolding bytes bytes_behind
next_loop-Gives behind c [] pos inside fits =
    unfold next_loop in
    record {
      sized = omega (arith, inside, length-drop pos c, length-append c []);
      inside = refl;
      same = append_assoc (bytes_behind behind) c [];
      front = sym (drop_within pos c [] inside);
      further = omega (arith, inside, length-append (bytes_behind behind) c, length-drop pos c);
      all = λ h. refl;
    }
next_loop-Gives behind c (d ∷ ds) pos inside fits =
    let whole = length-append c (d ++ bytes ds) in
    let left : int_size c pos ≡ length c - pos = omega (arith, inside, whole) in
    elim (Bool-cases (int_size c pos == 0)) [
      | inl used_up ↦
          subst (GivesAt behind (c ∷ d ∷ ds) pos) (sym (next_loop-over behind c d ds pos used_up)) (
            Gives-over behind c d ds pos (next_loop (c ∷ behind) d ds 0) inside
              (ground (arith, left))
              (next_loop-Gives (c ∷ behind) d ds 0 (omega arith) (omega (arith, whole))))
      | inr there ↦
          let positive : 0 < length c - pos = ground (arith, left) in
          subst (GivesAt behind (c ∷ d ∷ ds) pos) (sym (next_loop-here behind c d ds pos there))
            (record {
              sized = omega (arith, left, length-drop pos c);
              inside = omega arith;
              same = append_assoc (bytes_behind behind) c (d ++ bytes ds);
              front = sym (drop_within pos c (d ++ bytes ds) inside);
              further =
                  omega (arith, inside, length-append (bytes_behind behind) c, length-drop pos c);
              all = λ h. absurd (omega (arith, length-drop pos c));
            })
    ]

-- What `next` does to the bytes that are left.
abbrev pub Nexts : List ℕ → Option (List ℕ × ℕ) → List ℕ → Type 0
Nexts before none after = (before ≡ []) × (after ≡ [])
Nexts before (some (chunk, size)) after =
    (chunk ≢ []) × (size ≡ length chunk) × (chunk ++ after ≡ before)

abbrev reader_at : Position → ℕ → ℕ → MsgBufReader
reader_at p total_size read_size = record { at = p; total_size = total_size; read_size = read_size }

abbrev NextsTo : MsgBufReader → Option (List ℕ × ℕ) × MsgBufReader → Type 0
NextsTo r (chunk, s) =
    Nexts (rest r.at) chunk (rest s.at) × IsValid s × (all_bytes s.at ≡ all_bytes r.at)

given :
    (p q : Position) (chunk : List ℕ) (size total_size read_size : ℕ)
    → IsValid (reader_at p total_size read_size)
    → Gives p.behind p.ahead p.pos chunk size q
    → NextsTo
        (reader_at p total_size read_size)
        (if size == 0 then none else some (chunk, size), reader_at q total_size read_size)
given p q chunk size total_size read_size v g =
    let valid : IsValid (reader_at q total_size read_size) = record {
      inside = g.inside;
      whole = v.whole ∙ ap length (sym g.same);
      counted = omega (arith, v.counted, g.further);
      fits = v.fits;
    } in
    elim (Bool-cases (size == 0)) [
      | inl none_left ↦
          let empty : length chunk ≡ 0 = ground (arith, g.sized) in
          rw none_left (
            (
              sym g.front
                  ∙ ap (λ t. chunk ++ t) (g.all empty)
                  ∙ append-nil chunk
                  ∙ nil_of_length chunk empty,
              g.all empty,
            ),
            valid,
            g.same,
          )
      | inr some_left ↦
          rw some_left
            ((λ nil. ground (arith, g.sized, ap length nil), g.sized, g.front), valid, g.same)
    ]
  where
    nil_of_length : (xs : List ℕ) → length xs ≡ 0 → xs ≡ []
    nil_of_length [] h = refl
    nil_of_length (x ∷ xs) h = absurd (omega arith)

next_at-Nexts :
    (behind ahead : List Chunk) (pos total_size read_size : ℕ)
    → IsValid (reader_at (at_chunk behind ahead pos) total_size read_size)
    → total_size < 2 ^ 31
    → NextsTo
        (reader_at (at_chunk behind ahead pos) total_size read_size)
        (next (reader_at (at_chunk behind ahead pos) total_size read_size))
unfolding next bytes
next_at-Nexts behind [] pos total_size read_size v small = ((drop_nil pos, drop_nil pos), v, refl)
next_at-Nexts behind (c ∷ cs) pos total_size read_size v small =
    let r = next_loop behind c cs pos in
    given (at_chunk behind (c ∷ cs) pos) r.2 r.0 r.1 total_size read_size v (
      next_loop-Gives behind c cs pos v.inside
        (omega (arith, v.whole, small, length-append (bytes_behind behind) (c ++ bytes cs))))

-- `next` of a valid reader over a message of fewer than 2 ^ 31 bytes gives -1 exactly if no bytes are
-- left; otherwise it takes a chunk, which is not empty, from the front of them, and gives its size. The
-- reader stays valid and keeps its message.
pub next-Nexts :
    (r : MsgBufReader)
    → IsValid r
    → r.total_size < 2 ^ 31
    → Nexts (rest r.at) (next r).0 (rest (next r).1.at)
      × IsValid (next r).1
      × (all_bytes (next r).1.at ≡ all_bytes r.at)
next-Nexts r v small =
    next_at-Nexts r.at.behind r.at.ahead r.at.pos r.total_size r.read_size v small

has_more_in-rest :
    (ahead : List Chunk) (pos : ℕ)
    → Inside ahead pos
    → has_more_in ahead pos ≡ ltb 0 (length (drop pos (bytes ahead)))
unfolding has_more_in bytes
has_more_in-rest [] pos h = rw (drop_nil pos) refl
has_more_in-rest (c ∷ cs) pos h = ground (
  arith,
  has_more_in-rest cs 0 (Inside-first cs),
  length-drop pos (c ++ bytes cs),
  length-append c (bytes cs),
)
  where
    Inside-first : (ds : List Chunk) → Inside ds 0
    Inside-first [] = refl
    Inside-first (d ∷ ds) = omega arith

-- `has_more` says whether bytes are left, also where empty chunks follow.
pub has_more-rest : (r : MsgBufReader) → IsValid r → has_more r ≡ ltb 0 (length (rest r.at))
unfolding has_more
has_more-rest r v = has_more_in-rest r.at.ahead r.at.pos v.inside
