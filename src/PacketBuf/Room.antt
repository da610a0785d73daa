-- ===== src/PacketBuf/Room.antt =====
-- `ensure_writable`: room for more bytes, and what it keeps.
use Prim.Native.Nat.{min}
use oblogproxy.Common.{
  take_two, drop_exact, ℕ, ◌+◌, ◌%◌, ◌^◌, ◌≤◌, ◌<◌, ◌≡◌, ◌∙◌, refl, ap, List, ◌++◌, true, false,
  leb, take, drop, length, arith, length-append, length-take, length-drop, inl, inr, Bool-cases,
  subst, lt→ltb, le→ltb, leb→le, leb→gt, leb-not, le→leb,
}
use oblogproxy.PacketBuf.State.{PacketBuf, ErrorMsg, extend, ensure_writable, rounded, io_size}
use oblogproxy.PacketBuf.Contents.{IsValid, contents, length-contents}

-- `q` is `p` with room for `n` more bytes and what it holds unchanged.
pub record MakesRoom (p : PacketBuf) (n : ℕ) (q : PacketBuf) : Type 0 where
  pub valid : IsValid q
  pub kept : contents q ≡ contents p
  pub same_index : q.write_index ≡ p.write_index
  pub same_max : q.max_capacity ≡ p.max_capacity
  pub has_room : p.write_index + n ≤ q.capacity
  pub no_smaller : p.capacity ≤ q.capacity

module _ (fresh : ℕ → List ℕ) (sizes : (n : ℕ) → length (fresh n) ≡ n) (p : PacketBuf)
    (v : IsValid p) where
  extend-MakesRoom :
      (n m : ℕ)
      → p.capacity ≤ m
      → m ≤ p.max_capacity
      → p.write_index + n ≤ m
      → MakesRoom p n (extend fresh m p)
  unfolding extend
  extend-MakesRoom n m larger fits room = record {
    valid = record {
      sized = omega (
        arith,
        lengths,
        length-append (take p.read_index (fresh m)) (contents p ++ drop p.write_index (fresh m)),
        length-append (contents p) (drop p.write_index (fresh m)),
        length-drop p.write_index (fresh m),
        sizes m,
        larger,
        v.within,
        v.ordered,
        length-contents p v,
      );
      ordered = v.ordered;
      within = omega (arith, larger, v.within);
      at_least = omega (arith, larger, v.at_least);
      at_most = fits;
      max_fits = v.max_fits;
    };
    kept =
        ap (drop p.read_index) (
          subst
            (λ k.
              take k (take p.read_index (fresh m) ++ (contents p ++ drop p.write_index (fresh m)))
              ≡ take p.read_index (fresh m) ++ contents p)
            index
            (take_two p.read_index (take p.read_index (fresh m)) (contents p)
              (drop p.write_index (fresh m)) lengths))
        ∙ drop_exact p.read_index (take p.read_index (fresh m)) (contents p) lengths;
    same_index = refl;
    same_max = refl;
    has_room = room;
    no_smaller = larger;
  }
    where
      lengths : length (take p.read_index (fresh m)) ≡ p.read_index
      lengths =
          omega (arith, length-take p.read_index (fresh m), sizes m, larger, v.within, v.ordered)

      index : p.read_index + length (contents p) ≡ p.write_index
      index = omega (arith, v.ordered, length-contents p v)

  -- In a valid buffer, as long as the new index is not above the maximum, and with 4096 more not
  -- above 2 ^ 32, `ensure_writable` succeeds, makes room and keeps what the buffer holds.
  pub ensure_writable-room :
      (n : ℕ)
      → p.write_index + n + io_size ≤ 2 ^ 32
      → p.write_index + n ≤ p.max_capacity
      → (q : PacketBuf) × (ensure_writable fresh n p ≡ (true, q)) × MakesRoom p n q
  unfolding ensure_writable
  ensure_writable-room n rounds room = elim (Bool-cases (leb (p.write_index + n) p.capacity)) [
    | inl fits ↦ (
      p,
      rw (index, fits) refl,
      record {
        valid = v;
        kept = refl;
        same_index = refl;
        same_max = refl;
        has_room = leb→le (p.write_index + n) p.capacity fits;
        no_smaller = omega arith;
      },
    )
    | inr over ↦ (
      extend fresh (min (rounded (p.write_index + n)) p.max_capacity) p,
      rw (index, over, le→ltb p.max_capacity (p.write_index + n) room) refl,
      extend-MakesRoom n (min (rounded (p.write_index + n)) p.max_capacity)
          (omega (arith, rounded_up, leb→gt (p.write_index + n) p.capacity over, v.at_most))
          (omega arith) (omega (arith, rounded_up, room)),
    )
  ]
    where
      index : (p.write_index + n) % 2 ^ 32 ≡ p.write_index + n
      index = omega (arith, rounds)

      rounded_up : p.write_index + n ≤ rounded (p.write_index + n)
      rounded_up = omega (arith, rounds)

  -- Room that is there already is left as it is.
  pub ensure_writable-fast :
      (n : ℕ) → p.write_index + n ≤ p.capacity → ensure_writable fresh n p ≡ (true, p)
  unfolding ensure_writable
  ensure_writable-fast n room = rw (index, le→leb (p.write_index + n) p.capacity room) refl
    where
      index : (p.write_index + n) % 2 ^ 32 ≡ p.write_index + n
      index = omega (arith, room, v.at_most, v.max_fits)

  -- In a valid buffer, a new index that is above the maximum, and below 2 ^ 32, is refused, and
  -- only the error message changes.
  pub ensure_writable-too_large :
      (n : ℕ)
      → p.write_index + n < 2 ^ 32
      → p.max_capacity < p.write_index + n
      → ensure_writable fresh n p
        ≡ (false, record p { error_msg = ErrorMsg.too_large (p.write_index + n) p.max_capacity })
  unfolding ensure_writable
  ensure_writable-too_large n fits over =
      rw
        (
          index,
          leb-not (p.write_index + n) p.capacity (omega (arith, over, v.at_most)),
          lt→ltb p.max_capacity (p.write_index + n) over,
        )
        refl
    where
      index : (p.write_index + n) % 2 ^ 32 ≡ p.write_index + n
      index = omega (arith, fits)
