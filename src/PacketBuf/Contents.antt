-- ===== src/PacketBuf/Contents.antt =====
-- What a PacketBuf holds: the bytes between its indices, a queue of bytes. A write adds to its end
-- and a read takes from its front, and neither the capacity nor the place of the bytes shows.
use oblogproxy.Common.{
  drop_within, drop-drop, take-drop, take_two, take_exact, drop_exact, ℕ, ◌+◌, ◌-◌, ◌%◌, ◌^◌, ◌≤◌,
  ◌<◌, ◌≡◌, ◌∙◌, refl, sym, ap, List, ◌++◌, take, drop, length, arith, append_assoc, length-append,
  length-take, length-drop,
}
use oblogproxy.PacketBuf.State.{PacketBuf, put, peek, advance}

-- The constraint stated beside the fields of the class.
pub record IsValid (p : PacketBuf) : Type 0 where
  pub sized : length p.buf ≡ p.capacity
  pub ordered : p.read_index ≤ p.write_index
  pub within : p.write_index ≤ p.capacity
  pub at_least : p.min_capacity ≤ p.capacity
  pub at_most : p.capacity ≤ p.max_capacity
  pub max_fits : p.max_capacity < 2 ^ 32

abbrev pub contents : PacketBuf → List ℕ
contents p = drop p.read_index (take p.write_index p.buf)

-- `q` is `p` after a write of `bs` to its end.
pub record Appends (p : PacketBuf) (bs : List ℕ) (q : PacketBuf) : Type 0 where
  pub valid : IsValid q
  pub appended : contents q ≡ contents p ++ bs
  pub behind : q.write_index ≡ p.write_index + length bs
  pub same_max : q.max_capacity ≡ p.max_capacity
  pub no_smaller : p.capacity ≤ q.capacity

-- The sizes of the parts of a valid buffer.
module _ (p : PacketBuf) (v : IsValid p) where
  length-written : length (take p.write_index p.buf) ≡ p.write_index
  length-written = omega (arith, v.sized, v.within, length-take p.write_index p.buf)

  pub length-contents : length (contents p) ≡ p.write_index - p.read_index
  length-contents =
      omega (arith, length-written, length-drop p.read_index (take p.write_index p.buf))

  buf_split : drop p.read_index p.buf ≡ contents p ++ drop p.write_index p.buf
  buf_split =
      ap (drop p.read_index) (sym (take-drop p.write_index p.buf))
      ∙ drop_within p.read_index (take p.write_index p.buf) (drop p.write_index p.buf)
          (omega (arith, length-written, v.ordered))

  pub put-Appends : (bs : List ℕ) → p.write_index + length bs ≤ p.capacity → Appends p bs (put bs p)
  unfolding put
  put-Appends bs room = record {
    valid = record {
      sized = omega (
        arith,
        room,
        v.sized,
        length-written,
        length-append (take p.write_index p.buf) (bs ++ drop (p.write_index + length bs) p.buf),
        length-append bs (drop (p.write_index + length bs) p.buf),
        length-drop (p.write_index + length bs) p.buf,
      );
      ordered = omega (arith, index, v.ordered);
      within = omega (arith, index, room);
      at_least = v.at_least;
      at_most = v.at_most;
      max_fits = v.max_fits;
    };
    appended =
        rw
          (
            index,
            take_two p.write_index (take p.write_index p.buf) bs
                (drop (p.write_index + length bs) p.buf) length-written,
          )
          (drop_within p.read_index (take p.write_index p.buf) bs
            (omega (arith, length-written, v.ordered)));
    behind = index;
    same_max = refl;
    no_smaller = omega arith;
  }
    where
      index : (p.write_index + length bs) % 2 ^ 32 ≡ p.write_index + length bs
      index = omega (arith, room, v.at_most, v.max_fits)

  pub peek-contents :
      (n : ℕ) (bs rest : List ℕ) → length bs ≡ n → contents p ≡ bs ++ rest → peek n p ≡ bs
  unfolding peek
  peek-contents n bs rest counted holds =
      rw (buf_split, holds, append_assoc bs rest _) (take_exact n bs _ counted)

  pub advance-Consumes :
      (n : ℕ) (bs rest : List ℕ)
      → length bs ≡ n
      → contents p ≡ bs ++ rest
      → IsValid (advance n p) × (contents (advance n p) ≡ rest)
  unfolding advance
  advance-Consumes n bs rest counted holds = (
    record {
      sized = v.sized;
      ordered = omega (arith, index, enough);
      within = v.within;
      at_least = v.at_least;
      at_most = v.at_most;
      max_fits = v.max_fits;
    },
    rw (index, ← drop-drop p.read_index n, holds) (drop_exact n bs rest counted),
  )
    where
      enough : p.read_index + n ≤ p.write_index
      enough =
          omega (arith, v.ordered, length-contents, ap length holds, length-append bs rest, counted)

      index : (p.read_index + n) % 2 ^ 32 ≡ p.read_index + n
      index = omega (arith, enough, v.within, v.at_most, v.max_fits)
