-- ===== src/PacketBuf/Text/RoundTrip.antt =====
-- Strings with an encoded length: read whole, or not at all.
use oblogproxy.Common.{
  ℕ, ◌+◌, ◌%◌, ◌^◌, ◌≤◌, ◌<◌, ◌≡◌, ◌∙◌, refl, ap, List, ◌++◌, none, some, true, arith, length,
  length-append, leb-not, take-length, append_assoc,
}
use oblogproxy.PacketBuf.State.{
  PacketBuf, ErrorMsg, ensure_readable, advance, readable_bytes, sub32, io_size, put,
}
use oblogproxy.PacketBuf.Contents.{
  IsValid, contents, length-contents, peek-contents, advance-Consumes, put-Appends,
}
use oblogproxy.PacketBuf.Room.{ensure_writable-room, ensure_writable-fast}
use oblogproxy.PacketBuf.ByteOrder.{encoded_bytes_length}
use oblogproxy.PacketBuf.Integer.{write_uint, store_uint}
use oblogproxy.PacketBuf.Integer.Encoded.{encoded, length-encoded}
use oblogproxy.PacketBuf.Integer.Writes.{store_uint-Appends}
use oblogproxy.PacketBuf.Integer.Reads.{ensure_readable-enough, read_uint-encoded}
use oblogproxy.PacketBuf.Text.{
  read_length_encoded_string, read_fixed_length_string, write_string, write_std_string,
}

-- In a valid buffer whose contents begin with an encoded length below 2 ^ 32 and a string of that
-- length, the string is read whole, and a valid buffer with the rest as its contents is left.
pub read_length_encoded_string-whole :
    (s rest : List ℕ) (p : PacketBuf)
    → IsValid p
    → length s < 2 ^ 32
    → contents p ≡ encoded (length s) ++ (s ++ rest)
    → (q : PacketBuf) × (read_length_encoded_string p
        ≡ (some (length (encoded (length s)) + length s, s), q))
      × IsValid q
      × (contents q ≡ rest)
unfolding read_length_encoded_string read_fixed_length_string
read_length_encoded_string-whole s rest p valid fits holds =
    let (q, reads, valid1, holds1, moved) =
      read_uint-encoded (length s) p (s ++ rest) valid (omega (arith, fits)) holds in
    let (valid2, holds2) = advance-Consumes q valid1 (length s) s rest refl holds1 in
    (
      advance (length s) q,
      rw
          (
            reads,
            index,
            ensure_readable-enough q valid1 (length s) s rest holds1 (omega arith),
            peek-contents q valid1 (length s) s rest refl holds1,
          )
          refl,
      valid2,
      holds2,
    )
  where
    index : length s % 2 ^ 32 ≡ length s
    index = omega (arith, fits)

-- In a valid buffer, a string that has room behind its encoded length below the maximum, and 4096
-- bytes more below 2 ^ 32, is written: the contents gain the encoded length and the string, and
-- the result is the number of these bytes.
pub write_std_string-prefixed :
    (fresh : ℕ → List ℕ) (s : List ℕ) (p : PacketBuf)
    → ((n : ℕ) → length (fresh n) ≡ n)
    → IsValid p
    → p.write_index + (encoded_bytes_length (length s) + length s) + io_size ≤ 2 ^ 32
    → p.write_index + (encoded_bytes_length (length s) + length s) ≤ p.max_capacity
    → (q : PacketBuf) × (write_std_string fresh s true p
        ≡ (some (encoded_bytes_length (length s) + length s), q))
      × IsValid q
      × (contents q ≡ contents p ++ (encoded (length s) ++ s))
unfolding write_std_string write_string write_uint
write_std_string-prefixed fresh s p sizes valid rounds room =
    let (q, wrote, made) =
      ensure_writable-room fresh sizes p valid (encoded_bytes_length (length s) + length s) rounds
        room in
    let a =
      store_uint-Appends q made.valid (length s) (omega (arith, made.same_index, made.has_room)) in
    let b = put-Appends (store_uint (length s) q) a.valid s (
      omega (
        arith,
        a.behind,
        a.no_smaller,
        made.same_index,
        made.has_room,
        length-encoded (length s),
      )) in
    (
      put s (store_uint (length s) q),
      rw
          (
            index,
            total,
            wrote,
            ensure_writable-fast fresh sizes q made.valid (encoded_bytes_length (length s))
                (omega (arith, made.same_index, made.has_room)),
            take-length,
          )
          refl,
      b.valid,
      b.appended
          ∙ ap (λ bs. bs ++ s) (a.appended ∙ ap (λ bs. bs ++ encoded (length s)) made.kept)
          ∙ append_assoc (contents p) (encoded (length s)) s,
    )
  where
    index : length s % 2 ^ 32 ≡ length s
    index = omega (arith, rounds)

    total :
        (encoded_bytes_length (length s) + length s) % 2 ^ 32
        ≡ encoded_bytes_length (length s) + length s
    total = omega (arith, rounds)

-- In a valid buffer whose contents are an encoded length below 2 ^ 32 and fewer bytes than that,
-- `read_length_encoded_string` fails, and leaves the buffer as it was but for the error message.
pub read_length_encoded_string-backs_off :
    (len : ℕ) (rest : List ℕ) (p : PacketBuf)
    → IsValid p
    → len < 2 ^ 32
    → contents p ≡ encoded len ++ rest
    → length rest < len
    → read_length_encoded_string p
      ≡ (none, record p { error_msg = ErrorMsg.only_readable len (length rest) })
unfolding read_length_encoded_string read_fixed_length_string ensure_readable
read_length_encoded_string-backs_off len rest p valid fits holds short =
    let (q, reads, valid1, holds1, moved) =
      read_uint-encoded len p rest valid (omega (arith, fits)) holds in
    rw (reads, index, left q valid1 holds1, leb-not len (length rest) short)
      (ap (λ r. (none, r)) (undo q moved (back q valid1 moved holds1)))
  where
    index : len % 2 ^ 32 ≡ len
    index = omega (arith, fits)

    left : (q : PacketBuf) → IsValid q → contents q ≡ rest → readable_bytes q ≡ length rest
    left q v h =
        omega (arith, length-contents q v, ap length h, v.ordered, v.within, v.at_most, v.max_fits)

    undo :
        (q : PacketBuf)
        → q ≡ record p { read_index = q.read_index }
        → sub32 q.read_index (length (encoded len)) ≡ p.read_index
        → record q {
          read_index = sub32 q.read_index (length (encoded len));
          error_msg = ErrorMsg.only_readable len (length rest);
        }
          ≡ record p { error_msg = ErrorMsg.only_readable len (length rest) }
    undo q moved h =
        ap {A = PacketBuf} {B = PacketBuf}
          (λ r. record r {
            read_index = sub32 q.read_index (length (encoded len));
            error_msg = ErrorMsg.only_readable len (length rest);
          })
          moved
        ∙ ap {B = PacketBuf}
            (λ i. record p { read_index = i; error_msg = ErrorMsg.only_readable len (length rest) })
            h

    back :
        (q : PacketBuf)
        → IsValid q
        → q ≡ record p { read_index = q.read_index }
        → contents q ≡ rest
        → sub32 q.read_index (length (encoded len)) ≡ p.read_index
    back q v moved h = omega (
      arith,
      length-contents q v,
      ap length h,
      length-contents p valid,
      ap length holds,
      length-append (encoded len) rest,
      ap (λ r. r.write_index) moved,
      v.ordered,
      valid.ordered,
      valid.within,
      valid.at_most,
      valid.max_fits,
    )
