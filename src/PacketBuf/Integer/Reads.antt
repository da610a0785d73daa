-- ===== src/PacketBuf/Integer/Reads.antt =====
-- What a read of a length-encoded integer takes from the contents.
use oblogproxy.Common.{
  ℕ, ◌+◌, ◌*◌, ◌/◌, ◌%◌, ◌^◌, ◌≤◌, ◌<◌, ◌≡◌, ◌∙◌, refl, sym, ap, List, [], ◌∷◌, ◌++◌, some, true,
  ltb, arith, length, length-append, le→leb, inl, inr, Bool-cases, subst, ltb→lt,
}
use oblogproxy.Bytes.{le_bytes, le_value}
use oblogproxy.Bytes.RoundTrip.{length-le_bytes, le_value-le_bytes}
use oblogproxy.PacketBuf.State.{PacketBuf, ensure_readable, peek, advance, readable_bytes}
use oblogproxy.PacketBuf.ByteOrder.{read_le8toh, read_le16toh, read_le24toh, read_le64toh}
use oblogproxy.PacketBuf.Contents.{
  IsValid, contents, peek-contents, advance-Consumes, length-contents,
}
use oblogproxy.PacketBuf.Integer.{read_first, read_uint, read_tagged}
use oblogproxy.PacketBuf.Integer.Encoded.{
  encoded, encoded-one, encoded-two, encoded-three, encoded-more,
}

-- What a read of a number takes from the front of the contents.
module _ (p : PacketBuf) (valid : IsValid p) where
  read_le-Consumes :
      (n v : ℕ) (rest : List ℕ)
      → v < 256 ^ n
      → contents p ≡ le_bytes n v ++ rest
      → (le_value (peek n p) ≡ v) × IsValid (advance n p) × (contents (advance n p) ≡ rest)
  read_le-Consumes n v rest fits holds =
      let (valid1, left) =
        advance-Consumes p valid n (le_bytes n v) rest (length-le_bytes n v) holds in
      (
        ap le_value (peek-contents p valid n (le_bytes n v) rest (length-le_bytes n v) holds)
            ∙ le_value-le_bytes n v fits,
        valid1,
        left,
      )

  -- Bytes that the contents begin with can be read.
  pub ensure_readable-enough :
      (n : ℕ) (bs rest : List ℕ)
      → contents p ≡ bs ++ rest
      → n ≤ length bs
      → ensure_readable n p ≡ (true, p)
  unfolding ensure_readable
  ensure_readable-enough n bs rest holds enough =
      rw
        (le→leb n (readable_bytes p) (
          omega (
            arith,
            enough,
            valid.ordered,
            valid.within,
            valid.at_most,
            valid.max_fits,
            length-contents p valid,
            ap length holds,
            length-append bs rest,
          )))
        refl

  -- The first byte of the contents decides.
  read_uint-first :
      (tag : ℕ) (rest : List ℕ) → contents p ≡ tag ∷ rest → read_uint p ≡ read_first tag p
  unfolding read_uint le_value
  read_uint-first tag rest holds =
      rw (ensure_readable-enough 1 (tag ∷ []) rest holds (omega arith)) (
        ap (λ b. read_first b p)
          (ap le_value (peek-contents p valid 1 (tag ∷ []) rest refl holds) ∙ byte))
    where
      byte : le_value (tag ∷ []) ≡ tag
      byte = omega arith

  past_tag :
      (tag : ℕ) (rest : List ℕ)
      → contents p ≡ tag ∷ rest
      → IsValid (advance 1 p) × (contents (advance 1 p) ≡ rest)
  past_tag tag rest holds = advance-Consumes p valid 1 (tag ∷ []) rest refl holds

-- The result of a read of `v` in `n` bytes before `rest`; only the index has moved.
abbrev pub Reads : PacketBuf → ℕ → ℕ → List ℕ → Type 0
Reads p n v rest =
    (q : PacketBuf) × (read_uint p ≡ (some (n, v), q))
    × IsValid q
    × (contents q ≡ rest)
    × (q ≡ record p { read_index = q.read_index })

module _ (p : PacketBuf) (valid : IsValid p) (v : ℕ) (rest : List ℕ) where
  read_one : ltb v 251 ≡ true → contents p ≡ v ∷ rest → Reads p 1 v rest
  unfolding advance
  read_one one holds =
      let (valid1, left) = past_tag p valid v rest holds in
      (advance 1 p, read_uint-first p valid v rest holds ∙ rw one refl, valid1, left, refl)

  read_two : v < 2 ^ 16 → contents p ≡ 252 ∷ (le_bytes 2 v ++ rest) → Reads p 3 v rest
  unfolding read_tagged read_le16toh advance
  read_two fits holds =
      let (valid1, holds1) = past_tag p valid 252 (le_bytes 2 v ++ rest) holds in
      let (value, valid2, holds2) =
        read_le-Consumes (advance 1 p) valid1 2 v rest (omega arith) holds1 in
      (
        advance 2 (advance 1 p),
        read_uint-first p valid 252 _ holds
            ∙ rw
                (
                  ensure_readable-enough p valid 3 (252 ∷ le_bytes 2 v) rest holds
                      (omega (arith, length-le_bytes 2 v)),
                  value,
                )
                refl,
        valid2,
        holds2,
        refl,
      )

  read_three : v < 2 ^ 24 → contents p ≡ 253 ∷ (le_bytes 3 v ++ rest) → Reads p 4 v rest
  unfolding read_tagged read_le24toh read_le16toh read_le8toh le_bytes le_value advance
  read_three fits holds =
      let (valid1, holds1) = past_tag p valid 253 (le_bytes 3 v ++ rest) holds in
      let low = v % 256 ∷ v / 256 % 256 ∷ [] in
      let high = v / 256 / 256 % 256 ∷ [] in
      let (valid2, holds2) =
        advance-Consumes (advance 1 p) valid1 2 low (high ++ rest) refl holds1 in
      let (valid3, holds3) =
        advance-Consumes (advance 2 (advance 1 p)) valid2 1 high rest refl holds2 in
      (
        advance 1 (advance 2 (advance 1 p)),
        read_uint-first p valid 253 _ holds
            ∙ rw
                (
                  ensure_readable-enough p valid 4 (253 ∷ le_bytes 3 v) rest holds (omega arith),
                  peek-contents (advance 1 p) valid1 2 low (high ++ rest) refl holds1,
                  peek-contents (advance 2 (advance 1 p)) valid2 1 high rest refl holds2,
                )
                (ap (λ k. (some (4, k), advance 1 (advance 2 (advance 1 p)))) (parts fits)),
        valid3,
        holds3,
        refl,
      )
    where
      parts :
          v < 2 ^ 24
          → (v / 256 / 256 % 256 + 256 * 0) * 2 ^ 16 + (v % 256 + 256 * (v / 256 % 256 + 256 * 0))
            ≡ v
      parts h = omega arith

  read_more : v < 2 ^ 64 → contents p ≡ 254 ∷ (le_bytes 8 v ++ rest) → Reads p 9 v rest
  unfolding read_tagged read_le64toh advance
  read_more fits holds =
      let (valid1, holds1) = past_tag p valid 254 (le_bytes 8 v ++ rest) holds in
      let (value, valid2, holds2) =
        read_le-Consumes (advance 1 p) valid1 8 v rest (omega arith) holds1 in
      (
        advance 8 (advance 1 p),
        read_uint-first p valid 254 _ holds
            ∙ rw
                (
                  ensure_readable-enough p valid 9 (254 ∷ le_bytes 8 v) rest holds
                      (omega (arith, length-le_bytes 8 v)),
                  value,
                )
                refl,
        valid2,
        holds2,
        refl,
      )

-- In a valid buffer, a 64-bit number whose encoding the contents begin with is read back. The
-- buffer stays valid, the rest is left as the contents, and nothing but the read index has
-- changed.
pub read_uint-encoded :
    (v : ℕ) (p : PacketBuf) (rest : List ℕ)
    → IsValid p
    → v < 2 ^ 64
    → contents p ≡ encoded v ++ rest
    → Reads p (length (encoded v)) v rest
unfolding le_bytes
read_uint-encoded v p rest valid fits holds = elim (Bool-cases (ltb v 251)) [
  | inl one ↦ via (v ∷ []) (encoded-one v one) (read_one p valid v rest one)
  | inr over1 ↦ elim (Bool-cases (ltb v 65536)) [
    | inl two ↦
        via (252 ∷ le_bytes 2 v) (encoded-two v over1 two)
          (read_two p valid v rest (ltb→lt v 65536 two))
    | inr over2 ↦ elim (Bool-cases (ltb v 16777216)) [
      | inl three ↦
          via (253 ∷ le_bytes 3 v) (encoded-three v over1 over2 three)
            (read_three p valid v rest (ltb→lt v 16777216 three))
      | inr more ↦
          via (254 ∷ le_bytes 8 v) (encoded-more v over1 over2 more) (read_more p valid v rest fits)
    ]
  ]
]
  where
    via :
        (bs : List ℕ)
        → encoded v ≡ bs
        → (contents p ≡ bs ++ rest → Reads p (length bs) v rest)
        → Reads p (length (encoded v)) v rest
    via bs e f =
        subst (λ cs. Reads p (length cs) v rest) (sym e) (f (holds ∙ ap (λ cs. cs ++ rest) e))
