-- ===== src/GtidSet/Uuid/RoundTrip.antt =====
-- The text of a UUID is read back.
use oblogproxy.Common.{
  ℕ, ◌≡◌, ◌≢◌, refl, sym, ap, ◌∙◌, List, [], ◌∷◌, ◌++◌, false, some, All, arith, length,
  length-take, length-drop, take, drop, take-drop, drop-drop, take_exact, drop_exact, take-length,
}
use oblogproxy.Text.Split.{
  split, joined, Inside, All-map, All-append, append-cons-ne-nil, split-joined,
}
use oblogproxy.GtidSet.Uuid.{
  delimited, uuid_hex_bin_to_str_with_delim, uuid_of_parts, uuid_str_to_hex_bin,
}
use oblogproxy.GtidSet.Uuid.Hex.{IsByte, hex, hex_to_bin-hex, length-hex, hex-append, hex-Inside}

-- The bytes of a UUID in the groups of its text.
record Groups (uuid : List ℕ) : Type 0 where
  one : List ℕ
  two : List ℕ
  three : List ℕ
  four : List ℕ
  five : List ℕ
  whole : uuid ≡ one ++ (two ++ (three ++ (four ++ five)))
  lengths :
      (length one ≡ 4)
      × (length two ≡ 2)
      × (length three ≡ 2)
      × (length four ≡ 2)
      × (length five ≡ 6)

groups : (uuid : List ℕ) → length uuid ≡ 16 → Groups uuid
groups uuid h = record {
  one = take 4 uuid;
  two = take 2 (drop 4 uuid);
  three = take 2 (drop 2 (drop 4 uuid));
  four = take 2 (drop 2 (drop 2 (drop 4 uuid)));
  five = drop 2 (drop 2 (drop 2 (drop 4 uuid)));
  whole = sym (
      rw
        (
          take-drop 2 (drop 2 (drop 2 (drop 4 uuid))),
          take-drop 2 (drop 2 (drop 4 uuid)),
          take-drop 2 (drop 4 uuid),
          take-drop 4 uuid,
        )
        refl);
  lengths = grind (arith, h, length-take {A = ℕ}, length-drop {A = ℕ});
}

delimited_lem :
    (a b c d e : List ℕ)
    → length a ≡ 8
    → length b ≡ 4
    → length c ≡ 4
    → length d ≡ 4
    → length e ≡ 12
    → delimited (a ++ (b ++ (c ++ (d ++ e)))) ≡ joined b'-' a (b ∷ c ∷ d ∷ e ∷ [])
delimited_lem a b c d e la lb lc ld le =
    let text = a ++ (b ++ (c ++ (d ++ e))) in
    let at8 : drop 8 text ≡ b ++ (c ++ (d ++ e)) = drop_exact 8 a _ la in
    let at12 : drop 12 text ≡ c ++ (d ++ e) =
      sym (drop-drop 8 4 text) ∙ ap (drop 4) at8 ∙ drop_exact 4 b _ lb in
    let at16 : drop 16 text ≡ d ++ e =
      sym (drop-drop 12 4 text) ∙ ap (drop 4) at12 ∙ drop_exact 4 c _ lc in
    let at20 : drop 20 text ≡ e =
      sym (drop-drop 16 4 text) ∙ ap (drop 4) at16 ∙ drop_exact 4 d _ ld in
    rw
      (
        at8,
        at12,
        at16,
        at20,
        take_exact 8 a (b ++ (c ++ (d ++ e))) la,
        take_exact 4 b (c ++ (d ++ e)) lb,
        take_exact 4 c (d ++ e) lc,
        take_exact 4 d e ld,
        ← le,
        take-length e,
      )
      refl

hex-groups :
    (p q r s t : List ℕ)
    → hex (p ++ (q ++ (r ++ (s ++ t)))) ≡ hex p ++ (hex q ++ (hex r ++ (hex s ++ hex t)))
hex-groups p q r s t =
    rw
      (
        hex-append p (q ++ (r ++ (s ++ t))),
        hex-append q (r ++ (s ++ t)),
        hex-append r (s ++ t),
        hex-append s t,
      )
      refl

-- The 16 bytes of a UUID are read back from its text, which has no ':' and is not empty.
module _ (uuid : List ℕ) (bytes : All IsByte uuid) (sixteen : length uuid ≡ 16) where
  text_parts :
      (g : Groups uuid)
      → uuid_hex_bin_to_str_with_delim uuid
        ≡ joined b'-' (hex g.one) (hex g.two ∷ hex g.three ∷ hex g.four ∷ hex g.five ∷ [])
  unfolding uuid_hex_bin_to_str_with_delim
  text_parts g =
      let (l, m, n, o, k) = g.lengths in
      ap (λ bs. delimited (hex bs))
        (ap (λ n'. take n' uuid) (sym sixteen) ∙ take-length uuid ∙ g.whole)
      ∙ ap delimited (hex-groups g.one g.two g.three g.four g.five)
      ∙ delimited_lem (hex g.one) (hex g.two) (hex g.three) (hex g.four) (hex g.five)
          (omega (arith, length-hex g.one, l)) (omega (arith, length-hex g.two, m))
          (omega (arith, length-hex g.three, n)) (omega (arith, length-hex g.four, o))
          (omega (arith, length-hex g.five, k))

All-both {κ} : (P : ℕ → Type κ) (xs ys : List ℕ) → All P (xs ++ ys) → All P xs × All P ys
All-both P [] ys h = (tt, h)
All-both P (x ∷ xs) ys (h, hs) = let (a, b) = All-both P xs ys hs in ((h, a), b)

-- The bytes of each group are bytes.
group_bytes :
    (uuid : List ℕ) (g : Groups uuid)
    → All IsByte uuid
    → All (All IsByte) (g.one ∷ g.two ∷ g.three ∷ g.four ∷ g.five ∷ [])
group_bytes uuid g bytes =
    let (a, rest) = All-both IsByte g.one _ (rw (← g.whole) bytes) in
    let (b, rest') = All-both IsByte g.two _ rest in
    let (c, rest'') = All-both IsByte g.three _ rest' in
    let (d, e) = All-both IsByte g.four g.five rest'' in (a, (b, (c, (d, (e, tt)))))

hex-piece : (bs : List ℕ) → All IsByte bs → All (Inside b'-') (hex bs)
hex-piece bs h =
    All-map (λ c. (c ≢ 0) × (c ≢ b'-') × (c ≢ b':')) (Inside b'-') (hex bs) (λ c i. (i.0, i.1))
      (hex-Inside bs h)

uuid_of_parts-hex :
    (p q r s t : List ℕ)
    → (length p ≡ 4) × (length q ≡ 2) × (length r ≡ 2) × (length s ≡ 2) × (length t ≡ 6)
    → All (All IsByte) (p ∷ q ∷ r ∷ s ∷ t ∷ [])
    → uuid_of_parts (hex p ∷ hex q ∷ hex r ∷ hex s ∷ hex t ∷ [])
      ≡ some (p ++ (q ++ (r ++ (s ++ t))))
uuid_of_parts-hex p q r s t (l, m, n, o, k) (hp, (hq, (hr, (hs, (ht, _))))) =
    rw
      (
        length-hex p,
        length-hex q,
        length-hex r,
        length-hex s,
        length-hex t,
        l,
        m,
        n,
        o,
        k,
        hex_to_bin-hex p hp,
        hex_to_bin-hex q hq,
        hex_to_bin-hex r hr,
        hex_to_bin-hex s hs,
        hex_to_bin-hex t ht,
      )
      refl

module _ (uuid : List ℕ) (bytes : All IsByte uuid) (sixteen : length uuid ≡ 16) where
  -- The 16 bytes of a UUID are read back from its text.
  pub uuid_str-uuid_hex_bin : uuid_str_to_hex_bin (uuid_hex_bin_to_str_with_delim uuid) ≡ some uuid
  unfolding uuid_str_to_hex_bin
  uuid_str-uuid_hex_bin =
      let g = groups uuid sixteen in
      let (a, (b, (c, (d, (e, _))))) = group_bytes uuid g bytes in
      ap (λ t. uuid_of_parts (split t b'-' false)) (text_parts uuid bytes sixteen g)
      ∙ ap uuid_of_parts (
          split-joined b'-' (omega arith) (hex g.one)
            (hex g.two ∷ hex g.three ∷ hex g.four ∷ hex g.five ∷ [])
            (append-cons-ne-nil (hex g.one) _ b'-')
            (
              hex-piece g.one a,
              (
                hex-piece g.two b,
                (hex-piece g.three c, (hex-piece g.four d, (hex-piece g.five e, tt))),
              ),
            ))
      ∙ uuid_of_parts-hex g.one g.two g.three g.four g.five g.lengths (group_bytes uuid g bytes)
      ∙ ap some (sym g.whole)

  -- The text holds neither NUL nor ':'.
  pub uuid_text-Inside : All (Inside b':') (uuid_hex_bin_to_str_with_delim uuid)
  uuid_text-Inside =
      let g = groups uuid sixteen in
      let (a, (b, (c, (d, (e, _))))) = group_bytes uuid g bytes in
      rw (text_parts uuid bytes sixteen g) (
        piece (hex g.one) _ (clean g.one a) (
          piece (hex g.two) _ (clean g.two b) (
            piece (hex g.three) _ (clean g.three c)
              (piece (hex g.four) (hex g.five) (clean g.four d) (clean g.five e)))))
    where
      clean : (bs : List ℕ) → All IsByte bs → All (Inside b':') (hex bs)
      clean bs h =
          All-map (λ c'. (c' ≢ 0) × (c' ≢ b'-') × (c' ≢ b':')) (Inside b':') (hex bs)
            (λ c' i. (i.0, i.2)) (hex-Inside bs h)

      piece :
          (x rest : List ℕ)
          → All (Inside b':') x
          → All (Inside b':') rest
          → All (Inside b':') (x ++ b'-' ∷ rest)
      piece x rest h hs = All-append (Inside b':') x (b'-' ∷ rest) h (omega arith, hs)
