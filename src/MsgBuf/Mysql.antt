-- ===== src/MsgBuf/Mysql.antt =====
-- MysqlBufReader of common/msg_buf.{h,cpp}: length-encoded integers and strings from a message.
use oblogproxy.Common.{
  ℕ, ◌^◌, ◌≤◌, ◌<◌, ◌≡◌, refl, sym, ap, ◌∙◌, List, ◌∷◌, ◌++◌, append-nil, arith, length, take, drop,
  length-append, Bool, true, Bool-cases, inl, inr, ltb, lt→ltb, ◌==◌, if◌then◌else◌, replicate,
  length-replicate, drop_all, subst, take_exact, drop_exact,
}
use oblogproxy.Bytes.{le_bytes, le_value, int2store, int3store, int8store}
use oblogproxy.Bytes.RoundTrip.{length-le_bytes, le_value-le_bytes}
use oblogproxy.Lenenc.{packet_store_length}
use oblogproxy.MsgBuf.{MsgBufReader, read, overwritten, read_uint}
use oblogproxy.MsgBuf.Contents.{rest, IsValid}
use oblogproxy.MsgBuf.Queue.{read-takes, place-rest}

-- The integer is 0 before, and a read that fails is not noticed.
abbrev pub wide : ℕ → MsgBufReader → ℕ × ℕ × MsgBufReader
wide n r = let (done, v, s) = read_uint n 0 r in (0, v, s)

-- What is returned, the value, and the reader.
unfoldable pub after_byte : ℕ → MsgBufReader → ℕ × ℕ × MsgBufReader
unfolding read_uint
after_byte byte r =
    if ltb byte 251
    then (0, byte, r)
    else if byte == 252
    then wide 2 r
    else if byte == 253
    then wide 3 r
    else if byte == 254
    then wide 8 r
    else if byte == 251
    then (251, 0, r)
    else if byte == 255
    then (255, 0, r)
    else (0, 0, r)

unfoldable pub read_lenenc_uint : MsgBufReader → ℕ × ℕ × MsgBufReader
unfolding after_byte
read_lenenc_uint r = let (done, byte, s) = read_uint 1 0 r in after_byte byte s

-- The string is resized to the length, and what is there is written over its NULs.
abbrev pub filled : ℕ → Bool × List ℕ × MsgBufReader → List ℕ × MsgBufReader
filled len (done, out, r) = (out ++ drop (length out) (replicate len 0), r)

unfoldable pub read_lenenc_str : MsgBufReader → List ℕ × MsgBufReader
unfolding read_lenenc_uint read
read_lenenc_str r = let (returned, len, s) = read_lenenc_uint r in filled len (read len s)

overwritten_zero : (bs : List ℕ) → overwritten 0 bs ≡ le_value bs
overwritten_zero bs = grind arith

-- A reader behind what was read.
abbrev pub Leaves : MsgBufReader → List ℕ → Type 0
Leaves s more = IsValid s × (rest s.at ≡ more)

read-front :
    (r : MsgBufReader) (bs more : List ℕ)
    → IsValid r
    → rest r.at ≡ bs ++ more
    → (s : MsgBufReader) × (read (length bs) r ≡ (true, bs, s)) × Leaves s more
read-front r bs more v front =
    let (s, found, t) =
      read-takes r v (length bs) (omega (arith, ap length front, length-append bs more)) in
    (
      s,
      found
          ∙ ap (λ b. (true, b, s))
              (ap (take (length bs)) front ∙ take_exact (length bs) bs more refl),
      (t.valid, t.left ∙ ap (drop (length bs)) front ∙ drop_exact (length bs) bs more refl),
    )

read_uint-le_bytes :
    (r : MsgBufReader) (n v : ℕ) (more : List ℕ)
    → IsValid r
    → v < 256 ^ n
    → rest r.at ≡ le_bytes n v ++ more
    → (s : MsgBufReader) × (read_uint n 0 r ≡ (true, v, s)) × Leaves s more
unfolding read_uint
read_uint-le_bytes r n v more valid fits front =
    let (s, found, l) = read-front r (le_bytes n v) more valid front in
    let whole : read n r ≡ (true, le_bytes n v, s) =
      subst (λ k. read k r ≡ (true, le_bytes n v, s)) (length-le_bytes n v) found in
    (
      s,
      rw whole
          (ap (λ u. (true, u, s)) (overwritten_zero (le_bytes n v) ∙ le_value-le_bytes n v fits)),
      l,
    )

abbrev pub ReadsUint : MsgBufReader → ℕ → List ℕ → Type 0
ReadsUint r v more = (s : MsgBufReader) × (read_lenenc_uint r ≡ (0, v, s)) × Leaves s more

read_byte :
    (r : MsgBufReader) (b : ℕ) (more : List ℕ)
    → IsValid r
    → b < 256
    → rest r.at ≡ b ∷ more
    → (s : MsgBufReader) × (read_uint 1 0 r ≡ (true, b, s)) × Leaves s more
read_byte r b more v h front = read_uint-le_bytes r 1 b more v h (front ∙ sym same)
  where
    same : le_bytes 1 b ++ more ≡ b ∷ more
    same = unfold le_bytes in ap (λ c. c ∷ more) (omega arith)

first_byte :
    (r : MsgBufReader) (o : Bool × ℕ × MsgBufReader)
    → read_uint 1 0 r ≡ o
    → read_lenenc_uint r ≡ after_byte o.1 o.2
unfolding read_lenenc_uint
first_byte r o h = ap (λ (u : Bool × ℕ × MsgBufReader). after_byte u.1 u.2) h

tagged :
    (r : MsgBufReader) (tag n v : ℕ) (more : List ℕ)
    → IsValid r
    → tag < 256
    → ((s : MsgBufReader) → after_byte tag s ≡ wide n s)
    → v < 256 ^ n
    → rest r.at ≡ tag ∷ (le_bytes n v ++ more)
    → ReadsUint r v more
tagged r tag n v more valid small goes fits front =
    let (s, first, l) = read_byte r tag (le_bytes n v ++ more) valid small front in
    let (t, second, m) = read_uint-le_bytes s n v more l.0 fits l.1 in
    (
      t,
      first_byte r (true, tag, s) first
          ∙ goes s
          ∙ ap (λ (o : Bool × ℕ × MsgBufReader). (0, o.1, o.2)) second,
      m,
    )

module _ (r : MsgBufReader) (v : ℕ) (more : List ℕ) (valid : IsValid r) where
  in_one : v < 251 → rest r.at ≡ v ∷ more → ReadsUint r v more
  unfolding after_byte
  in_one small front =
      let (s, first, l) = read_byte r v more valid (omega arith) front in
      (s, first_byte r (true, v, s) first ∙ rw (lt→ltb v 251 small) refl, l)

  in_three : 251 ≤ v → v < 65536 → rest r.at ≡ 252 ∷ (int2store v ++ more) → ReadsUint r v more
  unfolding int2store
  in_three large small front =
      tagged r 252 2 v more valid (omega arith) (λ s. unfold after_byte in refl) small front

  in_four : v < 16777216 → rest r.at ≡ 253 ∷ (int3store v ++ more) → ReadsUint r v more
  in_four small front =
      tagged r 253 3 v more valid (omega arith) (λ s. unfold after_byte in refl) small
        (front ∙ ap (λ bs. 253 ∷ (bs ++ more)) same)
    where
      same : int3store v ≡ le_bytes 3 v
      same = unfold le_bytes int3store in ground arith

  in_nine : v < 2 ^ 64 → rest r.at ≡ 254 ∷ (int8store v ++ more) → ReadsUint r v more
  unfolding int8store
  in_nine small front =
      tagged r 254 8 v more valid (omega arith) (λ s. unfold after_byte in refl) small front

-- In a valid reader whose bytes that are left begin with what `packet_store_length` wrote for a
-- 64-bit number, wherever the chunks are cut, `read_lenenc_uint` returns 0 with that number and
-- leaves what stands behind it.
pub read_lenenc_uint-packet_store_length :
    (r : MsgBufReader) (v : ℕ) (more : List ℕ)
    → IsValid r
    → v < 2 ^ 64
    → rest r.at ≡ packet_store_length v ++ more
    → ReadsUint r v more
unfolding packet_store_length
read_lenenc_uint-packet_store_length r v more valid small front = elim (Bool-cases (ltb v 251)) [
  | inl one ↦ in_one r v more valid (ground arith) (rw one at front)
  | inr h1 ↦ elim (Bool-cases (ltb v 65536)) [
    | inl three ↦ in_three r v more valid (ground arith) (ground arith) (rw (h1, three) at front)
    | inr h2 ↦ elim (Bool-cases (ltb v 16777216)) [
      | inl four ↦ in_four r v more valid (ground arith) (rw (h1, h2, four) at front)
      | inr h3 ↦ in_nine r v more valid small (rw (h1, h2, h3) at front)
    ]
  ]
]

-- In such a reader, a string behind its length is read whole.
pub read_lenenc_str-prefixed :
    (r : MsgBufReader) (str more : List ℕ)
    → IsValid r
    → rest r.at ≡ packet_store_length (length str) ++ (str ++ more)
    → (s : MsgBufReader) × (read_lenenc_str r ≡ (str, s)) × Leaves s more
unfolding read_lenenc_str
read_lenenc_str-prefixed r str more valid front =
    let (s, len, l) =
      read_lenenc_uint-packet_store_length r (length str) (str ++ more) valid
        (omega (
          arith,
          place-rest r valid,
          valid.fits,
          ap length front,
          length-append (packet_store_length (length str)) (str ++ more),
          length-append str more,
        ))
        front in
    let (t, whole, m) = read-front s str more l.0 l.1 in
    (
      t,
      ap (λ (o : ℕ × ℕ × MsgBufReader). filled o.1 (read o.1 o.2)) len
          ∙ ap (filled (length str)) whole
          ∙ ap (λ u. (u, t))
              (rw
                (drop_all (length str) (replicate (length str) 0)
                  (omega (arith, length-replicate {0} {A = ℕ} (length str) 0)))
                (append-nil str)),
      m,
    )
