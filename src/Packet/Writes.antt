-- ===== src/Packet/Writes.antt =====
-- A sequence of writes adds their bytes to the contents, one after another.
use native.Mathlib.Nat.{mod-eq_of_lt}
use oblogproxy.Common.{
  ℕ, ◌+◌, ◌%◌, ◌^◌, ◌≤◌, ◌<◌, ◌≡◌, refl, sym, ap, ◌∙◌, List, [], ◌∷◌, ◌++◌, append-nil, true, false,
  some, arith, length, length-append, take, take-length, All,
}
use oblogproxy.Bytes.{le_bytes}
use oblogproxy.Bytes.RoundTrip.{length-le_bytes}
use oblogproxy.PacketBuf.State.{PacketBuf, put, io_size, ensure_writable}
use oblogproxy.PacketBuf.ByteOrder.{
  encoded_bytes_length, write_htole8, write_htole16, write_htole32,
}
use oblogproxy.PacketBuf.Contents.{IsValid, contents, Appends, put-Appends}
use oblogproxy.PacketBuf.Room.{MakesRoom, ensure_writable-room, ensure_writable-fast}
use oblogproxy.PacketBuf.Integer.{
  Written, store_uint, write_fixed, write_uint1, write_uint2, write_uint4, write_uint,
}
use oblogproxy.PacketBuf.Integer.Encoded.{encoded, length-encoded}
use oblogproxy.PacketBuf.Integer.Writes.{Appends-trans, store_uint-Appends}
use oblogproxy.PacketBuf.Text.{write_string, write_std_string, write_c_string}
use oblogproxy.Common.{subst}
use oblogproxy.Event.Memory.{NonZero, c_string-append}
use oblogproxy.Packet.{run_writes}

-- Room for `n` bytes below the maximum, and for 4096 more below 2 ^ 32.
pub record HasRoom (p : PacketBuf) (n : ℕ) : Type 0 where
  pub rounds : p.write_index + n + io_size ≤ 2 ^ 32
  pub room : p.write_index + n ≤ p.max_capacity

-- A write that adds these bytes, where there is room, and gives their number.
abbrev pub Writer : (PacketBuf → Written) → List ℕ → Type 0
Writer w bs =
    (p : PacketBuf)
    → IsValid p
    → HasRoom p (length bs)
    → (q : PacketBuf) × (w p ≡ (some (length bs), q)) × Appends p bs q

pub data Writers : List (PacketBuf → Written) → List ℕ → Type 0 where
  nil : Writers [] []
  cons :
      {w : PacketBuf → Written} {ws : List (PacketBuf → Written)} (bs cs : List ℕ)
      → Writer w bs
      → Writers ws cs
      → Writers (w ∷ ws) (bs ++ cs)

Appends-none : (p : PacketBuf) → IsValid p → Appends p [] p
Appends-none p v = record {
  valid = v;
  appended = sym (append-nil (contents p));
  behind = omega arith;
  same_max = refl;
  no_smaller = omega arith;
}

-- Room first, and then the bytes.
room-Appends :
    (p q r : PacketBuf) (n : ℕ) (bs : List ℕ) → MakesRoom p n q → Appends q bs r → Appends p bs r
room-Appends p q r n bs made a = record {
  valid = a.valid;
  appended = a.appended ∙ ap (λ cs. cs ++ bs) made.kept;
  behind = a.behind ∙ ap (λ i. i + length bs) made.same_index;
  same_max = a.same_max ∙ made.same_max;
  no_smaller = omega (arith, made.no_smaller, a.no_smaller);
}

mod_small : (n word : ℕ) → n < word → n % word ≡ n
mod_small n word h = mod-eq_of_lt h

-- Writes with room for all their bytes, whose sum does not reach `word`.
run_writes-Appends :
    {ws : List (PacketBuf → Written)} (word sz : ℕ) (bs : List ℕ) (p : PacketBuf)
    → Writers ws bs
    → IsValid p
    → HasRoom p (length bs)
    → sz + length bs < word
    → (q : PacketBuf) × (run_writes word ws (sz, p) ≡ (sz + length bs, q)) × Appends p bs q
unfolding run_writes
run_writes-Appends word sz _ p nil v h fits = (p, ap (λ n. (n, p)) (omega arith), Appends-none p v)
run_writes-Appends word sz _ p (cons {w} {ws} bs cs writer rest) v h fits =
    let whole = length-append bs cs in
    let (q, wrote, a) =
      writer p v
        (record { rounds = omega (arith, h.rounds, whole); room = omega (arith, h.room, whole) }) in
    let (r, ran, b) =
      run_writes-Appends word (sz + length bs) cs q rest a.valid
        (record {
          rounds = omega (arith, h.rounds, whole, a.behind);
          room = omega (arith, h.room, whole, a.behind, a.same_max);
        })
        (omega (arith, fits, whole)) in
    let small : (sz + length bs) % word ≡ sz + length bs =
      mod_small (sz + length bs) word (omega (arith, fits, whole)) in
    (
      r,
      rw (wrote, small, ran) (ap (λ n. (n, r)) (omega (arith, whole))),
      Appends-trans p q r bs cs a b,
    )

-- All the writes of a packet, whose sizes are summed up from 0.
pub run_writes-whole :
    {ws : List (PacketBuf → Written)} (word : ℕ) (bs : List ℕ) (p : PacketBuf)
    → Writers ws bs
    → IsValid p
    → HasRoom p (length bs)
    → 2 ^ 32 ≤ word
    → (q : PacketBuf) × (run_writes word ws (0, p) ≡ (length bs, q)) × Appends p bs q
run_writes-whole word bs p writers v h wide =
    let (q, ran, a) = run_writes-Appends word 0 bs p writers v h (omega (arith, h.rounds, wide)) in
    (q, ran ∙ ap (λ n. (n, q)) (omega arith), a)

module _ (fresh : ℕ → List ℕ) (sizes : (n : ℕ) → length (fresh n) ≡ n) where
  put_fixed :
      (n v : ℕ) (store : PacketBuf → PacketBuf)
      → ((q : PacketBuf) → store q ≡ put (le_bytes n v) q)
      → Writer (write_fixed fresh n store) (le_bytes n v)
  put_fixed n v store same p valid h =
      let width = length-le_bytes n v in
      let (q, wrote, made) =
        ensure_writable-room fresh sizes p valid n (omega (arith, h.rounds, width))
          (omega (arith, h.room, width)) in
      (
        put (le_bytes n v) q,
        rw (wrote, width) (ap (λ r. (some n, r)) (same q)),
        room-Appends p q _ n (le_bytes n v) made (
            put-Appends q made.valid (le_bytes n v)
              (omega (arith, made.same_index, made.has_room, width))),
      )

  pub write_uint1-Writer : (v : ℕ) → Writer (write_uint1 fresh v) (le_bytes 1 v)
  unfolding write_uint1 write_htole8
  write_uint1-Writer v = put_fixed 1 v _ (λ q. refl)

  pub write_uint2-Writer : (v : ℕ) → Writer (write_uint2 fresh v) (le_bytes 2 v)
  unfolding write_uint2 write_htole16
  write_uint2-Writer v = put_fixed 2 v _ (λ q. refl)

  pub write_uint4-Writer : (v : ℕ) → Writer (write_uint4 fresh v) (le_bytes 4 v)
  unfolding write_uint4 write_htole32
  write_uint4-Writer v = put_fixed 4 v _ (λ q. refl)

  pub write_uint-Writer : (v : ℕ) → Writer (write_uint fresh v) (encoded v)
  unfolding write_uint
  write_uint-Writer v p valid h =
      let width = length-encoded v in
      let (q, wrote, made) =
        ensure_writable-room fresh sizes p valid (encoded_bytes_length v)
          (omega (arith, h.rounds, width)) (omega (arith, h.room, width)) in
      (
        store_uint v q,
        rw (wrote, width) refl,
        room-Appends p q _ (encoded_bytes_length v) (encoded v) made
            (store_uint-Appends q made.valid v (omega (arith, made.same_index, made.has_room))),
      )

  -- A string without its length.
  pub write_std_string-plain : (s : List ℕ) → Writer (write_std_string fresh s false) s
  unfolding write_std_string write_string
  write_std_string-plain s p valid h =
      let index : length s % 2 ^ 32 ≡ length s = omega (arith, h.rounds) in
      let total : (0 + length s) % 2 ^ 32 ≡ length s = omega (arith, h.rounds) in
      let (q, wrote, made) = ensure_writable-room fresh sizes p valid (length s) h.rounds h.room in
      (
        put s q,
        rw (index, total, wrote, take-length s) refl,
        room-Appends p q _ (length s) s made
            (put-Appends q made.valid s (omega (arith, made.same_index, made.has_room))),
      )

  -- The two parts of a string behind its encoded length, once there is room.
  prefixed_at :
      (s : List ℕ) (p q : PacketBuf)
      → length s % 2 ^ 32 ≡ length s
      → (encoded_bytes_length (length s) + length s) % 2 ^ 32
        ≡ encoded_bytes_length (length s) + length s
      → ensure_writable fresh (encoded_bytes_length (length s) + length s) p ≡ (true, q)
      → ensure_writable fresh (encoded_bytes_length (length s)) q ≡ (true, q)
      → write_std_string fresh s true p
        ≡ (some (encoded_bytes_length (length s) + length s), put s (store_uint (length s) q))
  unfolding write_std_string write_string write_uint
  prefixed_at s p q index total wrote fast = rw (index, total, wrote, fast, take-length s) refl

  -- A string behind its encoded length.
  pub write_std_string-Writer :
      (s : List ℕ) → Writer (write_std_string fresh s true) (encoded (length s) ++ s)
  write_std_string-Writer s p valid h =
      let whole : length (encoded (length s) ++ s) ≡ encoded_bytes_length (length s) + length s =
        omega (arith, length-append (encoded (length s)) s, length-encoded (length s)) in
      let (q, wrote, made) =
        ensure_writable-room fresh sizes p valid (encoded_bytes_length (length s) + length s)
          (omega (arith, h.rounds, whole)) (omega (arith, h.room, whole)) in
      let a =
        store_uint-Appends q made.valid (length s)
          (omega (arith, made.same_index, made.has_room)) in
      let b = put-Appends (store_uint (length s) q) a.valid s (
        omega (
          arith,
          a.behind,
          a.no_smaller,
          made.same_index,
          made.has_room,
          length-encoded (length s),
        )) in
      (
        put s (store_uint (length s) q),
        prefixed_at s p q (omega (arith, h.rounds, whole)) (omega (arith, h.rounds, whole)) wrote (
              ensure_writable-fast fresh sizes q made.valid (encoded_bytes_length (length s))
                (omega (arith, made.same_index, made.has_room)))
            ∙ ap (λ n. (some n, put s (store_uint (length s) q))) (sym whole),
        room-Appends p q _ _ (encoded (length s) ++ s) made
            (Appends-trans q _ _ (encoded (length s)) s a b),
      )

  plain_at :
      (s : List ℕ) (n : ℕ) (p q : PacketBuf)
      → (0 + n) % 2 ^ 32 ≡ n
      → ensure_writable fresh n p ≡ (true, q)
      → write_string fresh s n false p ≡ (some n, put (take n s) q)
  unfolding write_string
  plain_at s n p q total wrote = rw (total, wrote) refl

  -- The first `n` bytes of memory that holds as many.
  pub write_string-Writer :
      (s : List ℕ) (n : ℕ)
      → length (take n s) ≡ n
      → Writer (write_string fresh s n false) (take n s)
  write_string-Writer s n whole p valid h =
      let (q, wrote, made) =
        ensure_writable-room fresh sizes p valid n (omega (arith, h.rounds, whole))
          (omega (arith, h.room, whole)) in
      (
        put (take n s) q,
        plain_at s n p q (omega (arith, h.rounds, whole)) wrote
            ∙ ap (λ m. (some m, put (take n s) q)) (sym whole),
        room-Appends p q _ n (take n s) made (
            put-Appends q made.valid (take n s)
              (omega (arith, made.same_index, made.has_room, whole))),
      )

  -- A C string, with its NUL.
  pub write_c_string-Writer :
      (s : List ℕ) → All NonZero s → Writer (write_c_string fresh (s ++ 0 ∷ [])) (s ++ 0 ∷ [])
  unfolding write_c_string write_std_string
  write_c_string-Writer s text = rw (c_string-append s [] text) (
      subst (λ n. Writer (write_string fresh (s ++ 0 ∷ []) (n % 2 ^ 32) false) (s ++ 0 ∷ []))
        (length-append s (0 ∷ [])) (write_std_string-plain (s ++ 0 ∷ [])))

  pub then_uint1 :
      (v : ℕ) {ws : List (PacketBuf → Written)} {cs : List ℕ}
      → Writers ws cs
      → Writers (write_uint1 fresh v ∷ ws) (le_bytes 1 v ++ cs)
  then_uint1 v h = cons (le_bytes 1 v) _ (write_uint1-Writer v) h

  pub then_uint2 :
      (v : ℕ) {ws : List (PacketBuf → Written)} {cs : List ℕ}
      → Writers ws cs
      → Writers (write_uint2 fresh v ∷ ws) (le_bytes 2 v ++ cs)
  then_uint2 v h = cons (le_bytes 2 v) _ (write_uint2-Writer v) h
