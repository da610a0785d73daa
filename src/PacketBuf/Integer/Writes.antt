-- ===== src/PacketBuf/Integer/Writes.antt =====
-- What a write of a length-encoded integer adds to the contents.
use oblogproxy.Common.{
  ℕ, ◌+◌, ◌/◌, ◌^◌, ◌≤◌, ◌≡◌, ◌∙◌, refl, ap, List, ◌++◌, some, ltb, arith, length, append_assoc,
  length-append, inl, inr, Bool-cases, subst,
}
use oblogproxy.Bytes.{le_bytes}
use oblogproxy.Bytes.RoundTrip.{length-le_bytes}
use oblogproxy.PacketBuf.State.{PacketBuf, put, io_size}
use oblogproxy.PacketBuf.ByteOrder.{
  encoded_bytes_length, write_htole8, write_htole16, write_htole24, write_htole64,
}
use oblogproxy.PacketBuf.Contents.{IsValid, contents, Appends, put-Appends}
use oblogproxy.PacketBuf.Room.{ensure_writable-room}
use oblogproxy.PacketBuf.Integer.{store_uint, write_uint}
use oblogproxy.PacketBuf.Integer.Encoded.{encoded, length-encoded, le_bytes_three}

-- Two writes in a row.
pub Appends-trans :
    (p q r : PacketBuf) (bs cs : List ℕ) → Appends p bs q → Appends q cs r → Appends p (bs ++ cs) r
Appends-trans p q r bs cs a b = record {
  valid = b.valid;
  appended = b.appended ∙ ap (λ l. l ++ cs) a.appended ∙ append_assoc (contents p) bs cs;
  behind = omega (arith, a.behind, b.behind, length-append bs cs);
  same_max = b.same_max ∙ a.same_max;
  no_smaller = omega (arith, a.no_smaller, b.no_smaller);
}

module _ (p : PacketBuf) (valid : IsValid p) where
  put_le-Appends :
      (n v : ℕ) → p.write_index + n ≤ p.capacity → Appends p (le_bytes n v) (put (le_bytes n v) p)
  put_le-Appends n v room =
      put-Appends p valid (le_bytes n v) (omega (arith, room, length-le_bytes n v))

  -- A tag before a number of some width.
  tagged-Appends :
      (tag n v : ℕ)
      → p.write_index + (1 + n) ≤ p.capacity
      → Appends p (le_bytes 1 tag ++ le_bytes n v) (put (le_bytes n v) (put (le_bytes 1 tag) p))
  tagged-Appends tag n v room = Appends-trans p _ _ (le_bytes 1 tag) (le_bytes n v) first (
      put-Appends _ first.valid (le_bytes n v) (
        omega (
          arith,
          room,
          first.behind,
          first.no_smaller,
          length-le_bytes n v,
          length-le_bytes 1 tag,
        )))
    where
      first : Appends p (le_bytes 1 tag) (put (le_bytes 1 tag) p)
      first = put_le-Appends 1 tag (omega (arith, room))

  -- The three bytes are written as two and one.
  tagged3-Appends :
      (tag v : ℕ)
      → p.write_index + 4 ≤ p.capacity
      → Appends p
          (le_bytes 1 tag ++ le_bytes 3 v)
          (put (le_bytes 1 (v / 2 ^ 16)) (put (le_bytes 2 v) (put (le_bytes 1 tag) p)))
  tagged3-Appends tag v room =
      subst
        (λ bs.
          Appends p (le_bytes 1 tag ++ bs)
            (put (le_bytes 1 (v / 2 ^ 16)) (put (le_bytes 2 v) (put (le_bytes 1 tag) p))))
        (le_bytes_three v)
        (subst
          (λ bs.
            Appends p bs
              (put (le_bytes 1 (v / 2 ^ 16)) (put (le_bytes 2 v) (put (le_bytes 1 tag) p))))
          (append_assoc (le_bytes 1 tag) (le_bytes 2 v) (le_bytes 1 (v / 2 ^ 16)))
          (Appends-trans p _ _ (le_bytes 1 tag ++ le_bytes 2 v) (le_bytes 1 (v / 2 ^ 16)) front (
            put-Appends _ front.valid (le_bytes 1 (v / 2 ^ 16)) (
              omega (
                arith,
                room,
                front.behind,
                front.no_smaller,
                length-le_bytes 1 tag,
                length-le_bytes 2 v,
                length-le_bytes 1 (v / 2 ^ 16),
                length-append (le_bytes 1 tag) (le_bytes 2 v),
              )))))
    where
      front :
          Appends p (le_bytes 1 tag ++ le_bytes 2 v) (put (le_bytes 2 v) (put (le_bytes 1 tag) p))
      front = tagged-Appends tag 2 v (omega (arith, room))

  pub store_uint-Appends :
      (v : ℕ)
      → p.write_index + encoded_bytes_length v ≤ p.capacity
      → Appends p (encoded v) (store_uint v p)
  unfolding store_uint encoded_bytes_length encoded le_bytes write_htole8 write_htole16
      write_htole24 write_htole64
  store_uint-Appends v room = elim (Bool-cases (ltb v 251)) [
    | inl one ↦ rw one (put_le-Appends 1 v (room_of 1 (rw one refl)))
    | inr over1 ↦ elim (Bool-cases (ltb v 65536)) [
      | inl two ↦ rw (over1, two) (tagged-Appends 252 2 v (room_of 3 (rw (over1, two) refl)))
      | inr over2 ↦ elim (Bool-cases (ltb v 16777216)) [
        | inl three ↦
            rw (over1, over2, three)
              (tagged3-Appends 253 v (room_of 4 (rw (over1, over2, three) refl)))
        | inr more ↦
            rw (over1, over2, more)
              (tagged-Appends 254 8 v (room_of 9 (rw (over1, over2, more) refl)))
      ]
    ]
  ]
    where
      room_of : (n : ℕ) → encoded_bytes_length v ≡ n → p.write_index + n ≤ p.capacity
      room_of n h = subst (λ k. p.write_index + k ≤ p.capacity) h room

-- In a valid buffer with room for the bytes below the maximum, and for 4096 more below 2 ^ 32,
-- `write_uint` adds the encoding of a number to the contents and gives its length, and the buffer
-- stays valid.
pub write_uint-encoded :
    (fresh : ℕ → List ℕ) (v : ℕ) (p : PacketBuf)
    → ((n : ℕ) → length (fresh n) ≡ n)
    → IsValid p
    → p.write_index + encoded_bytes_length v + io_size ≤ 2 ^ 32
    → p.write_index + encoded_bytes_length v ≤ p.max_capacity
    → (q : PacketBuf) × (write_uint fresh v p ≡ (some (length (encoded v)), q))
      × IsValid q
      × (contents q ≡ contents p ++ encoded v)
unfolding write_uint
write_uint-encoded fresh v p sizes valid rounds room =
    let (q, wrote, made) =
      ensure_writable-room fresh sizes p valid (encoded_bytes_length v) rounds room in
    let a = store_uint-Appends q made.valid v (omega (arith, made.same_index, made.has_room)) in
    (
      store_uint v q,
      rw (wrote, length-encoded v) refl,
      a.valid,
      a.appended ∙ ap (λ bs. bs ++ encoded v) made.kept,
    )
