-- ===== src/Packet/Handshake.antt =====
-- binlog/mysql-protocol/handshake_packet: the scramble that a new packet gets, and the packet's bytes.
use oblogproxy.Common.{
  ℕ, zero, suc, ◌+◌, ◌/◌, ◌%◌, ◌^◌, ◌≤◌, ◌≡◌, refl, ap, List, [], ◌∷◌, ◌++◌, false, if◌then◌else◌,
  ◌||◌, ◌==◌, arith, length, length-append, replicate, take, drop, All, subst, sym,
}
use oblogproxy.Bytes.{le_bytes}
use oblogproxy.Event.Memory.{NonZero}
use oblogproxy.PacketBuf.Text.{write_string, write_c_string}
use oblogproxy.Packet.{HandshakePacket, mysql_server_version, auth_plugin_name, handshake_writes}
use oblogproxy.Packet.Writes.{
  Writer, Writers, nil, cons, then_uint1, then_uint2, write_uint4-Writer, write_string-Writer,
  write_c_string-Writer,
}

-- A random ASCII character, but not NUL or '$'.
abbrev pub scramble_char : ℕ → ℕ
scramble_char r = let c = r % 128 in if (c == 0) || (c == b'$') then c + 1 else c

-- `rand_r` is the C library's: from a seed, a number and the next seed.
module _ (rand_r : ℕ → ℕ × ℕ) where
  -- The loop, for the characters that are left.
  unfoldable pub scramble_loop : ℕ → ℕ → List ℕ
  scramble_loop zero seed = []
  scramble_loop (suc n) seed = let (r, next) = rand_r seed in scramble_char r ∷ scramble_loop n next

  -- `now` is the time of the clock, as an unsigned int.
  unfoldable pub generate_scramble : ℕ → List ℕ
  unfolding scramble_loop
  generate_scramble now = scramble_loop 20 (now % 2 ^ 32)

  -- The status is `autocommit`.
  unfoldable pub new_handshake_packet : ℕ → ℕ → ℕ → HandshakePacket
  unfolding generate_scramble
  new_handshake_packet thread_id character_set_nr now = record {
    thread_id = thread_id;
    character_set_nr = character_set_nr;
    server_status_flags = 2;
    scramble = generate_scramble now;
  }

  scramble_loop-length : (n seed : ℕ) → length (scramble_loop n seed) ≡ n
  unfolding scramble_loop
  scramble_loop-length zero seed = refl
  scramble_loop-length (suc n) seed = omega (arith, scramble_loop-length n (rand_r seed).1)

  scramble_char-NonZero : (r : ℕ) → NonZero (scramble_char r)
  scramble_char-NonZero r = ground arith

  scramble_loop-NonZero : (n seed : ℕ) → All NonZero (scramble_loop n seed)
  unfolding scramble_loop
  scramble_loop-NonZero zero seed = tt
  scramble_loop-NonZero (suc n) seed =
      (scramble_char-NonZero (rand_r seed).0, scramble_loop-NonZero n (rand_r seed).1)

  -- A scramble has twenty characters and no NUL among them.
  pub generate_scramble-text :
      (now : ℕ) → (length (generate_scramble now) ≡ 20) × All NonZero (generate_scramble now)
  unfolding generate_scramble
  generate_scramble-text now =
      (scramble_loop-length 20 (now % 2 ^ 32), scramble_loop-NonZero 20 (now % 2 ^ 32))

-- The protocol's image: the scramble in two parts, and the capabilities in two halves.
abbrev pub handshake_image : HandshakePacket → ℕ → List ℕ
handshake_image h capabilities =
    le_bytes 1 10
    ++ ((mysql_server_version ++ 0 ∷ [])
        ++ (le_bytes 4 h.thread_id
            ++ (take 8 h.scramble
                ++ (le_bytes 1 0
                    ++ (le_bytes 2 (capabilities % 2 ^ 16)
                        ++ (le_bytes 1 h.character_set_nr
                            ++ (le_bytes 2 h.server_status_flags
                                ++ (le_bytes 2 (capabilities / 2 ^ 16 % 2 ^ 16)
                                    ++ (le_bytes 1 21
                                        ++ (replicate 10 0
                                            ++ ((drop 8 h.scramble ++ 0 ∷ [])
                                                ++ ((auth_plugin_name ++ 0 ∷ []) ++ []))))))))))))

take-append : (n : ℕ) (s t : List ℕ) → n ≤ length s → take n (s ++ t) ≡ take n s
take-append zero s t h = refl
take-append (suc n) [] t h = elim h [ ]
take-append (suc n) (x ∷ s) t h = ap (λ r. x ∷ r) (take-append n s t (omega arith))

drop-append : (n : ℕ) (s t : List ℕ) → n ≤ length s → drop n (s ++ t) ≡ drop n s ++ t
drop-append zero s t h = refl
drop-append (suc n) [] t h = elim h [ ]
drop-append (suc n) (x ∷ s) t h = drop-append n s t (omega arith)

drop-NonZero : (n : ℕ) (s : List ℕ) → All NonZero s → All NonZero (drop n s)
drop-NonZero zero s h = h
drop-NonZero (suc n) [] h = tt
drop-NonZero (suc n) (x ∷ s) (_, h) = drop-NonZero n s h

length-take_some : (n : ℕ) (s : List ℕ) → n ≤ length s → length (take n s) ≡ n
length-take_some zero s h = refl
length-take_some (suc n) [] h = elim h [ ]
length-take_some (suc n) (x ∷ s) h = omega (arith, length-take_some n s (omega arith))

module _ (fresh : ℕ → List ℕ) (sizes : (n : ℕ) → length (fresh n) ≡ n) where
  first_part :
      (s : List ℕ) → length s ≡ 20 → Writer (write_string fresh (s ++ 0 ∷ []) 8 false) (take 8 s)
  first_part s size =
      subst (Writer (write_string fresh (s ++ 0 ∷ []) 8 false))
        (take-append 8 s (0 ∷ []) (omega (arith, size)))
        (write_string-Writer fresh sizes (s ++ 0 ∷ []) 8
          (length-take_some 8 (s ++ 0 ∷ []) (omega (arith, size, length-append s (0 ∷ [])))))

  second_part :
      (s : List ℕ)
      → length s ≡ 20
      → All NonZero s
      → Writer (write_c_string fresh (drop 8 (s ++ 0 ∷ []))) (drop 8 s ++ 0 ∷ [])
  second_part s size text =
      subst (λ m. Writer (write_c_string fresh m) (drop 8 s ++ 0 ∷ []))
        (sym (drop-append 8 s (0 ∷ []) (omega (arith, size))))
        (write_c_string-Writer fresh sizes (drop 8 s) (drop-NonZero 8 s text))

  pub handshake-Writers :
      (h : HandshakePacket) (capabilities : ℕ)
      → length h.scramble ≡ 20
      → All NonZero h.scramble
      → Writers (handshake_writes fresh h capabilities) (handshake_image h capabilities)
  unfolding handshake_writes
  handshake-Writers h capabilities size text = then_uint1 fresh sizes 10 (
      cons (mysql_server_version ++ 0 ∷ []) _
        (write_c_string-Writer fresh sizes mysql_server_version (ground arith))
        (cons (le_bytes 4 h.thread_id) _ (write_uint4-Writer fresh sizes h.thread_id) (
          cons (take 8 h.scramble) _ (first_part h.scramble size) (
            then_uint1 fresh sizes 0 (
              then_uint2 fresh sizes (capabilities % 2 ^ 16) (
                then_uint1 fresh sizes h.character_set_nr (
                  then_uint2 fresh sizes h.server_status_flags (
                    then_uint2 fresh sizes (capabilities / 2 ^ 16 % 2 ^ 16) (
                      then_uint1 fresh sizes 21 (
                        cons (replicate 10 0) _
                          (write_string-Writer fresh sizes (replicate 10 0) 10 refl)
                          (cons (drop 8 h.scramble ++ 0 ∷ []) _ (second_part h.scramble size text) (
                            cons (auth_plugin_name ++ 0 ∷ []) []
                              (write_c_string-Writer fresh sizes auth_plugin_name (ground arith))
                              nil))))))))))))
