-- ===== src/Packet/Sends.antt =====
-- `serialize` adds the bytes of a packet to the contents of a PacketBuf.
use oblogproxy.Common.{
  ℕ, ◌+◌, ◌^◌, ◌≤◌, ◌≡◌, refl, sym, ap, List, [], ◌++◌, append-nil, Bool, true, false,
  if◌then◌else◌, le→leb, ◌==◌, some, arith, length, length-append, subst,
}
use oblogproxy.Bytes.{le_bytes}
use oblogproxy.PacketBuf.State.{PacketBuf, fast_writable_bytes, is_fast_writable_for}
use oblogproxy.PacketBuf.Contents.{IsValid, Appends}
use oblogproxy.PacketBuf.Integer.{Written}
use oblogproxy.Packet.{
  has_bit, client_protocol_41, DataPacket, ok_packet, err_packet, eof_packet, column_packet,
  column_count_packet, serialize, run_writes, serialize_ok, serialize_column,
  serialize_column_count, asserted, serialize_err, serialize_eof,
}
use oblogproxy.Packet.{handshake_packet}
use oblogproxy.Packet.Handshake.{handshake_image, handshake-Writers}
use oblogproxy.Packet.Writes.{HasRoom, Writers, run_writes-whole, write_uint-Writer}
use oblogproxy.Packet.Image.{ok_image, err_image, eof_image, column_image, image, IsSendable}
use oblogproxy.Packet.Sequences.{ok-Writers, err-Writers, eof-Writers, column-Writers}

==-refl : (n : ℕ) → (n == n) ≡ true
==-refl n = ground arith

fits_fast :
    (p : PacketBuf) (n : ℕ)
    → IsValid p
    → p.write_index + n ≤ p.capacity
    → is_fast_writable_for n p ≡ true
unfolding is_fast_writable_for fast_writable_bytes
fits_fast p n valid fast =
    le→leb _ _ (omega (arith, fast, valid.within, valid.at_most, valid.max_fits))

err_size :
    (s m : List ℕ) (code : ℕ) (b : Bool)
    → length s ≡ 5
    → 3 + (if b then 6 else 0) + length m
      ≡ length (
          le_bytes 1 0xff
          ++ (le_bytes 2 code ++ ((if b then le_bytes 1 b'#' ++ (s ++ []) else []) ++ (m ++ []))))
unfolding le_bytes
err_size s m code true state =
    rw (append-nil m, append-nil s) (omega (arith, state, length-append s m))
err_size s m code false state = rw (append-nil m) (omega arith)

eof_size :
    (warnings status : ℕ) (b : Bool)
    → 1 + (if b then 4 else 0)
      ≡ length
          (le_bytes 1 0xfe ++ (if b then le_bytes 2 warnings ++ (le_bytes 2 status ++ []) else []))
unfolding le_bytes
eof_size warnings status true = refl
eof_size warnings status false = refl

module _ (fresh : ℕ → List ℕ) (sizes : (n : ℕ) → length (fresh n) ≡ n) where
  -- The two asserts, once the writes have run.
  asserted_at :
      (ws : List (PacketBuf → Written)) (sz : ℕ) (p q : PacketBuf)
      → is_fast_writable_for sz p ≡ true
      → (sz == sz) ≡ true
      → run_writes (2 ^ 32) ws (0, p) ≡ (sz, q)
      → asserted fresh sz ws p ≡ some (sz, q)
  asserted_at ws sz p q fast same ran = rw (fast, ran, same) refl

  -- Writes behind an assert that there is room at once.
  asserted-Appends :
      (ws : List (PacketBuf → Written)) (bs : List ℕ) (sz : ℕ) (p : PacketBuf)
      → Writers ws bs
      → sz ≡ length bs
      → IsValid p
      → HasRoom p (length bs)
      → p.write_index + length bs ≤ p.capacity
      → (q : PacketBuf) × (asserted fresh sz ws p ≡ some (length bs, q)) × Appends p bs q
  asserted-Appends ws bs sz p writers size valid h fast =
      let (q, ran, a) = run_writes-whole (2 ^ 32) bs p writers valid h (omega arith) in
      (
        q,
        subst (λ n. asserted fresh n ws p ≡ some (length bs, q)) (sym size)
            (asserted_at ws (length bs) p q (fits_fast p (length bs) valid fast)
              (==-refl (length bs)) ran),
        a,
      )

  -- In a valid buffer that has room for the bytes below its maximum, and for 4096 more below 2 ^ 32,
  -- where the asserts of `serialize` hold beforehand and a scramble has twenty characters and no
  -- NUL, every packet is added to the contents whole, as the bytes that its layout lists, and
  -- `serialize` gives their number.
  pub serialize-Appends :
      (k : DataPacket) (capabilities : ℕ) (p : PacketBuf)
      → IsValid p
      → HasRoom p (length (image k capabilities))
      → IsSendable k capabilities p
      → (q : PacketBuf) × (serialize fresh k capabilities p
          ≡ some (length (image k capabilities), q))
        × Appends p (image k capabilities) q
  unfolding serialize serialize_ok serialize_err serialize_eof serialize_column
      serialize_column_count
  serialize-Appends (ok_packet k) capabilities p valid h plain =
      let (q, ran, a) =
        run_writes-whole (2 ^ 32) (ok_image k capabilities) p
          (ok-Writers fresh sizes k capabilities) valid h (omega arith) in
      (q, rw (plain, ran) refl, a)
  serialize-Appends (err_packet e) capabilities p valid h (state, fast) =
      asserted-Appends _ (err_image e capabilities) _ p
        (err-Writers fresh sizes e capabilities state)
        (err_size e.sql_state e.err_msg e.err_code (has_bit capabilities client_protocol_41) state)
        valid h fast
  serialize-Appends (eof_packet e) capabilities p valid h fast =
      asserted-Appends _ (eof_image e capabilities) _ p (eof-Writers fresh sizes e capabilities)
        (eof_size e.eof_warnings e.eof_status_flags (has_bit capabilities client_protocol_41)) valid
        h fast
  serialize-Appends (column_packet c) capabilities p valid h sendable =
      let (q, ran, a) =
        run_writes-whole (2 ^ 64) (column_image c) p (column-Writers fresh sizes c) valid h
          (omega arith) in
      (q, ap some ran, a)
  serialize-Appends (column_count_packet n) capabilities p valid h sendable =
      let (q, wrote, a) = write_uint-Writer fresh sizes n p valid h in (q, rw wrote refl, a)
  serialize-Appends (handshake_packet k) capabilities p valid h (size, text) =
      let (q, ran, a) =
        run_writes-whole (2 ^ 64) (handshake_image k capabilities) p
          (handshake-Writers fresh sizes k capabilities size text) valid h (omega arith) in
      (q, ap some ran, a)
