-- ===== src/Packet/Sequences.antt =====
-- The writes of each packet write its bytes, one part after another.
use oblogproxy.Common.{
  ℕ, ◌%◌, ◌^◌, ◌≡◌, sym, List, [], ◌∷◌, ◌++◌, append_assoc, Bool, true, false, if◌then◌else◌, ltb,
  arith, length, subst,
}
use oblogproxy.Bytes.{le_bytes}
use oblogproxy.PacketBuf.State.{PacketBuf}
use oblogproxy.PacketBuf.Integer.{Written}
use oblogproxy.PacketBuf.Integer.Encoded.{encoded}
use oblogproxy.PacketBuf.Text.{write_string, write_std_string}
use oblogproxy.Packet.{
  has_bit, client_protocol_41, client_transactions, OkPacket, ErrPacket, EofPacket, ColumnPacket,
  ok_writes, err_writes, eof_writes, column_writes,
}
use oblogproxy.Packet.Writes.{
  Writer, Writers, nil, cons, write_uint1-Writer, write_uint2-Writer, write_uint4-Writer,
  write_uint-Writer, write_std_string-plain, write_std_string-Writer,
}
use oblogproxy.Packet.Writes.{then_uint1, then_uint2}
use oblogproxy.Packet.Image.{lenenc_string, ok_image, err_image, eof_image, column_image}

Writers-append :
    {ws vs : List (PacketBuf → Written)} {cs : List ℕ} (bs : List ℕ)
    → Writers ws bs
    → Writers vs cs
    → Writers (ws ++ vs) (bs ++ cs)
Writers-append _ nil h = h
Writers-append {vs = vs} {cs = cs} _ (cons {w} {ws} bs ds writer rest) h =
    subst (Writers ((w ∷ ws) ++ vs)) (sym (append_assoc bs ds cs))
      (cons bs (ds ++ cs) writer (Writers-append ds rest h))

Writers-if :
    {ws vs : List (PacketBuf → Written)} {bs cs : List ℕ} (b : Bool)
    → Writers ws bs
    → Writers vs cs
    → Writers (if b then ws else vs) (if b then bs else cs)
Writers-if true h k = h
Writers-if false h k = k

module _ (fresh : ℕ → List ℕ) (sizes : (n : ℕ) → length (fresh n) ≡ n) where
  pub ok-Writers :
      (k : OkPacket) (capabilities : ℕ)
      → Writers (ok_writes fresh k capabilities) (ok_image k capabilities)
  unfolding ok_writes
  ok-Writers k capabilities = cons (le_bytes 1 0) _ (write_uint1-Writer fresh sizes 0) (
      cons (encoded k.affected_rows) _ (write_uint-Writer fresh sizes k.affected_rows) (
        cons (encoded k.last_insert_id) _ (write_uint-Writer fresh sizes k.last_insert_id) (
          Writers-append _
            (Writers-if (has_bit capabilities client_protocol_41)
              (cons (le_bytes 2 k.status_flags) _ (write_uint2-Writer fresh sizes k.status_flags)
                (cons (le_bytes 2 k.warnings) [] (write_uint2-Writer fresh sizes k.warnings) nil))
              (Writers-if (has_bit capabilities client_transactions)
                (cons (le_bytes 2 k.status_flags) [] (write_uint2-Writer fresh sizes k.status_flags)
                  nil)
                nil))
            (Writers-if (ltb 0 (length k.info))
              (cons (lenenc_string k.info) [] (write_std_string-Writer fresh sizes k.info) nil)
              nil))))

  state-Writer : (s : List ℕ) → length s ≡ 5 → Writer (write_string fresh s 5 false) s
  unfolding write_std_string
  state-Writer s h =
      let same : length s % 2 ^ 32 ≡ 5 = omega (arith, h) in
      subst (λ n. Writer (write_string fresh s n false) s) same
        (write_std_string-plain fresh sizes s)

  pub err-Writers :
      (e : ErrPacket) (capabilities : ℕ)
      → length e.sql_state ≡ 5
      → Writers (err_writes fresh e capabilities) (err_image e capabilities)
  unfolding err_writes
  err-Writers e capabilities h = cons (le_bytes 1 0xff) _ (write_uint1-Writer fresh sizes 0xff) (
      cons (le_bytes 2 e.err_code) _ (write_uint2-Writer fresh sizes e.err_code) (
        Writers-append _
          (Writers-if (has_bit capabilities client_protocol_41)
            (cons (le_bytes 1 b'#') _ (write_uint1-Writer fresh sizes b'#')
              (cons e.sql_state [] (state-Writer e.sql_state h) nil))
            nil)
          (cons e.err_msg [] (write_std_string-plain fresh sizes e.err_msg) nil)))

  pub eof-Writers :
      (e : EofPacket) (capabilities : ℕ)
      → Writers (eof_writes fresh e capabilities) (eof_image e capabilities)
  unfolding eof_writes
  eof-Writers e capabilities = cons (le_bytes 1 0xfe) _ (write_uint1-Writer fresh sizes 0xfe) (
      Writers-if (has_bit capabilities client_protocol_41)
        (cons (le_bytes 2 e.eof_warnings) _ (write_uint2-Writer fresh sizes e.eof_warnings) (
          cons (le_bytes 2 e.eof_status_flags) []
            (write_uint2-Writer fresh sizes e.eof_status_flags) nil))
        nil)

  pub column-Writers : (c : ColumnPacket) → Writers (column_writes fresh c) (column_image c)
  unfolding column_writes
  column-Writers c = text (b'd' ∷ b'e' ∷ b'f' ∷ []) (
      text c.schema (
        text c.table (
          text c.origin_table (
            text c.name (
              text c.origin_name (
                cons (encoded 12) _ (write_uint-Writer fresh sizes 12) (
                  then_uint2 fresh sizes c.character_set (
                    cons (le_bytes 4 c.column_length) _
                      (write_uint4-Writer fresh sizes c.column_length)
                      (then_uint1 fresh sizes c.column_type (
                        then_uint2 fresh sizes c.flags (
                          then_uint1 fresh sizes c.decimals
                            (then_uint2 fresh sizes 0 nil))))))))))))
    where
      text :
          (s : List ℕ) {ws : List (PacketBuf → Written)} {cs : List ℕ}
          → Writers ws cs
          → Writers (write_std_string fresh s true ∷ ws) (lenenc_string s ++ cs)
      text s h = cons (lenenc_string s) _ (write_std_string-Writer fresh sizes s) h
