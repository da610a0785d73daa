-- ===== src/Packet/Image.antt =====
-- The layout of each packet as a list of bytes, apart from the writes, and when it can be sent.
use oblogproxy.Common.{
  ℕ, ◌+◌, ◌≤◌, ◌≡◌, List, [], ◌∷◌, ◌++◌, false, ◌&&◌, if◌then◌else◌, ltb, length,
}
use oblogproxy.Bytes.{le_bytes}
use oblogproxy.PacketBuf.State.{PacketBuf}
use oblogproxy.PacketBuf.Integer.Encoded.{encoded}
use oblogproxy.Packet.{
  has_bit, client_protocol_41, client_transactions, client_session_track, session_state_changed,
  OkPacket, ErrPacket, EofPacket, ColumnPacket, DataPacket, ok_packet, err_packet, eof_packet,
  column_packet, column_count_packet,
}
use oblogproxy.Common.{All}
use oblogproxy.Event.Memory.{NonZero}
use oblogproxy.Packet.{handshake_packet}
use oblogproxy.Packet.Handshake.{handshake_image}

-- A string with its length in front.
abbrev pub lenenc_string : List ℕ → List ℕ
lenenc_string s = encoded (length s) ++ s

abbrev pub ok_image : OkPacket → ℕ → List ℕ
ok_image k capabilities =
    le_bytes 1 0
    ++ (encoded k.affected_rows
        ++ (encoded k.last_insert_id
            ++ ((if has_bit capabilities client_protocol_41
                  then le_bytes 2 k.status_flags ++ (le_bytes 2 k.warnings ++ [])
                  else if has_bit capabilities client_transactions
                  then le_bytes 2 k.status_flags ++ []
                  else [])
                ++ (if ltb 0 (length k.info) then lenenc_string k.info ++ [] else []))))

abbrev pub err_image : ErrPacket → ℕ → List ℕ
err_image e capabilities =
    le_bytes 1 0xff
    ++ (le_bytes 2 e.err_code
        ++ ((if has_bit capabilities client_protocol_41
              then le_bytes 1 b'#' ++ (e.sql_state ++ [])
              else [])
            ++ (e.err_msg ++ [])))

abbrev pub eof_image : EofPacket → ℕ → List ℕ
eof_image e capabilities =
    le_bytes 1 0xfe
    ++ (if has_bit capabilities client_protocol_41
        then le_bytes 2 e.eof_warnings ++ (le_bytes 2 e.eof_status_flags ++ [])
        else [])

abbrev pub column_image : ColumnPacket → List ℕ
column_image c =
    lenenc_string (b'd' ∷ b'e' ∷ b'f' ∷ [])
    ++ (lenenc_string c.schema
        ++ (lenenc_string c.table
            ++ (lenenc_string c.origin_table
                ++ (lenenc_string c.name
                    ++ (lenenc_string c.origin_name
                        ++ (encoded 12
                            ++ (le_bytes 2 c.character_set
                                ++ (le_bytes 4 c.column_length
                                    ++ (le_bytes 1 c.column_type
                                        ++ (le_bytes 2 c.flags
                                            ++ (le_bytes 1 c.decimals
                                                ++ (le_bytes 2 0 ++ []))))))))))))

abbrev pub image : DataPacket → ℕ → List ℕ
image (ok_packet k) capabilities = ok_image k capabilities
image (err_packet e) capabilities = err_image e capabilities
image (eof_packet e) capabilities = eof_image e capabilities
image (column_packet c) capabilities = column_image c
image (column_count_packet n) capabilities = encoded n
image (handshake_packet h) capabilities = handshake_image h capabilities

-- What the asserts ask for: no session state, five characters of SQL state, and for the packets of
-- an error and of an end room at once. The scramble of a handshake is twenty characters without a
-- NUL.
abbrev pub IsSendable : DataPacket → ℕ → PacketBuf → Type 0
IsSendable (ok_packet k) capabilities p =
    (has_bit capabilities client_session_track && has_bit k.status_flags session_state_changed)
    ≡ false
IsSendable (err_packet e) capabilities p =
    (length e.sql_state ≡ 5) × (p.write_index + length (err_image e capabilities) ≤ p.capacity)
IsSendable (eof_packet e) capabilities p =
    p.write_index + length (eof_image e capabilities) ≤ p.capacity
IsSendable (handshake_packet h) capabilities p = (length h.scramble ≡ 20) × All NonZero h.scramble
IsSendable _ capabilities p = Unit {0}
