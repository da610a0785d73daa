-- ===== src/Tests/Packets.antt =====
-- PacketBuf at concrete inputs: a buffer of four bytes that may grow to a hundred, two bytes written
-- and one of them read; an OK packet with 300 affected rows and a text is sent into it.
use oblogproxy.Common.{
  ℕ, ◌+◌, ◌≤◌, ◌≡◌, refl, List, [], ◌∷◌, ◌++◌, none, some, true, replicate, length, arith,
  length-replicate,
}
use oblogproxy.Bytes.{le_bytes}
use oblogproxy.Packet.{DataPacket, ok_packet, serialize}
use oblogproxy.Packet.Image.{image}
use oblogproxy.Packet.Sends.{serialize-Appends}
use oblogproxy.PacketBuf.State.{PacketBuf, ErrorMsg, ensure_writable}
use oblogproxy.PacketBuf.ByteOrder.{encoded_bytes_length}
use oblogproxy.PacketBuf.Contents.{IsValid, contents, Appends}
use oblogproxy.PacketBuf.Room.{MakesRoom, ensure_writable-room}
use oblogproxy.PacketBuf.Integer.{write_uint}
use oblogproxy.PacketBuf.Integer.Encoded.{encoded}
use oblogproxy.PacketBuf.Integer.Writes.{write_uint-encoded}
use oblogproxy.PacketBuf.Integer.Reads.{Reads, read_uint-encoded}
use oblogproxy.PacketBuf.Text.{write_std_string, read_length_encoded_string}
use oblogproxy.PacketBuf.Text.RoundTrip.{
  write_std_string-prefixed, read_length_encoded_string-backs_off,
}

abbrev fresh : ℕ → List ℕ
fresh n = replicate n 170

fresh_sized : (n : ℕ) → length (fresh n) ≡ n
fresh_sized n = length-replicate {A = ℕ} n 170

abbrev small : PacketBuf
small = record {
  buf = 7 ∷ 8 ∷ 170 ∷ 170 ∷ [];
  capacity = 4;
  min_capacity = 4;
  max_capacity = 100;
  read_index = 1;
  write_index = 2;
  error_msg = ErrorMsg.no_error;
}

small-IsValid : IsValid small
small-IsValid = record {
  sized = refl;
  ordered = omega arith;
  within = omega arith;
  at_least = omega arith;
  at_most = omega arith;
  max_fits = omega arith;
}

ensure_writable-room_example :
    (q : PacketBuf) × (ensure_writable fresh 9 small ≡ (true, q)) × MakesRoom small 9 q
ensure_writable-room_example =
    ensure_writable-room fresh fresh_sized small small-IsValid 9 (omega arith) (omega arith)

write_uint-encoded_example :
    (q : PacketBuf) × (write_uint fresh 70000 small ≡ (some (length (encoded 70000)), q))
    × IsValid q
    × (contents q ≡ contents small ++ encoded 70000)
unfolding encoded_bytes_length
write_uint-encoded_example =
    write_uint-encoded fresh 70000 small fresh_sized small-IsValid (omega arith) (omega arith)

abbrev text : List ℕ
text = 97 ∷ 98 ∷ 99 ∷ []

write_std_string-prefixed_example :
    (q : PacketBuf) × (write_std_string fresh text true small
      ≡ (some (encoded_bytes_length 3 + 3), q))
    × IsValid q
    × (contents q ≡ contents small ++ (encoded 3 ++ text))
unfolding encoded_bytes_length
write_std_string-prefixed_example =
    write_std_string-prefixed fresh text small fresh_sized small-IsValid (omega arith) (omega arith)

-- 70000, and one byte more.
abbrev numbered : PacketBuf
numbered = record {
  buf = 253 ∷ 112 ∷ 17 ∷ 1 ∷ 9 ∷ [];
  capacity = 5;
  min_capacity = 5;
  max_capacity = 5;
  read_index = 0;
  write_index = 5;
  error_msg = ErrorMsg.no_error;
}

numbered-IsValid : IsValid numbered
numbered-IsValid = record {
  sized = refl;
  ordered = omega arith;
  within = omega arith;
  at_least = omega arith;
  at_most = omega arith;
  max_fits = omega arith;
}

read_uint-encoded_example : Reads numbered (length (encoded 70000)) 70000 (9 ∷ [])
unfolding encoded le_bytes
read_uint-encoded_example =
    read_uint-encoded 70000 numbered (9 ∷ []) numbered-IsValid (omega arith) refl

-- A length of three before the bytes `abc` and one more, and before `a` alone.
abbrev lettered : ℕ → PacketBuf
lettered end = record {
  buf = 3 ∷ 97 ∷ 98 ∷ 99 ∷ 9 ∷ [];
  capacity = 5;
  min_capacity = 5;
  max_capacity = 5;
  read_index = 0;
  write_index = end;
  error_msg = ErrorMsg.no_error;
}

lettered-IsValid : (end : ℕ) → end ≤ 5 → IsValid (lettered end)
lettered-IsValid end h = record {
  sized = refl;
  ordered = omega arith;
  within = h;
  at_least = omega arith;
  at_most = omega arith;
  max_fits = omega arith;
}

read_length_encoded_string-backs_off_example :
    read_length_encoded_string (lettered 2)
    ≡ (none, record (lettered 2) { error_msg = ErrorMsg.only_readable 3 1 })
unfolding encoded le_bytes
read_length_encoded_string-backs_off_example =
    read_length_encoded_string-backs_off 3 (97 ∷ []) (lettered 2) (lettered-IsValid 2 (omega arith))
      (omega arith) refl (omega arith)

abbrev changed_rows : DataPacket
changed_rows = ok_packet (record {
  affected_rows = 300;
  last_insert_id = 0;
  status_flags = 2;
  warnings = 1;
  info = 97 ∷ 98 ∷ 99 ∷ [];
})

serialize-Appends_example :
    (q : PacketBuf) × (serialize fresh changed_rows 512 small
      ≡ some (length (image changed_rows 512), q))
    × Appends small (image changed_rows 512) q
unfolding le_bytes encoded encoded_bytes_length
serialize-Appends_example =
    serialize-Appends fresh fresh_sized changed_rows 512 small small-IsValid
      (record { rounds = omega arith; room = omega arith }) refl
