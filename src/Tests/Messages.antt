-- ===== src/Tests/Messages.antt =====
-- Messages in chunks at concrete inputs.
use oblogproxy.Common.{◌≤◌, ◌≡◌, refl, [], ◌∷◌, ◌++◌, true, some, take, arith, length}
use oblogproxy.MsgBuf.{MsgBuf, MsgBufReader, bytes, byte_size, new_reader, read, backward, next}
use oblogproxy.MsgBuf.Contents.{rest, all_bytes, IsValid, new_reader-IsValid}
use oblogproxy.MsgBuf.Queue.{Takes, read-takes}
use oblogproxy.MsgBuf.Back.{backward-read}
use oblogproxy.MsgBuf.Next.{Nexts, next-Nexts}
use oblogproxy.MsgBuf.Mysql.{Leaves, read_lenenc_str, read_lenenc_str-prefixed}
use oblogproxy.Lenenc.{packet_store_length}

-- Two chunks with an empty one between them.
abbrev message : MsgBuf
message = (1 ∷ 2 ∷ []) ∷ [] ∷ (3 ∷ 4 ∷ 5 ∷ []) ∷ []

abbrev reader : MsgBufReader
reader = new_reader message

reader-IsValid : IsValid reader
reader-IsValid = new_reader-IsValid message (unfold bytes in omega arith)

enough : 3 ≤ length (rest reader.at)
unfolding new_reader bytes
enough = omega arith

read-takes_example :
    (s : MsgBufReader) × (read 3 reader ≡ (true, take 3 (rest reader.at), s)) × Takes reader s 3
read-takes_example = read-takes reader reader-IsValid 3 enough

backward-read_example :
    (s t : MsgBufReader) × (read 3 reader ≡ (true, take 3 (rest reader.at), s))
    × (backward 3 s ≡ some (true, t))
    × IsValid t
    × (rest t.at ≡ rest reader.at)
    × (t.read_size ≡ reader.read_size)
backward-read_example = backward-read reader 3 reader-IsValid enough

next-Nexts_example :
    Nexts (rest reader.at) (next reader).0 (rest (next reader).1.at)
    × IsValid (next reader).1
    × (all_bytes (next reader).1.at ≡ all_bytes reader.at)
next-Nexts_example = next-Nexts reader reader-IsValid (unfold new_reader byte_size in omega arith)

-- A string of three bytes whose length stands in another chunk, and one more byte.
abbrev prefixed : MsgBuf
prefixed = (3 ∷ []) ∷ (b'a' ∷ b'b' ∷ []) ∷ (b'c' ∷ 7 ∷ []) ∷ []

in_front :
    rest (new_reader prefixed).at ≡ packet_store_length 3 ++ ((b'a' ∷ b'b' ∷ b'c' ∷ []) ++ 7 ∷ [])
unfolding new_reader bytes packet_store_length
in_front = refl

read_lenenc_str-prefixed_example :
    (s : MsgBufReader) × (read_lenenc_str (new_reader prefixed) ≡ (b'a' ∷ b'b' ∷ b'c' ∷ [], s))
    × Leaves s (7 ∷ [])
read_lenenc_str-prefixed_example =
    read_lenenc_str-prefixed (new_reader prefixed) (b'a' ∷ b'b' ∷ b'c' ∷ []) (7 ∷ [])
      (new_reader-IsValid prefixed (unfold bytes in omega arith)) in_front
