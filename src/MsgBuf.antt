-- ===== src/MsgBuf.antt =====
-- common/msg_buf.{h,cpp}: a message as a queue of chunks, and the reader that walks over them. A
-- chunk is its bytes; which object frees them is left out.
pub mod Contents
pub mod Reads
pub mod Queue
pub mod Back
pub mod Next
pub mod Mysql
use oblogproxy.Common.{
  ℕ, ◌+◌, ◌-◌, ◌*◌, ◌/◌, ◌%◌, ◌^◌, List, [], ◌∷◌, ◌++◌, Bool, true, false, if◌then◌else◌, ltb, leb,
  ◌==◌, ◌&&◌, Option, none, some, length, take, drop,
}
use oblogproxy.Bytes.{le_value}

abbrev pub Chunk : Type 0
Chunk = List ℕ

abbrev pub MsgBuf : Type 0
MsgBuf = List Chunk

abbrev pub add64 : ℕ → ℕ → ℕ
add64 a b = (a + b) % 2 ^ 64

abbrev pub sub64 : ℕ → ℕ → ℕ
sub64 a b = (a + 2 ^ 64 - b) % 2 ^ 64

unfoldable pub push_back : Chunk → MsgBuf → MsgBuf
push_back c m = m ++ c ∷ []

unfoldable pub push_front : Chunk → MsgBuf → MsgBuf
push_front c m = c ∷ m

unfoldable pub byte_size_from : ℕ → MsgBuf → ℕ
byte_size_from result [] = result
byte_size_from result (c ∷ cs) = byte_size_from (add64 result (length c)) cs

unfoldable pub byte_size : MsgBuf → ℕ
unfolding byte_size_from
byte_size m = byte_size_from 0 m

-- The bytes that are written to the target.
unfoldable pub bytes : MsgBuf → List ℕ
bytes [] = []
bytes (c ∷ cs) = c ++ bytes cs

-- An iterator and a position in its chunk: the chunks in front of the iterator, the nearest one
-- first, and those from it on.
pub record Position : Type 0 where
  pub behind : List Chunk
  pub ahead : List Chunk
  pub pos : ℕ

pub record MsgBufReader : Type 0 where
  pub at : Position
  pub total_size : ℕ
  pub read_size : ℕ

unfoldable pub new_reader : MsgBuf → MsgBufReader
unfolding byte_size
new_reader buffer = record {
  at = record { behind = []; ahead = buffer; pos = 0 };
  total_size = byte_size buffer;
  read_size = 0;
}

-- What `memcpy` writes, unless the bytes are skipped.
abbrev pub copied : Bool → List ℕ → List ℕ
copied skip bs = if skip then [] else bs

-- The loop of `read`, with what it has written so far; `none` if the chunks end too early.
unfoldable pub read_loop :
    Bool → ℕ → ℕ → List Chunk → List Chunk → ℕ → List ℕ → Option Position × List ℕ
read_loop skip size read_size behind [] pos out = (none, out)
read_loop skip size read_size behind (c ∷ cs) pos out =
    let chunk_size = sub64 (length c) pos in
    let on =
      read_loop skip size (add64 read_size chunk_size) (c ∷ behind) cs 0
        (out ++ copied skip (take chunk_size (drop pos c))) in
    if ltb read_size size
    then if leb size (add64 read_size chunk_size)
      then (
        some (record { behind = behind; ahead = c ∷ cs; pos = add64 pos (size - read_size) }),
        out ++ copied skip (take (size - read_size) (drop pos c)),
      )
      else on
    else (none, out)

-- Is it a success, what is written to the target, and the reader.
abbrev pub Outcome : Type 0
Outcome = Bool × List ℕ × MsgBufReader

abbrev pub moved : ℕ → MsgBufReader → Option Position × List ℕ → Outcome
moved size r (none, out) = (false, out, r)
moved size r (some p, out) = (true, out, record r { at = p; read_size = add64 r.read_size size })

-- `read(char*, size_t, bool)`.
unfoldable pub read_or_skip : Bool → ℕ → MsgBufReader → Outcome
unfolding read_loop
read_or_skip skip size r = moved size r (read_loop skip size 0 r.at.behind r.at.ahead r.at.pos [])

-- `read(char*, size_t)`, with a target that is not null.
unfoldable pub read : ℕ → MsgBufReader → Outcome
unfolding read_or_skip
read size r = if size == 0 then (true, [], r) else read_or_skip false size r

unfoldable pub forward : ℕ → MsgBufReader → Bool × MsgBufReader
unfolding read_or_skip
forward count r = let (done, out, s) = read_or_skip true count r in (done, s)

-- `*size = chunk.size() - _pos`: the low 32 bits, which are an `int`.
abbrev pub int_size : Chunk → ℕ → ℕ
int_size c pos = sub64 (length c) pos % 2 ^ 32

-- The loop of `next`, which stands before a chunk: what the pointer gives of the first chunk whose
-- `*size` is not 0, or of the last one, that `*size`, and where the reader stands then.
unfoldable pub next_loop : List Chunk → Chunk → List Chunk → ℕ → List ℕ × ℕ × Position
next_loop behind c [] pos =
    (drop pos c, int_size c pos, record { behind = c ∷ behind; ahead = []; pos = 0 })
next_loop behind c (d ∷ ds) pos =
    let on = next_loop (c ∷ behind) d ds 0 in
    if int_size c pos == 0
    then on
    else (drop pos c, int_size c pos, record { behind = c ∷ behind; ahead = d ∷ ds; pos = 0 })

abbrev pub next_at : MsgBufReader → List Chunk → Option (List ℕ × ℕ) × MsgBufReader
next_at r [] = (none, r)
next_at r (c ∷ cs) =
    let (chunk, size, p) = next_loop r.at.behind c cs r.at.pos in
    (if size == 0 then none else some (chunk, size), record r { at = p })

-- The bytes that the pointer is set to, and `*size`; `none` is -1. The read size stays as it was.
unfoldable pub next : MsgBufReader → Option (List ℕ × ℕ) × MsgBufReader
unfolding next_loop
next r = next_at r r.at.ahead

-- The loop of `backward`; `none` is a step in front of the first chunk.
unfoldable pub back_loop : ℕ → List Chunk → List Chunk → ℕ → Option Position
back_loop count [] ahead pos =
    if ltb pos count then none else some (record { behind = []; ahead = ahead; pos = pos - count })
back_loop count (c ∷ cs) ahead pos =
    let on = back_loop (count - pos) cs (c ∷ ahead) (length c) in
    if ltb pos count
    then on
    else some (record { behind = c ∷ cs; ahead = ahead; pos = pos - count })

abbrev pub went_back : ℕ → MsgBufReader → Option Position → Option (Bool × MsgBufReader)
went_back count r none = none
went_back count r (some p) = some (true, record r { at = p; read_size = r.read_size - count })

unfoldable pub backward : ℕ → MsgBufReader → Option (Bool × MsgBufReader)
unfolding back_loop
backward count r =
    if ltb r.read_size count
    then some (false, r)
    else went_back count r (back_loop count r.at.behind r.at.ahead r.at.pos)

unfoldable pub remain_size : MsgBufReader → ℕ
remain_size r = sub64 r.total_size r.read_size

unfoldable pub has_more_in : List Chunk → ℕ → Bool
has_more_in [] pos = false
has_more_in (c ∷ cs) pos = let on = has_more_in cs 0 in if ltb pos (length c) then true else on

unfoldable pub has_more : MsgBufReader → Bool
unfolding has_more_in
has_more r = has_more_in r.at.ahead r.at.pos

-- `read_int` and the reads of 1, 2, 3, 4, 6 and 8 bytes: the low bytes of the integer are written,
-- whose value was `v`.
abbrev pub overwritten : ℕ → List ℕ → ℕ
overwritten v bs = le_value bs + v / 256 ^ length bs * 256 ^ length bs

unfoldable pub read_uint : ℕ → ℕ → MsgBufReader → Bool × ℕ × MsgBufReader
unfolding read
read_uint width v r = let (done, out, s) = read width r in (done, overwritten v out, s)
