-- ===== src/PacketBuf/Integer/Encoded.antt =====
-- The four shapes of a length-encoded integer.
use oblogproxy.Common.{
  ℕ, ◌/◌, ◌%◌, ◌^◌, ◌<◌, ◌≡◌, refl, ap, List, [], ◌∷◌, ◌++◌, true, false, if◌then◌else◌, ltb, arith,
  length, ltb→lt,
}
use oblogproxy.Bytes.{le_bytes}
use oblogproxy.Bytes.RoundTrip.{length-le_bytes}
use oblogproxy.PacketBuf.ByteOrder.{encoded_bytes_length}

-- MySQL's length-encoded integer, on its own.
unfoldable pub encoded : ℕ → List ℕ
encoded v =
    if ltb v 251
    then le_bytes 1 v
    else if ltb v 65536
    then 252 ∷ le_bytes 2 v
    else if ltb v 16777216
    then 253 ∷ le_bytes 3 v
    else 254 ∷ le_bytes 8 v

pub length-encoded : (v : ℕ) → length (encoded v) ≡ encoded_bytes_length v
unfolding encoded encoded_bytes_length
length-encoded v =
    ground
      (arith, length-le_bytes 1 v, length-le_bytes 2 v, length-le_bytes 3 v, length-le_bytes 8 v)

-- The four encodings.
module _ (v : ℕ) where
  pub encoded-one : ltb v 251 ≡ true → encoded v ≡ v ∷ []
  unfolding encoded le_bytes
  encoded-one one = rw one (ap (λ b. b ∷ []) (small (ltb→lt v 251 one)))
    where
      small : v < 251 → v % 256 ≡ v
      small h = omega arith

  pub encoded-two : ltb v 251 ≡ false → ltb v 65536 ≡ true → encoded v ≡ 252 ∷ le_bytes 2 v
  unfolding encoded
  encoded-two over1 two = rw (over1, two) refl

  pub encoded-three :
      ltb v 251 ≡ false
      → ltb v 65536 ≡ false
      → ltb v 16777216 ≡ true
      → encoded v ≡ 253 ∷ le_bytes 3 v
  unfolding encoded
  encoded-three over1 over2 three = rw (over1, over2, three) refl

  pub encoded-more :
      ltb v 251 ≡ false
      → ltb v 65536 ≡ false
      → ltb v 16777216 ≡ false
      → encoded v ≡ 254 ∷ le_bytes 8 v
  unfolding encoded
  encoded-more over1 over2 more = rw (over1, over2, more) refl

pub le_bytes_three : (v : ℕ) → le_bytes 2 v ++ le_bytes 1 (v / 2 ^ 16) ≡ le_bytes 3 v
unfolding le_bytes
le_bytes_three v = ap (λ b. v % 256 ∷ v / 256 % 256 ∷ b ∷ []) (omega arith)
