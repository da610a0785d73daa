-- ===== src/GtidSet/Uuid.antt =====
-- The text of a UUID: `uuid_hex_bin_to_str_with_delim` and `uuid_str_to_hex_bin` of
-- binlog/ob_log_event.cpp, with `dumphex` of common/common.cpp and `hex_to_bin` of
-- binlog/common_util.h.
pub mod Hex
pub mod RoundTrip
use oblogproxy.Common.{
  ℕ, zero, suc, ◌+◌, ◌-◌, ◌*◌, ◌/◌, ◌%◌, ◌^◌, List, [], ◌∷◌, ◌++◌, map, Bool, true, false, ◌&&◌,
  ◌||◌, if◌then◌else◌, ltb, leb, ◌==◌, Option, none, some, length, take, drop,
}
use oblogproxy.Text.Split.{split, eqb}
use oblogproxy.Text.Decimal.{skip_space}
use oblogproxy.Event.Memory.{c_string}

abbrev pub hex_digit : ℕ → ℕ
hex_digit n = if ltb n 10 then b'0' + n else b'A' + n - 10

unfoldable pub dumphex : List ℕ → List ℕ
dumphex [] = []
dumphex (b ∷ bs) = hex_digit (b / 16) ∷ hex_digit (b % 16) ∷ dumphex bs

-- `tolower` in the C locale.
abbrev pub to_lower : ℕ → ℕ
to_lower c = if leb b'A' c && leb c b'Z' then c + 32 else c

-- The five pieces of the text with '-' between them.
abbrev pub delimited : List ℕ → List ℕ
delimited text =
    take 8 text
    ++ b'-'
      ∷ (take 4 (drop 8 text)
          ++ b'-'
            ∷ (take 4 (drop 12 text)
                ++ b'-' ∷ (take 4 (drop 16 text) ++ b'-' ∷ take 12 (drop 20 text))))

unfoldable pub uuid_hex_bin_to_str_with_delim : List ℕ → List ℕ
unfolding dumphex
uuid_hex_bin_to_str_with_delim uuid = delimited (map to_lower (dumphex (take 16 uuid)))

-- The value of a hexadecimal digit, of either case.
abbrev pub hex_value : ℕ → Option ℕ
hex_value c =
    if leb b'0' c && leb c b'9'
    then some (c - b'0')
    else if leb b'a' c && leb c b'f'
    then some (c - b'a' + 10)
    else if leb b'A' c && leb c b'F'
    then some (c - b'A' + 10)
    else none

-- The digits that lead a text, behind the value read so far.
unfoldable pub read_hex : ℕ → List ℕ → ℕ
read_hex n [] = n
read_hex n (c ∷ s) = elim (hex_value c) [ none ↦ n | some d ↦ read_hex (n * 16 + d) s ]

-- `>> std::hex >> element` on two characters, and the low byte of the result: 0 where no digit
-- stands.
abbrev pub element_of : List ℕ → ℕ
element_of [] = 0
element_of (c ∷ rest) =
    if c == b'-'
    then (2 ^ 32 - read_hex 0 rest) % 2 ^ 32 % 256
    else if c == b'+'
    then read_hex 0 rest % 256
    else read_hex 0 (c ∷ rest) % 256

unfoldable pub hex_element : List ℕ → ℕ
unfolding read_hex skip_space
hex_element s = element_of (skip_space s)

unfoldable pub hex_to_bin : List ℕ → List ℕ
unfolding hex_element
hex_to_bin [] = []
hex_to_bin (c ∷ []) = hex_element (c ∷ []) ∷ []
hex_to_bin (c ∷ d ∷ s) = hex_element (c ∷ d ∷ []) ∷ hex_to_bin s

-- The 16 bytes of five parts. Each part is written at its place: `none` is a part of another length,
-- which leaves memory as it came from `malloc`, or writes past it.
abbrev pub uuid_of_parts : List (List ℕ) → Option (List ℕ)
uuid_of_parts (p ∷ q ∷ r ∷ s ∷ t ∷ []) =
    if ((length p == 8) && (length q == 4))
      && (((length r == 4) && (length s == 4)) && (length t == 12))
    then some (hex_to_bin p ++ (hex_to_bin q ++ (hex_to_bin r ++ (hex_to_bin s ++ hex_to_bin t))))
    else none
uuid_of_parts _ = none

-- `none` is OMS_FAILED too.
unfoldable pub uuid_str_to_hex_bin : List ℕ → Option (List ℕ)
unfolding split hex_to_bin
uuid_str_to_hex_bin text = uuid_of_parts (split text b'-' false)

-- `strcasecmp` of two C strings: are they equal up to case?
unfoldable pub same_but_case : List ℕ → List ℕ → Bool
unfolding eqb c_string
same_but_case s t = eqb (map to_lower (c_string s)) (map to_lower (c_string t))
