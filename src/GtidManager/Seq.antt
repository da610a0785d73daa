-- ===== src/GtidManager/Seq.antt =====
-- `GtidSeq` of binlog/gtid_manager.{h,cpp} and its text.
use oblogproxy.Common.{ℕ, ◌^◌, ◌<◌, ◌≡◌, refl, ap, ◌∙◌, List, [], ◌∷◌, ◌++◌, false, All, arith}
use oblogproxy.Text.Split.{split, Inside, All-map, append-cons-ne-nil, split-joined}
use oblogproxy.Text.Decimal.{to_string, atoll, IsDigit, to_string-IsDigit, atoll-to_string}

pub record GtidSeq : Type 0 where
  pub commit_version_start : ℕ
  pub xid_start : List ℕ
  pub gtid_start : ℕ
  pub trxs_num : ℕ

-- `GtidSeq()`
abbrev pub no_gtid_seq : GtidSeq
no_gtid_seq = record { commit_version_start = 0; xid_start = []; gtid_start = 0; trxs_num = 0 }

unfoldable pub serialize : GtidSeq → List ℕ
serialize s =
    to_string s.commit_version_start
    ++ b'#' ∷ (s.xid_start ++ b'#' ∷ (to_string s.gtid_start ++ b'#' ∷ to_string s.trxs_num))

-- Four parts are the fields; with any other number the object stays as it is.
abbrev pub from_parts : GtidSeq → List (List ℕ) → GtidSeq
from_parts old (version ∷ xid ∷ gtid ∷ trxs ∷ []) = record {
  commit_version_start = atoll version;
  xid_start = xid;
  gtid_start = atoll gtid;
  trxs_num = atoll trxs;
}
from_parts old _ = old

unfoldable pub deserialize : GtidSeq → List ℕ → GtidSeq
deserialize old line = from_parts old (split line b'#' false)

-- A text without NUL and without the separator.
abbrev pub IsXid : List ℕ → Type 0
IsXid xid = All (Inside b'#') xid

-- The numbers are those that `atoll` reads.
pub record IsPrintable (s : GtidSeq) : Type 0 where
  pub version_fits : s.commit_version_start < 2 ^ 63
  pub gtid_fits : s.gtid_start < 2 ^ 63
  pub trxs_fits : s.trxs_num < 2 ^ 63
  pub xid_inside : IsXid s.xid_start

to_string-Inside : (n : ℕ) → All (Inside b'#') (to_string n)
to_string-Inside n =
    All-map IsDigit (Inside b'#') (to_string n) (λ b h. omega arith) (to_string-IsDigit n)

-- A GTID sequence whose numbers are below 2 ^ 63 and whose transaction id holds neither '#' nor NUL
-- is read back from its text, whatever the object held before.
pub deserialize-serialize : (old s : GtidSeq) → IsPrintable s → deserialize old (serialize s) ≡ s
unfolding deserialize serialize
deserialize-serialize old s p =
    ap (from_parts old) (
      split-joined b'#' (omega arith) (to_string s.commit_version_start)
        (s.xid_start ∷ to_string s.gtid_start ∷ to_string s.trxs_num ∷ [])
        (append-cons-ne-nil (to_string s.commit_version_start) _ b'#')
        (
          to_string-Inside s.commit_version_start,
          (p.xid_inside, (to_string-Inside s.gtid_start, (to_string-Inside s.trxs_num, tt))),
        ))
    ∙ rw
        (
          atoll-to_string s.commit_version_start p.version_fits,
          atoll-to_string s.gtid_start p.gtid_fits,
          atoll-to_string s.trxs_num p.trxs_fits,
        )
        refl
