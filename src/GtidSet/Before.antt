-- ===== src/GtidSet/Before.antt =====
-- `merge_gtid_before` of binlog/gtid_manager.cpp: the entry of the server takes in a range.
use Prim.Native.Nat.{max}
use oblogproxy.Common.{
  ℕ, ◌+◌, ◌%◌, ◌^◌, ◌≤◌, ◌<◌, ◌≡◌, refl, ap, ◌∙◌, List, [], ◌∷◌, ◌++◌, Bool, true, false, not, ◌&&◌,
  ◌||◌, if◌then◌else◌, ltb, leb, none, some, length, All, arith,
}
use oblogproxy.GtidSet.Message.{TxnRange, GtidMessage, covers}
use oblogproxy.GtidSet.Uuid.{uuid_hex_bin_to_str_with_delim, uuid_str_to_hex_bin, same_but_case}

-- The ranges of an entry with the new range taken in. Only the last range is looked at.
unfoldable pub take_in : TxnRange → List TxnRange → List TxnRange
take_in range [] = range ∷ []
take_in range (last ∷ []) =
    if ltb ((last.1 + 1) % 2 ^ 64) range.0
    then last ∷ range ∷ []
    else if ltb last.1 range.1
    then (last.0, range.1) ∷ []
    else last ∷ []
take_in range (r ∷ s ∷ rs) = r ∷ take_in range (s ∷ rs)

-- Is this the entry of the server?
unfoldable pub is_of : List ℕ → GtidMessage → Bool
unfolding uuid_hex_bin_to_str_with_delim same_but_case
is_of server_uuid m = same_but_case (uuid_hex_bin_to_str_with_delim m.gtid_uuid) server_uuid

unfoldable pub update_entry : TxnRange → GtidMessage → GtidMessage
unfolding take_in
update_entry range m = record {
  gtid_uuid = m.gtid_uuid;
  gtid_txn_id_intervals = length (take_in range m.txn_range);
  txn_range = take_in range m.txn_range;
}

-- The loop: the entries afterwards, and whether one is the server's.
unfoldable pub update_entries : List ℕ → TxnRange → List GtidMessage → List GtidMessage × Bool
unfolding is_of update_entry
update_entries server_uuid range [] = ([], false)
update_entries server_uuid range (m ∷ ms) =
    let (rest, existed) = update_entries server_uuid range ms in
    if is_of server_uuid m then (update_entry range m ∷ rest, true) else (m ∷ rest, existed)

-- No bytes where the UUID of the server cannot be read.
abbrev pub uuid_bytes : List ℕ → List ℕ
uuid_bytes server_uuid = elim (uuid_str_to_hex_bin server_uuid) [ none ↦ [] | some uuid ↦ uuid ]

unfoldable pub merge_gtid_before : List ℕ → List GtidMessage → TxnRange → List GtidMessage
unfolding update_entries uuid_str_to_hex_bin
merge_gtid_before server_uuid set range =
    let (ms, existed) = update_entries server_uuid range set in
    if not existed && (ltb 0 range.0 && ltb 0 range.1)
    then ms
      ++ record {
        gtid_uuid = uuid_bytes server_uuid;
        gtid_txn_id_intervals = 1;
        txn_range = range ∷ [];
      }
        ∷ []
    else ms

-- The last range is extended, or another one stands behind it.
take_in-last :
    (x first second : ℕ) (last : TxnRange)
    → last.0 ≤ last.1
    → last.1 + 1 < 2 ^ 64
    → covers x (take_in (first, second) (last ∷ []))
      ≡ (covers x (last ∷ []) || (leb (max first (last.1 + 1)) x && leb x second))
unfolding take_in
take_in-last x first second last ordered fits = ground arith

take_in-cons :
    (range r : TxnRange) (rs : List TxnRange) (last : TxnRange)
    → take_in range (r ∷ (rs ++ last ∷ [])) ≡ r ∷ take_in range (rs ++ last ∷ [])
unfolding take_in
take_in-cons range r [] last = refl
take_in-cons range r (s ∷ rs) last = refl

or_assoc : (a b c : Bool) → (a || (b || c)) ≡ ((a || b) || c)
or_assoc true b c = refl
or_assoc false b c = refl

take_in-covers :
    (x first second : ℕ) (rs : List TxnRange) (last : TxnRange)
    → last.0 ≤ last.1
    → last.1 + 1 < 2 ^ 64
    → covers x (take_in (first, second) (rs ++ last ∷ []))
      ≡ (covers x (rs ++ last ∷ []) || (leb (max first (last.1 + 1)) x && leb x second))
take_in-covers x first second [] last ordered fits = take_in-last x first second last ordered fits
take_in-covers x first second (r ∷ rs) last ordered fits =
    ap (covers x) (take_in-cons (first, second) r rs last)
    ∙ ap (λ b. (leb r.0 x && leb x r.1) || b) (take_in-covers x first second rs last ordered fits)
    ∙ or_assoc (leb r.0 x && leb x r.1) (covers x (rs ++ last ∷ [])) _

-- No entry is the server's.
abbrev pub Others : List ℕ → List GtidMessage → Type 0
Others server_uuid ms = All (λ m. is_of server_uuid m ≡ false) ms

module _ (server_uuid : List ℕ) (range : TxnRange) where
  update_entries-Others :
      (ms : List GtidMessage)
      → Others server_uuid ms
      → update_entries server_uuid range ms ≡ (ms, false)
  unfolding update_entries
  update_entries-Others [] h = refl
  update_entries-Others (m ∷ ms) (h, hs) = rw (update_entries-Others ms hs, h) refl

  update_entries-one :
      (before after : List GtidMessage) (m : GtidMessage)
      → Others server_uuid before
      → is_of server_uuid m ≡ true
      → Others server_uuid after
      → update_entries server_uuid range (before ++ m ∷ after)
        ≡ (before ++ update_entry range m ∷ after, true)
  unfolding update_entries
  update_entries-one [] after m hb h ha = rw (update_entries-Others after ha, h) refl
  update_entries-one (b ∷ before) after m (hb, hbs) h ha =
      rw (update_entries-one before after m hbs h ha, hb) refl

-- If one entry of the set is the server's, and its last range is a range of ids, then the other
-- entries stay, and that entry, with its number of ranges, has the ids that it had and those of the
-- new range that are behind its last one: ids in front of that are not taken in.
pub merge_gtid_before-covers :
    (server_uuid : List ℕ) (first second : ℕ) (before after : List GtidMessage) (m : GtidMessage)
    (rs : List TxnRange) (last : TxnRange)
    → Others server_uuid before
    → is_of server_uuid m ≡ true
    → Others server_uuid after
    → m.txn_range ≡ rs ++ last ∷ []
    → last.0 ≤ last.1
    → last.1 + 1 < 2 ^ 64
    → (m' : GtidMessage) × (merge_gtid_before server_uuid (before ++ m ∷ after) (first, second)
        ≡ before ++ m' ∷ after)
      × (m'.gtid_uuid ≡ m.gtid_uuid)
      × (m'.gtid_txn_id_intervals ≡ length m'.txn_range)
      × ((x : ℕ)
          → covers x m'.txn_range
            ≡ (covers x m.txn_range || (leb (max first (last.1 + 1)) x && leb x second)))
unfolding merge_gtid_before update_entry
merge_gtid_before-covers server_uuid first second before after m rs last hb h ha e ordered fits = (
  update_entry (first, second) m,
  rw (update_entries-one server_uuid (first, second) before after m hb h ha) refl,
  refl,
  refl,
  λ x. rw e (take_in-covers x first second rs last ordered fits),
)

-- If no entry is the server's, a range of ids is a new entry.
merge_gtid_before-new :
    (server_uuid : List ℕ) (first second : ℕ) (ms : List GtidMessage)
    → Others server_uuid ms
    → 0 < first
    → first ≤ second
    → merge_gtid_before server_uuid ms (first, second)
      ≡ ms
        ++ record {
          gtid_uuid = uuid_bytes server_uuid;
          gtid_txn_id_intervals = 1;
          txn_range = (first, second) ∷ [];
        }
          ∷ []
unfolding merge_gtid_before
merge_gtid_before-new server_uuid first second ms h positive le =
    rw (update_entries-Others server_uuid (first, second) ms h) (ground arith)
