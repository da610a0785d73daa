-- ===== src/Event/PreviousGtids/RoundTrip.antt =====
-- Reading back what PreviousGtidsLogEvent wrote.
use oblogproxy.Common.{
  eq→==, refl, ℕ, ◌+◌, ◌^◌, ◌<◌, ◌≤◌, ◌≡◌, ◌∙◌, sym, ap, List, [], ◌∷◌, ◌++◌, some, arith, length,
  append_assoc, append-nil, All,
}
use oblogproxy.Bytes.{◌>>=◌, run, int8store}
use oblogproxy.Bytes.RoundTrip.{load_bytes-append, int8load-int8store}
use oblogproxy.GtidSet.Message.{GtidMessage, TxnRange}
use oblogproxy.Event.Header.{flush_header}
use oblogproxy.Event.Checksum.{write_checksum}
use oblogproxy.Event.Framing.{IsEvent, run_framed}
use oblogproxy.Event.Gtid.{server_uuid_len}
use oblogproxy.Event.PreviousGtids.{
  PreviousGtidsLogEvent, before, after, uuid_order, emplace, set_gtid_messages, flush_ranges,
  flush_message, flush_messages, body, flush_to_buff, read_range, read_ranges, read_message,
  read_messages, deserialize,
}

-- A range that ends before 2 ^ 64 - 1 and does not end before it begins.
abbrev pub RangeFits : TxnRange → Type 0
RangeFits r = (r.0 ≤ r.1) × (r.1 + 1 < 2 ^ 64)

pub record MessageFits (m : GtidMessage) : Type 0 where
  pub uuid_sized : length m.gtid_uuid ≡ server_uuid_len
  pub counted : m.gtid_txn_id_intervals ≡ length m.txn_range
  pub count_fits : length m.txn_range < 2 ^ 64
  pub ranges_fit : All RangeFits m.txn_range

-- The messages stand in the order of their UUIDs, each UUID once.
abbrev Before : GtidMessage → GtidMessage → Type 0
Before m k = uuid_order m.gtid_uuid k.gtid_uuid ≡ before

abbrev pub Ascending : List GtidMessage → Type 0
Ascending [] = Unit {0}
Ascending (m ∷ ms) = All (Before m) ms × Ascending ms

read_range-flush :
    (first second : ℕ) (rest : List ℕ)
    → RangeFits (first, second)
    → read_range (int8store first ++ (int8store (second + 1) ++ rest))
      ≡ some ((first, second), rest)
unfolding read_range
read_range-flush first second rest (ordered, fits) =
    rw (int8load-int8store first _ (omega arith), ◌>>=◌, int8load-int8store (second + 1) _ fits)
      (ground arith)

read_ranges-flush_ranges :
    (rs : List TxnRange) (rest : List ℕ)
    → All RangeFits rs
    → read_ranges (length rs) (flush_ranges rs ++ rest) ≡ some (rs, rest)
unfolding read_ranges flush_ranges
read_ranges-flush_ranges [] rest h = refl
read_ranges-flush_ranges ((first, second) ∷ rs) rest (h, hs) = simp append_assoc (
    rw (
      read_range-flush first second (flush_ranges rs ++ rest) h,
      ◌>>=◌,
      read_ranges-flush_ranges rs rest hs,
    ))

read_message-flush_message :
    (m : GtidMessage) (rest : List ℕ)
    → MessageFits m
    → read_message (flush_message m ++ rest) ≡ some (m, rest)
unfolding read_message flush_message
read_message-flush_message m rest v = simp append_assoc (
    rw (
      load_bytes-append server_uuid_len m.gtid_uuid _ v.uuid_sized,
      ◌>>=◌,
      v.counted,
      int8load-int8store (length m.txn_range) _ v.count_fits,
      ◌>>=◌,
      read_ranges-flush_ranges m.txn_range rest v.ranges_fit,
    ))

read_messages-flush_messages :
    (ms : List GtidMessage) (rest : List ℕ)
    → All MessageFits ms
    → read_messages (length ms) (flush_messages ms ++ rest) ≡ some (ms, rest)
unfolding read_messages flush_messages
read_messages-flush_messages [] rest h = refl
read_messages-flush_messages (m ∷ ms) rest (h, hs) = simp append_assoc (
    rw (
      read_message-flush_message m (flush_messages ms ++ rest) h,
      ◌>>=◌,
      read_messages-flush_messages ms rest hs,
    ))

-- The order of the keys is antisymmetric.
flip : (a b : List ℕ) → uuid_order a b ≡ before → uuid_order b a ≡ after
unfolding uuid_order
flip [] [] h = cc
flip [] (b ∷ bs) h = refl
flip (a ∷ xs) [] h = cc
flip (a ∷ xs) (b ∷ bs) h = ground (arith, flip xs bs)

emplace_last :
    (m : GtidMessage) (ks : List GtidMessage)
    → All (λ k. Before k m) ks
    → emplace m ks ≡ ks ++ m ∷ []
unfolding emplace
emplace_last m [] h = refl
emplace_last m (k ∷ ks) (h, hs) =
    rw (flip k.gtid_uuid m.gtid_uuid h, emplace) (ap (◌∷◌ k) (emplace_last m ks hs))

-- Each of the first messages is before each of the second.
abbrev AllBefore : List GtidMessage → List GtidMessage → Type 0
AllBefore ks ms = All (λ m. All (λ k. Before k m) ks) ms

AllBefore-snoc :
    (ks ms : List GtidMessage) (m : GtidMessage)
    → AllBefore ks ms
    → All (Before m) ms
    → AllBefore (ks ++ m ∷ []) ms
AllBefore-snoc ks [] m h b = tt
AllBefore-snoc ks (x ∷ ms) m (h, hs) (b, bs) = (last ks h, AllBefore-snoc ks ms m hs bs)
  where
    last : (js : List GtidMessage) → All (λ k. Before k x) js → All (λ k. Before k x) (js ++ m ∷ [])
    last [] h' = (b, tt)
    last (j ∷ js) (h', hs') = (h', last js hs')

set_gtid_messages-append :
    (ks ms : List GtidMessage) → AllBefore ks ms → Ascending ms → set_gtid_messages ks ms ≡ ks ++ ms
unfolding set_gtid_messages
set_gtid_messages-append ks [] h s = sym (append-nil ks)
set_gtid_messages-append ks (m ∷ ms) (h, hs) (b, s) =
    rw (emplace_last m ks h)
      (set_gtid_messages-append (ks ++ m ∷ []) ms (AllBefore-snoc ks ms m hs b) s)
    ∙ append_assoc ks (m ∷ []) ms

AllBefore-nil : (ms : List GtidMessage) → AllBefore [] ms
AllBefore-nil [] = tt
AllBefore-nil (m ∷ ms) = (tt, AllBefore-nil ms)

pub record IsValid (e : PreviousGtidsLogEvent) : Type 0 where
  pub event_fits : IsEvent e.event (length (body e))
  pub counted : e.gtid_uuid_num ≡ length e.gtid_messages
  pub count_fits : length e.gtid_messages < 2 ^ 64
  pub messages_fit : All MessageFits e.gtid_messages
  pub messages_ascend : Ascending e.gtid_messages

-- An event whose counts are right, whose messages are in range and in the order of their UUIDs, and
-- whose length is set right is written, and read back from what was written, whatever follows it.
pub deserialize-flush_to_buff_previous_gtids :
    (crc32 : List ℕ → ℕ) (e : PreviousGtidsLogEvent) (rest : List ℕ)
    → IsValid e
    → (bs : List ℕ) × (flush_to_buff crc32 e ≡ some bs)
      × (deserialize e.checksum_flag (bs ++ rest) ≡ some e)
unfolding deserialize flush_to_buff
deserialize-flush_to_buff_previous_gtids crc32 e rest v = (
  write_checksum crc32 e.checksum_flag (flush_header e.header ++ body e),
  rw (eq→== e.gtid_uuid_num (length e.gtid_messages) v.counted) refl,
  run_framed crc32 e.event (body e) rest _ v.event_fits
      ∙ simp append_assoc (
          rw (
            v.counted,
            int8load-int8store (length e.gtid_messages) _ v.count_fits,
            run,
            ◌>>=◌,
            read_messages-flush_messages e.gtid_messages _ v.messages_fit,
            ◌>>=◌,
            set_gtid_messages-append [] e.gtid_messages (AllBefore-nil e.gtid_messages)
                v.messages_ascend,
          )),
)
