-- ===== src/Event/Xid.antt =====
-- XidEvent.
use oblogproxy.Common.{ℕ, ◌+◌, ◌^◌, ◌<◌, ◌≡◌, ◌∙◌, sym, List, ◌++◌, Option, some, ◌==◌, eq→==}
use oblogproxy.Bytes.{Read, ◌>>=◌, ◌>>◌, pure, assert, run, int8store, int8load}
use oblogproxy.Bytes.RoundTrip.{int8load-int8store, length-int8store}
use oblogproxy.Event.Header.{
  OblogEventHeader, flush_header, deserialize_header, common_header_length,
}
use oblogproxy.Event.Checksum.{ObLogEvent, write_checksum, get_checksum_len}
use oblogproxy.Event.Framing.{IsEvent, run_framed}

pub record XidEvent : Type 0 where
  pub event : ObLogEvent
  pub open event use *
  pub xid : ℕ

pub flush_to_buff : (List ℕ → ℕ) → XidEvent → List ℕ
flush_to_buff crc32 e =
    write_checksum crc32 e.checksum_flag (flush_header e.header ++ int8store e.xid)

read_body : ℕ → OblogEventHeader → Read XidEvent
read_body flag header = do
  xid ← int8load
  let pos = common_header_length + 8 + get_checksum_len flag
  assert (pos == header.event_length)
  pure (record { event = record { header = header; checksum_flag = flag }; xid = xid })

-- `flag` is the checksum flag of the new event, which the configuration sets.
pub deserialize : ℕ → List ℕ → Option XidEvent
unfolding read_body
deserialize flag = run (deserialize_header >>= read_body flag)

pub record IsValid (e : XidEvent) : Type 0 where
  pub event_fits : IsEvent e.event 8
  pub xid_fits : e.xid < 2 ^ 64

-- An event in range whose length is set right is read back from what `flush_to_buff` wrote,
-- whatever follows it in the buffer.
pub deserialize-flush_to_buff_xid :
    (crc32 : List ℕ → ℕ) (e : XidEvent) (rest : List ℕ)
    → IsValid e
    → deserialize e.checksum_flag (flush_to_buff crc32 e ++ rest) ≡ some e
unfolding deserialize flush_to_buff
deserialize-flush_to_buff_xid crc32 e rest v =
    run_framed crc32 e.event (int8store e.xid) rest _ (rw length-int8store v.event_fits)
    ∙ rw (int8load-int8store e.xid _ v.xid_fits, run, ◌>>=◌, eq→== _ _ (sym v.event_fits.sized))
