-- ===== src/Event/Scan/Trx.antt =====
-- What the events of a file are to `seek_and_verify_complete_trx`, and what they come to.
use oblogproxy.Common.{
  ℕ, ◌≡◌, ◌≢◌, ◌⊎◌, List, [], ◌∷◌, some, Bool, true, false, if◌then◌else◌, ◌||◌, ◌==◌,
}
use oblogproxy.Event.Header.{
  OblogEventHeader, previous_gtids_log_event, gtid_log_event, xid_event, query_event,
}
use oblogproxy.Event.Checksum.{read_file}
use oblogproxy.Event.Memory.{c_string}
use oblogproxy.Event.Gtid
use oblogproxy.Event.Query
use oblogproxy.Event.Scan.{BinlogTrxOverview, begin_var}
use oblogproxy.Event.Scan.Layout.{Raw}

-- The previous GTIDs, a GTID with its transaction id, the end of a transaction, or another event.
pub data Kind : Type 0 where
  previous : Kind
  gtid : ℕ → Kind
  ends : Kind
  passes : Kind

abbrev pub Event : Type 0
Event = Kind × Raw

abbrev pub raws : List Event → List Raw
raws [] = []
raws ((k, (h, body)) ∷ es) = (h, body) ∷ raws es

abbrev pub Closes : Kind → Type 0
Closes Kind.previous = Unit {0}
Closes (Kind.gtid n) = ⊥
Closes Kind.ends = Unit {0}
Closes Kind.passes = ⊥

-- The GTID that is open behind the events.
abbrev pub open_gtid : ℕ → List Event → ℕ
open_gtid p [] = p
open_gtid p ((Kind.previous, r) ∷ es) = open_gtid p es
open_gtid p ((Kind.gtid n, r) ∷ es) = open_gtid n es
open_gtid p ((Kind.ends, r) ∷ es) = open_gtid 0 es
open_gtid p ((Kind.passes, r) ∷ es) = open_gtid p es

-- The GTID that the last transaction to end had, or `d`.
abbrev pub ended_gtid : ℕ → ℕ → List Event → ℕ
ended_gtid d p [] = d
ended_gtid d p ((Kind.previous, r) ∷ es) = ended_gtid d p es
ended_gtid d p ((Kind.gtid n, r) ∷ es) = ended_gtid d n es
ended_gtid d p ((Kind.ends, r) ∷ es) = ended_gtid p 0 es
ended_gtid d p ((Kind.passes, r) ∷ es) = ended_gtid d p es

-- Where the last transaction with the GTID `g` ends, or `d`.
abbrev pub end_with : ℕ → ℕ → ℕ → List Event → ℕ
end_with g d p [] = d
end_with g d p ((Kind.previous, r) ∷ es) = end_with g d p es
end_with g d p ((Kind.gtid n, r) ∷ es) = end_with g d n es
end_with g d p ((Kind.ends, (h, body)) ∷ es) =
    end_with g (if p == g then h.next_position else d) 0 es
end_with g d p ((Kind.passes, r) ∷ es) = end_with g d p es

abbrev pub has_previous : List Event → Bool
has_previous [] = false
has_previous ((Kind.previous, r) ∷ es) = true
has_previous ((Kind.gtid n, r) ∷ es) = has_previous es
has_previous ((Kind.ends, r) ∷ es) = has_previous es
has_previous ((Kind.passes, r) ∷ es) = has_previous es

-- The overview of the events, beginning with `trx`, where the last transaction or the previous GTIDs
-- end at `end`.
abbrev pub overview_of : BinlogTrxOverview → List Event → ℕ → BinlogTrxOverview
overview_of trx es end = record {
  has_previous_gtids_event = trx.has_previous_gtids_event || has_previous es;
  last_complete_trx_end_pos = end;
  last_complete_trx_gtid = ended_gtid trx.last_complete_trx_gtid trx.trx_need_truncated_gtid es;
  trx_need_truncated_gtid = open_gtid trx.trx_need_truncated_gtid es;
  trx_specify_truncated_gtid = trx.trx_specify_truncated_gtid;
  trx_specify_truncated_end_pos =
      end_with trx.trx_specify_truncated_gtid trx.trx_specify_truncated_end_pos
        trx.trx_need_truncated_gtid es;
}

module _ (heap : List ℕ) (flag : ℕ) (file : List ℕ) where
  -- A query whose statement is, or is not, BEGIN.
  abbrev pub Queries : ℕ → OblogEventHeader → (List ℕ → Type 0) → Type 0
  Queries pos h P =
      (h.type_code ≡ query_event)
      × (buffer : List ℕ) × (e : Query.QueryEvent) × (read_file file pos h.event_length
          ≡ some buffer)
      × (Query.deserialize heap flag buffer ≡ some e)
      × P (c_string e.sql_statment)

  -- What the event at `pos` is, by its type and by what stands there.
  abbrev pub Is : ℕ → OblogEventHeader → Kind → Type 0
  Is pos h Kind.previous = h.type_code ≡ previous_gtids_log_event
  Is pos h (Kind.gtid n) =
      (h.type_code ≡ gtid_log_event)
      × (buffer : List ℕ) × (e : Gtid.GtidLogEvent) × (read_file file pos h.event_length
          ≡ some buffer)
      × (Gtid.deserialize flag buffer ≡ some e)
      × (e.gtid_txn_id ≡ n)
  Is pos h Kind.ends = (h.type_code ≡ xid_event) ⊎ Queries pos h (λ text. text ≢ begin_var)
  Is pos h Kind.passes =
      ((h.type_code ≢ previous_gtids_log_event)
        × (h.type_code ≢ gtid_log_event)
        × (h.type_code ≢ xid_event)
        × (h.type_code ≢ query_event))
      ⊎ Queries pos h (λ text. text ≡ begin_var)

  abbrev pub Kinds : ℕ → List Event → Type 0
  Kinds pos [] = Unit {0}
  Kinds pos ((k, (h, body)) ∷ es) = Is pos h k × Kinds h.next_position es
