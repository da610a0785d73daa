-- ===== src/Event/Scan/Bounds.antt =====
-- Where the last complete transaction ends.
use oblogproxy.Common.{
  ℕ, ◌+◌, ◌≤◌, ◌≡◌, refl, subst, List, [], ◌∷◌, ◌++◌, Option, none, some, Bool, true, false,
  if◌then◌else◌, length, arith, ◌==◌, inl, inr, ◌⊎◌, length-append,
}
use oblogproxy.Event.Header.{
  OblogEventHeader, flush_header, previous_gtids_log_event, gtid_log_event, xid_event, query_event,
  length-flush_header,
}
use oblogproxy.Event.Checksum.{read_file}
use oblogproxy.Event.Memory.{c_string}
use oblogproxy.Event.Gtid
use oblogproxy.Event.Query
use oblogproxy.Event.Scan.{
  State, Scanned, same_bytes, begin_var, at_event, at_gtid, at_query, complete, at_previous_gtids,
}
use oblogproxy.Event.Scan.Layout.{Raw, bytes, LaidOut, handled}

-- The end that a state knows, and the states that an event at `h` may lead to.
abbrev end_of : State → ℕ
end_of s = s.0.last_complete_trx_end_pos

abbrev MovesTo : OblogEventHeader → State → Option State → Type 0
MovesTo h s none = Unit {0}
MovesTo h s (some s') = (end_of s' ≡ end_of s) ⊎ (end_of s' ≡ h.next_position)

module _ (heap : List ℕ) (flag : ℕ) (file : List ℕ) (h : OblogEventHeader) (pos : ℕ)
    (s : State) where
  at_gtid-MovesTo : MovesTo h s (at_gtid heap flag file h pos s)
  unfolding at_gtid
  at_gtid-MovesTo = read (read_file file pos h.event_length)
    where
      parsed :
          (o : Option Gtid.GtidLogEvent)
          → MovesTo h s (elim o [
            | none ↦ none
            | some e ↦ some (record s.0 { trx_need_truncated_gtid = e.gtid_txn_id }, s.1)
          ])
      parsed none = tt
      parsed (some e) = inl refl

      read :
          (o : Option (List ℕ))
          → MovesTo h s (elim o [
            | none ↦ some (s.0, s.1)
            | some buffer ↦ elim (Gtid.deserialize flag buffer) [
              | none ↦ none
              | some e ↦ some (record s.0 { trx_need_truncated_gtid = e.gtid_txn_id }, s.1)
            ]
          ])
      read none = inl refl
      read (some buffer) = parsed (Gtid.deserialize flag buffer)

  at_query-MovesTo : MovesTo h s (at_query heap flag file h pos s)
  unfolding at_query
  at_query-MovesTo = read (read_file file pos h.event_length)
    where
      chosen : (b : Bool) → MovesTo h s (some (if b then s else complete h pos s))
      chosen true = inl refl
      chosen false = inr refl

      parsed :
          (o : Option Query.QueryEvent)
          → MovesTo h s (elim o [
            | none ↦ none
            | some e ↦
                some
                  (if same_bytes (c_string e.sql_statment) begin_var then s else complete h pos s)
          ])
      parsed none = tt
      parsed (some e) = chosen (same_bytes (c_string e.sql_statment) begin_var)

      read :
          (o : Option (List ℕ))
          → MovesTo h s (elim o [
            | none ↦ some s
            | some buffer ↦ elim (Query.deserialize heap flag buffer) [
              | none ↦ none
              | some e ↦
                  some
                    (if same_bytes (c_string e.sql_statment) begin_var then s else complete h pos s)
            ]
          ])
      read none = inl refl
      read (some buffer) = parsed (Query.deserialize heap flag buffer)

  at_event-MovesTo : MovesTo h s (at_event heap flag file h pos s)
  unfolding at_event
  at_event-MovesTo =
      pick (h.type_code == previous_gtids_log_event) (some (at_previous_gtids h pos s)) _ (inr refl)
        (pick (h.type_code == gtid_log_event) (at_gtid heap flag file h pos s) _ at_gtid-MovesTo (
          pick (h.type_code == xid_event) (some (complete h pos s)) _ (inr refl) (
            pick (h.type_code == query_event) (at_query heap flag file h pos s) (some s)
              at_query-MovesTo (inl refl))))
    where
      pick :
          (b : Bool) (o p : Option State)
          → MovesTo h s o
          → MovesTo h s p
          → MovesTo h s (if b then o else p)
      pick true o p m k = m
      pick false o p m k = k

-- The end is not behind some position.
abbrev pub EndsBy : ℕ → Scanned State → Type 0
EndsBy last (Scanned.finished s) = s.0.last_complete_trx_end_pos ≤ last
EndsBy last Scanned.crashed = Unit {0}
EndsBy last Scanned.unfinished = Unit {0}

-- When events one behind another, each with a header in range that states where the event ends,
-- are handled to the end, the end of the last complete transaction is not behind the last event,
-- if it was not behind the place of the first to begin with.
pub handled-EndsBy :
    (heap : List ℕ) (flag : ℕ) (file : List ℕ) (es : List Raw) (pos : ℕ) (s : State)
    → LaidOut pos es
    → s.0.last_complete_trx_end_pos ≤ pos
    → EndsBy (pos + length (bytes es)) (handled heap flag file pos es s)
handled-EndsBy heap flag file [] pos s v low = omega arith
handled-EndsBy heap flag file ((h, body) ∷ es) pos s (h_fits, next, v) low =
    onward (at_event heap flag file h pos s) (at_event-MovesTo heap flag file h pos s)
      (λ s' l. handled-EndsBy heap flag file es h.next_position s' v l)
  where
    reach :
        h.next_position + length (bytes es) ≡ pos + length ((flush_header h ++ body) ++ bytes es)
    reach = omega (
      arith,
      next,
      length-append (flush_header h ++ body) (bytes es),
      length-append (flush_header h) body,
      length-flush_header h,
    )

    onward :
        (o : Option State)
        → MovesTo h s o
        → ((s' : State)
            → end_of s' ≤ h.next_position
            → EndsBy
                (h.next_position + length (bytes es))
                (handled heap flag file h.next_position es s'))
        → EndsBy (pos + length ((flush_header h ++ body) ++ bytes es)) (elim o [
          | none ↦ Scanned.crashed
          | some s' ↦ handled heap flag file h.next_position es s'
        ])
    onward none m again = tt
    onward (some s') (inl same) again =
        subst (λ l. EndsBy l (handled heap flag file h.next_position es s')) reach
          (again s' (omega (arith, same, low, next)))
    onward (some s') (inr here) again =
        subst (λ l. EndsBy l (handled heap flag file h.next_position es s')) reach
          (again s' (omega (arith, here)))
