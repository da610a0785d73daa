-- ===== src/Event/Scan/Last.antt =====
-- What `seek_and_verify_complete_trx` finds in the events of a file.
use oblogproxy.Common.{
  ℕ, ◌+◌, ◌<◌, ◌≡◌, ◌≢◌, inl, inr, refl, sym, ap, ◌∙◌, subst, List, [], ◌∷◌, ◌++◌, some, Bool, true,
  false, Bool-cases, if◌then◌else◌, ◌||◌, ◌==◌, All, length, arith, length-append,
}
use oblogproxy.Event.Header.{
  OblogEventHeader, flush_header, length-flush_header, gtid_log_event, query_event,
}
use oblogproxy.Event.Checksum.{read_file, verify_event_checksum}
use oblogproxy.Event.Memory.{c_string}
use oblogproxy.Event.Gtid
use oblogproxy.Event.Query
use oblogproxy.Event.Scan.{
  BinlogTrxOverview, State, Scanned, binlog_magic, begin_var, same_bytes, complete,
  at_previous_gtids, at_gtid, at_query, at_event, verified, seek_and_verify_complete_trx,
}
use oblogproxy.Event.Scan.Layout.{bytes, LaidOut, handled}
use oblogproxy.Event.Scan.Verified.{seek_and_verify_complete_trx-handled}
use oblogproxy.Event.Scan.Trx.{
  Kind, Event, raws, Closes, open_gtid, ended_gtid, end_with, has_previous, overview_of, Is, Kinds,
}

or_false : (b : Bool) → (b || false) ≡ b
or_false true = refl
or_false false = refl

or_true : (b : Bool) → (b || true) ≡ true
or_true true = refl
or_true false = refl

same_bytes-eq : (s t : List ℕ) → same_bytes s t ≡ true → s ≡ t
same_bytes-eq [] [] e = refl
same_bytes-eq [] (b ∷ t) e = cc
same_bytes-eq (a ∷ s) [] e = cc
same_bytes-eq (a ∷ s) (b ∷ t) e = ground (arith, same_bytes-eq s t)

other_bytes : (s t : List ℕ) → s ≢ t → same_bytes s t ≡ false
other_bytes s t n = elim (Bool-cases (same_bytes s t)) [
  | inl same ↦ absurd (n (same_bytes-eq s t same))
  | inr other ↦ other
]

differs : (a b : ℕ) → a ≢ b → (a == b) ≡ false
differs a b n = ground (arith, n)

module _ (heap : List ℕ) (flag : ℕ) (file : List ℕ) where
  abbrev step : Kind → OblogEventHeader → ℕ → State → State
  step Kind.previous h pos s = at_previous_gtids h pos s
  step (Kind.gtid n) h pos s = (record s.0 { trx_need_truncated_gtid = n }, s.1)
  step Kind.ends h pos s = complete h pos s
  step Kind.passes h pos s = s

  at_gtid-read :
      (n : ℕ) (h : OblogEventHeader) (pos : ℕ) (s : State) (buffer : List ℕ) (e : Gtid.GtidLogEvent)
      → read_file file pos h.event_length ≡ some buffer
      → Gtid.deserialize flag buffer ≡ some e
      → e.gtid_txn_id ≡ n
      → at_gtid heap flag file h pos s ≡ some (step (Kind.gtid n) h pos s)
  unfolding at_gtid
  at_gtid-read n h pos s buffer e there parsed id = rw (at_gtid, there, parsed, id) refl

  at_query-read :
      (h : OblogEventHeader) (pos : ℕ) (s : State) (buffer : List ℕ) (e : Query.QueryEvent)
      (b : Bool)
      → read_file file pos h.event_length ≡ some buffer
      → Query.deserialize heap flag buffer ≡ some e
      → same_bytes (c_string e.sql_statment) begin_var ≡ b
      → at_query heap flag file h pos s ≡ some (if b then s else complete h pos s)
  unfolding at_query
  at_query-read h pos s buffer e b there parsed same = rw (at_query, there, parsed, same) refl

  at_event-gtid :
      (h : OblogEventHeader) (pos : ℕ) (s : State)
      → h.type_code ≡ gtid_log_event
      → at_event heap flag file h pos s ≡ at_gtid heap flag file h pos s
  unfolding at_event
  at_event-gtid h pos s e = rw e refl

  at_event-query :
      (h : OblogEventHeader) (pos : ℕ) (s : State)
      → h.type_code ≡ query_event
      → at_event heap flag file h pos s ≡ at_query heap flag file h pos s
  unfolding at_event
  at_event-query h pos s e = rw e refl

  at_event-step :
      (k : Kind) (h : OblogEventHeader) (pos : ℕ) (s : State)
      → Is heap flag file pos h k
      → at_event heap flag file h pos s ≡ some (step k h pos s)
  unfolding at_event
  at_event-step Kind.previous h pos s e = rw e refl
  at_event-step (Kind.gtid n) h pos s (e, buffer, event, there, parsed, id) =
      at_event-gtid h pos s e ∙ at_gtid-read n h pos s buffer event there parsed id
  at_event-step Kind.ends h pos s (inl e) = rw e refl
  at_event-step Kind.ends h pos s (inr (e, buffer, event, there, parsed, other)) =
      at_event-query h pos s e
      ∙ at_query-read h pos s buffer event false there parsed
          (other_bytes (c_string event.sql_statment) begin_var other)
  at_event-step Kind.passes h pos s (inl (a, b, c, d)) =
      rw
        (
          differs h.type_code _ a,
          differs h.type_code _ b,
          differs h.type_code _ c,
          differs h.type_code _ d,
        )
        refl
  at_event-step Kind.passes h pos s (inr (e, buffer, event, there, parsed, begins)) =
      at_event-query h pos s e
      ∙ at_query-read h pos s buffer event true there parsed
          (ap (λ t. same_bytes t begin_var) begins)

  abbrev run : ℕ → List Event → State → State
  run pos [] s = s
  run pos ((k, (h, body)) ∷ es) s = run h.next_position es (step k h pos s)

  handled-run :
      (es : List Event) (pos : ℕ) (s : State)
      → Kinds heap flag file pos es
      → handled heap flag file pos (raws es) s ≡ Scanned.finished (run pos es s)
  handled-run [] pos s v = refl
  handled-run ((k, (h, body)) ∷ es) pos s (is_k, v) =
      rw (handled, at_event-step k h pos s is_k) (handled-run es h.next_position (step k h pos s) v)

  run-open_gtid :
      (es : List Event) (pos : ℕ) (s : State)
      → (run pos es s).0.trx_need_truncated_gtid ≡ open_gtid s.0.trx_need_truncated_gtid es
  run-open_gtid [] pos s = refl
  run-open_gtid ((Kind.previous, (h, body)) ∷ es) pos s =
      run-open_gtid es h.next_position (step Kind.previous h pos s)
  run-open_gtid ((Kind.gtid n, (h, body)) ∷ es) pos s =
      run-open_gtid es h.next_position (step (Kind.gtid n) h pos s)
  run-open_gtid ((Kind.ends, (h, body)) ∷ es) pos s =
      run-open_gtid es h.next_position (step Kind.ends h pos s)
  run-open_gtid ((Kind.passes, (h, body)) ∷ es) pos s = run-open_gtid es h.next_position s

  run-ended_gtid :
      (es : List Event) (pos : ℕ) (s : State)
      → (run pos es s).0.last_complete_trx_gtid
        ≡ ended_gtid s.0.last_complete_trx_gtid s.0.trx_need_truncated_gtid es
  run-ended_gtid [] pos s = refl
  run-ended_gtid ((Kind.previous, (h, body)) ∷ es) pos s =
      run-ended_gtid es h.next_position (step Kind.previous h pos s)
  run-ended_gtid ((Kind.gtid n, (h, body)) ∷ es) pos s =
      run-ended_gtid es h.next_position (step (Kind.gtid n) h pos s)
  run-ended_gtid ((Kind.ends, (h, body)) ∷ es) pos s =
      run-ended_gtid es h.next_position (step Kind.ends h pos s)
  run-ended_gtid ((Kind.passes, (h, body)) ∷ es) pos s = run-ended_gtid es h.next_position s

  run-end_with :
      (es : List Event) (pos : ℕ) (s : State)
      → (run pos es s).0.trx_specify_truncated_end_pos
        ≡ end_with s.0.trx_specify_truncated_gtid s.0.trx_specify_truncated_end_pos
            s.0.trx_need_truncated_gtid es
  run-end_with [] pos s = refl
  run-end_with ((Kind.previous, (h, body)) ∷ es) pos s =
      run-end_with es h.next_position (step Kind.previous h pos s)
  run-end_with ((Kind.gtid n, (h, body)) ∷ es) pos s =
      run-end_with es h.next_position (step (Kind.gtid n) h pos s)
  run-end_with ((Kind.ends, (h, body)) ∷ es) pos s =
      run-end_with es h.next_position (step Kind.ends h pos s)
  run-end_with ((Kind.passes, (h, body)) ∷ es) pos s = run-end_with es h.next_position s

  run-specified :
      (es : List Event) (pos : ℕ) (s : State)
      → (run pos es s).0.trx_specify_truncated_gtid ≡ s.0.trx_specify_truncated_gtid
  run-specified [] pos s = refl
  run-specified ((Kind.previous, (h, body)) ∷ es) pos s =
      run-specified es h.next_position (step Kind.previous h pos s)
  run-specified ((Kind.gtid n, (h, body)) ∷ es) pos s =
      run-specified es h.next_position (step (Kind.gtid n) h pos s)
  run-specified ((Kind.ends, (h, body)) ∷ es) pos s =
      run-specified es h.next_position (step Kind.ends h pos s)
  run-specified ((Kind.passes, (h, body)) ∷ es) pos s = run-specified es h.next_position s

  run-previous_kept :
      (es : List Event) (pos : ℕ) (s : State)
      → s.0.has_previous_gtids_event ≡ true
      → (run pos es s).0.has_previous_gtids_event ≡ true
  run-previous_kept [] pos s e = e
  run-previous_kept ((Kind.previous, (h, body)) ∷ es) pos s e =
      run-previous_kept es h.next_position (step Kind.previous h pos s) refl
  run-previous_kept ((Kind.gtid n, (h, body)) ∷ es) pos s e =
      run-previous_kept es h.next_position (step (Kind.gtid n) h pos s) e
  run-previous_kept ((Kind.ends, (h, body)) ∷ es) pos s e =
      run-previous_kept es h.next_position (step Kind.ends h pos s) e
  run-previous_kept ((Kind.passes, (h, body)) ∷ es) pos s e =
      run-previous_kept es h.next_position s e

  run-has_previous :
      (es : List Event) (pos : ℕ) (s : State)
      → (run pos es s).0.has_previous_gtids_event
        ≡ (s.0.has_previous_gtids_event || has_previous es)
  run-has_previous [] pos s = sym (or_false s.0.has_previous_gtids_event)
  run-has_previous ((Kind.previous, (h, body)) ∷ es) pos s =
      run-previous_kept es h.next_position (step Kind.previous h pos s) refl
      ∙ sym (or_true s.0.has_previous_gtids_event)
  run-has_previous ((Kind.gtid n, (h, body)) ∷ es) pos s =
      run-has_previous es h.next_position (step (Kind.gtid n) h pos s)
  run-has_previous ((Kind.ends, (h, body)) ∷ es) pos s =
      run-has_previous es h.next_position (step Kind.ends h pos s)
  run-has_previous ((Kind.passes, (h, body)) ∷ es) pos s = run-has_previous es h.next_position s

  -- Where the last event that closes stands, and where it ends.
  abbrev Marks : ℕ → ℕ → State → Type 0
  Marks end start s = (s.0.last_complete_trx_end_pos ≡ end) × (s.1 ≡ start)

  run-Marks :
      (es : List Event) (pos end start : ℕ) (s : State)
      → All (λ (e : Event). ¬ Closes e.0) es
      → Marks end start s
      → Marks end start (run pos es s)
  run-Marks [] pos end start s none_close m = m
  run-Marks ((Kind.previous, (h, body)) ∷ es) pos end start s (c, cs) m = absurd (c tt)
  run-Marks ((Kind.gtid n, (h, body)) ∷ es) pos end start s (c, cs) m =
      run-Marks es h.next_position end start (step (Kind.gtid n) h pos s) cs m
  run-Marks ((Kind.ends, (h, body)) ∷ es) pos end start s (c, cs) m = absurd (c tt)
  run-Marks ((Kind.passes, (h, body)) ∷ es) pos end start s (c, cs) m =
      run-Marks es h.next_position end start s cs m

  step-Marks :
      (k : Kind) (h : OblogEventHeader) (pos : ℕ) (s : State)
      → Closes k
      → Marks h.next_position pos (step k h pos s)
  step-Marks Kind.previous h pos s c = (refl, refl)
  step-Marks (Kind.gtid n) h pos s c = elim c [ ]
  step-Marks Kind.ends h pos s c = (refl, refl)
  step-Marks Kind.passes h pos s c = elim c [ ]

  run-last :
      (before after : List Event) (k : Kind) (h : OblogEventHeader) (body : List ℕ) (pos : ℕ)
      (s : State)
      → LaidOut pos (raws (before ++ (k, (h, body)) ∷ after))
      → Closes k
      → All (λ (e : Event). ¬ Closes e.0) after
      → Marks h.next_position
          (pos + length (bytes (raws before)))
          (run pos (before ++ (k, (h, body)) ∷ after) s)
  run-last [] after k h body pos s v c none_close =
      subst (λ p. Marks h.next_position p (run h.next_position after (step k h pos s)))
        (omega arith)
        (run-Marks after h.next_position h.next_position pos (step k h pos s) none_close
          (step-Marks k h pos s c))
  run-last ((j, (g, other)) ∷ before) after k h body pos s (g_fits, next, v) c none_close =
      subst
        (λ p.
          Marks h.next_position p
            (run g.next_position (before ++ (k, (h, body)) ∷ after) (step j g pos s)))
        (omega (
          arith,
          next,
          length-append (flush_header g ++ other) (bytes (raws before)),
          length-append (flush_header g) other,
          length-flush_header g,
        ))
        (run-last before after k h body g.next_position (step j g pos s) v c none_close)

same_overview :
    (t : BinlogTrxOverview) (a : Bool) (b c d e f : ℕ)
    → t.has_previous_gtids_event ≡ a
    → t.last_complete_trx_end_pos ≡ b
    → t.last_complete_trx_gtid ≡ c
    → t.trx_need_truncated_gtid ≡ d
    → t.trx_specify_truncated_gtid ≡ e
    → t.trx_specify_truncated_end_pos ≡ f
    → t ≡ record {
      has_previous_gtids_event = a;
      last_complete_trx_end_pos = b;
      last_complete_trx_gtid = c;
      trx_need_truncated_gtid = d;
      trx_specify_truncated_gtid = e;
      trx_specify_truncated_end_pos = f;
    }
same_overview t a b c d e f h1 h2 h3 h4 h5 h6 = rw (← h1, ← h2, ← h3, ← h4, ← h5, ← h6) refl

-- On a file with the magic number and events one behind another, each with a header in range that
-- states where the event ends, and each of a kind that its type and, for a GTID or a query, what is
-- read at its place say, the scan needs one unit of fuel more than there are events. Where the event
-- at `h` is the previous GTIDs or ends a transaction, and none behind it does, the overview says whether
-- previous GTIDs were seen, where that event ends, which GTID the last transaction to end had, which
-- one is open, and where the last transaction with the GTID asked for ends. If previous GTIDs were
-- seen, the result is that of verifying that event, from its start; it is a success if not.
pub seek_and_verify_complete_trx-overview_of :
    (crc32 : List ℕ → ℕ) (fresh : ℕ → List ℕ) (heap : List ℕ) (flag : ℕ) (before after : List Event)
    (k : Kind) (h : OblogEventHeader) (body : List ℕ) (n : ℕ) (trx : BinlogTrxOverview)
    → length (fresh 4) ≡ 4
    → LaidOut 4 (raws (before ++ (k, (h, body)) ∷ after))
    → Kinds heap flag
        (binlog_magic ++ bytes (raws (before ++ (k, (h, body)) ∷ after)))
        4
        (before ++ (k, (h, body)) ∷ after)
    → Closes k
    → All (λ (e : Event). ¬ Closes e.0) after
    → length (raws (before ++ (k, (h, body)) ∷ after)) < n
    → seek_and_verify_complete_trx crc32 fresh heap flag
        (binlog_magic ++ bytes (raws (before ++ (k, (h, body)) ∷ after)))
        n
        trx
      ≡ (
        Scanned.finished (
          overview_of trx (before ++ (k, (h, body)) ∷ after) h.next_position,
          4 + length (bytes (raws before)),
        ),
        if trx.has_previous_gtids_event || has_previous (before ++ (k, (h, body)) ∷ after)
            then verify_event_checksum crc32
                (binlog_magic ++ bytes (raws (before ++ (k, (h, body)) ∷ after)))
                (4 + length (bytes (raws before)))
                true
            else some true,
      )
seek_and_verify_complete_trx-overview_of crc32 fresh heap flag before after k h body n trx sized v
      kinds closes none_close enough =
    let es = before ++ (k, (h, body)) ∷ after in
    let file = binlog_magic ++ bytes (raws es) in
    let (ends_there, starts_there) =
      run-last heap flag file before after k h body 4 (trx, 0) v closes none_close in
    let found =
      same_overview (run heap flag file 4 es (trx, 0)).0 _ _ _ _ _ _
        (run-has_previous heap flag file es 4 (trx, 0)) ends_there
        (run-ended_gtid heap flag file es 4 (trx, 0)) (run-open_gtid heap flag file es 4 (trx, 0))
        (run-specified heap flag file es 4 (trx, 0)) (run-end_with heap flag file es 4 (trx, 0)) in
    seek_and_verify_complete_trx-handled crc32 fresh heap flag (raws es) n trx sized v enough
    ∙ ap (verified crc32 fresh heap flag file) (handled-run heap flag file es 4 (trx, 0) kinds)
    ∙ ap
        (λ t.
          verified crc32 fresh heap flag file
            (Scanned.finished (t, (run heap flag file 4 es (trx, 0)).1)))
        found
    ∙ ap
        (λ p.
          verified crc32 fresh heap flag file
            (Scanned.finished (overview_of trx es h.next_position, p)))
        starts_there
