-- ===== src/Event/Scan/Layout.antt =====
-- The scan of a file in which the events stand one behind another.
use oblogproxy.Common.{
  ℕ, zero, suc, ◌+◌, ◌<◌, ◌≤◌, ◌≡◌, ◌∙◌, refl, sym, ap, subst, List, [], ◌∷◌, ◌++◌, Option, none,
  some, length, arith, append_assoc, append-nil, length-append, lt→ltb, le→ltb,
}
use oblogproxy.Event.Header.{
  OblogEventHeader, IsHeader, flush_header, deserialize_header, common_header_length,
  deserialize_header-flush_header, length-flush_header,
}
use oblogproxy.Event.Checksum.{read_file}
use oblogproxy.Event.Verify.{read_file-append}
use oblogproxy.Event.Scan.{State, Scanned, at_event, scan_trx}

-- Events as they stand in a file: the header, and the bytes behind it.
abbrev pub Raw : Type 0
Raw = OblogEventHeader × List ℕ

abbrev pub bytes : List Raw → List ℕ
bytes [] = []
bytes ((h, body) ∷ es) = (flush_header h ++ body) ++ bytes es

-- Each header is in range, and states where the next event stands.
abbrev pub LaidOut : ℕ → List Raw → Type 0
LaidOut pos [] = Unit {0}
LaidOut pos ((h, body) ∷ es) =
    IsHeader h
    × (h.next_position ≡ pos + common_header_length + length body)
    × LaidOut h.next_position es

module _ (heap : List ℕ) (flag : ℕ) (file : List ℕ) where
  -- What the handling of the events, one after another, comes to.
  abbrev pub handled : ℕ → List Raw → State → Scanned State
  handled pos [] s = Scanned.finished s
  handled pos ((h, body) ∷ es) s = elim (at_event heap flag file h pos s) [
    | none ↦ Scanned.crashed
    | some s' ↦ handled h.next_position es s'
  ]

  pub scan_trx-handled :
      (n : ℕ) (es : List Raw) (before : List ℕ) (s : State)
      → length es < n
      → file ≡ before ++ bytes es
      → LaidOut (length before) es
      → scan_trx heap flag file n (length before) s ≡ handled (length before) es s
  unfolding scan_trx
  scan_trx-handled zero es before s enough e v = elim (none_below enough) [ ]
    where
      none_below : ¬ (length es < zero)
      none_below h = omega arith
  scan_trx-handled (suc n) [] before s enough e v =
      rw (le→ltb (length before) (length file) at_end) refl
    where
      at_end : length file ≤ length before
      at_end = omega (arith, ap length e, ap length (append-nil before))
  scan_trx-handled (suc n) ((h, body) ∷ es) before s enough e (h_fits, next, v) =
      rw (lt→ltb (length before) (length file) inside, read_header, read_fields)
        (both (at_event heap flag file h (length before) s)
          (goes_on (λ b s' e' v'. scan_trx-handled n es b s' (omega arith) e' v')))
    where
      inside : length before < length file
      inside = omega (
        arith,
        ap length e,
        length-append before ((flush_header h ++ body) ++ bytes es),
        length-append (flush_header h ++ body) (bytes es),
        length-append (flush_header h) body,
        length-flush_header h,
      )

      read_header : read_file file (length before) common_header_length ≡ some (flush_header h)
      read_header =
          rw (e, append_assoc (flush_header h) body (bytes es))
            (read_file-append common_header_length before (flush_header h) (body ++ bytes es)
              (length-flush_header h))

      read_fields : deserialize_header (flush_header h) ≡ some (h, [])
      read_fields = rw append-nil at (deserialize_header-flush_header h [] h_fits)

      later : length (before ++ (flush_header h ++ body)) ≡ h.next_position
      later = omega (
        arith,
        next,
        length-append before (flush_header h ++ body),
        length-append (flush_header h) body,
        length-flush_header h,
      )

      goes_on :
          ((b : List ℕ) (s' : State)
            → file ≡ b ++ bytes es
            → LaidOut (length b) es
            → scan_trx heap flag file n (length b) s' ≡ handled (length b) es s')
          → (s' : State)
          → scan_trx heap flag file n h.next_position s' ≡ handled h.next_position es s'
      goes_on again s' =
          subst (λ pos. scan_trx heap flag file n pos s' ≡ handled pos es s') later
            (again (before ++ (flush_header h ++ body)) s'
              (e ∙ sym (append_assoc before (flush_header h ++ body) (bytes es)))
              (subst (λ pos. LaidOut pos es) (sym later) v))

      both :
          (o : Option State)
          → ((s' : State)
              → scan_trx heap flag file n h.next_position s' ≡ handled h.next_position es s')
          → elim o [
            | none ↦ Scanned.crashed
            | some s' ↦ scan_trx heap flag file n h.next_position s'
          ]
            ≡ elim o [ none ↦ Scanned.crashed | some s' ↦ handled h.next_position es s' ]
      both none same = refl
      both (some s') same = same s'
