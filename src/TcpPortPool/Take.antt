-- ===== src/TcpPortPool/Take.antt =====
-- `take_port`: what it takes, and that it ends.
use oblogproxy.Common.{
  ℕ, zero, suc, ◌+◌, ◌%◌, ◌^◌, ◌≤◌, ◌<◌, ◌≡◌, ◌∙◌, refl, sym, ap, subst, List, Option, none, some,
  Bool, true, false, ltb, set, arith, inl, inr, Bool-cases, ltb→lt, ◌⊎◌,
}
use oblogproxy.TcpPortPool.{
  TcpPortPool, InstanceState, test, all, scan, port_at, next_bit, rewind, take_port, after_scan,
  between_scans, Outcome,
}
use oblogproxy.TcpPortPool.Bits.{IsValid, test-set, test-set_keeps, all-test, test-all}

-- `q` is `p` with more ports marked.
pub record Kept (p q : TcpPortPool) : Type 0 where
  pub same_start : q.start_tcp_port ≡ p.start_tcp_port
  pub same_num : q.reserved_ports_num ≡ p.reserved_ports_num
  pub keeps : (i : ℕ) → test p.port_bits i ≡ true → test q.port_bits i ≡ true

-- The port at `i` was free in `p`, and is marked in `q`.
pub record TakesAt (p q : TcpPortPool) (port i : ℕ) : Type 0 where
  pub in_range : i < p.reserved_ports_num
  pub is_port : port ≡ port_at p i
  pub was_free : test p.port_bits i ≡ false
  pub is_marked : test q.port_bits i ≡ true

abbrev Scanned : TcpPortPool → Option ℕ × TcpPortPool × ℕ → Type 0
Scanned p (some port, q, t) = Kept p q × ((i : ℕ) × TakesAt p q port i)
Scanned p (none, q, t) =
    Kept p q × ((i : ℕ) → p.bit_index ≤ i → i < p.reserved_ports_num → test q.port_bits i ≡ true)

leb-split : (a b : ℕ) → a ≤ b → (a ≡ b) ⊎ (a + 1 ≤ b)
leb-split a b h = ground arith

pub true-false : ¬ (true ≡ false)
true-false e = cc

free-before : (bs : List Bool) (i j : ℕ) → test (set bs i true) j ≡ false → test bs j ≡ false
free-before bs i j h = elim (Bool-cases (test bs j)) [
  | inl marked ↦ elim (true-false (sym (test-set_keeps bs i j marked) ∙ h)) [ ]
  | inr free ↦ free
]

abbrev mark : TcpPortPool → TcpPortPool
mark p = record p { port_bits = set p.port_bits p.bit_index true }

outside :
    (p : TcpPortPool) (i : ℕ)
    → ltb p.bit_index p.reserved_ports_num ≡ false
    → p.bit_index ≤ i
    → ¬ (i < p.reserved_ports_num)
outside p i past from to = ground arith

-- A step past a port that is marked already, or by the step.
module _ (p : TcpPortPool) where
  Scanned-skip :
      (r : Option ℕ × TcpPortPool × ℕ)
      → test p.port_bits p.bit_index ≡ true
      → Scanned (next_bit p) r
      → Scanned p r
  Scanned-skip (some port, q, t) marked (kept, (i, takes)) = (
    record { same_start = kept.same_start; same_num = kept.same_num; keeps = kept.keeps },
    (
      i,
      record {
        in_range = takes.in_range;
        is_port = takes.is_port;
        was_free = takes.was_free;
        is_marked = takes.is_marked;
      },
    ),
  )
  Scanned-skip (none, q, t) marked (kept, every) = (
    record { same_start = kept.same_start; same_num = kept.same_num; keeps = kept.keeps },
    λ i from to. elim (leb-split p.bit_index i from) [
      | inl here ↦ subst (λ j. test q.port_bits j ≡ true) here (kept.keeps p.bit_index marked)
      | inr later ↦ every i later to
    ],
  )

  Scanned-refuse :
      (r : Option ℕ × TcpPortPool × ℕ)
      → Scanned (record p { port_bits = set p.port_bits p.bit_index true }) r
      → Scanned p r
  Scanned-refuse (some port, q, t) (kept, (i, takes)) = (
    record {
      same_start = kept.same_start;
      same_num = kept.same_num;
      keeps = λ j h. kept.keeps j (test-set_keeps p.port_bits p.bit_index j h);
    },
    (
      i,
      record {
        in_range = takes.in_range;
        is_port = takes.is_port;
        was_free = free-before p.port_bits p.bit_index i takes.was_free;
        is_marked = takes.is_marked;
      },
    ),
  )
  Scanned-refuse (none, q, t) (kept, every) = (
    record {
      same_start = kept.same_start;
      same_num = kept.same_num;
      keeps = λ j h. kept.keeps j (test-set_keeps p.port_bits p.bit_index j h);
    },
    every,
  )

via : (p : TcpPortPool) (s r : Option ℕ × TcpPortPool × ℕ) → s ≡ r → Scanned p r → Scanned p s
via p s r e h = subst (Scanned p) (sym e) h

module _ (used : ℕ → ℕ → Bool) where
  scan-Scanned :
      (n t : ℕ) (p : TcpPortPool)
      → p.reserved_ports_num ≤ p.bit_index + n
      → Scanned p (scan used n t p)
  unfolding scan
  scan-Scanned zero t p enough = (
    record { same_start = refl; same_num = refl; keeps = λ i h. h },
    λ i from to. elim (too_far i from to) [ ],
  )
    where
      too_far : (i : ℕ) → p.bit_index ≤ i → ¬ (i < p.reserved_ports_num)
      too_far i from to = omega arith
  scan-Scanned (suc n) t p enough = elim (Bool-cases (ltb p.bit_index p.reserved_ports_num)) [
    | inr past ↦
        via p (scan used (suc n) t p) (none, p, t) (rw past refl)
          (
            record { same_start = refl; same_num = refl; keeps = λ i h. h },
            λ i from to. elim (outside p i past from to) [ ],
          )
    | inl inside ↦ elim (Bool-cases (test p.port_bits p.bit_index)) [
      | inl marked ↦
          via p (scan used (suc n) t p) (scan used n t (next_bit p)) (rw (inside, marked) refl) (
            Scanned-skip p (scan used n t (next_bit p)) marked
              (scan-Scanned n t (next_bit p) (omega arith)))
      | inr free ↦ elim (Bool-cases (used t (port_at p p.bit_index))) [
        | inl busy ↦
            via p (scan used (suc n) t p) (scan used n (t + 1) (next_bit (mark p)))
              (rw (inside, free, busy) refl)
              (Scanned-refuse p (scan used n (t + 1) (next_bit (mark p))) (
                Scanned-skip (mark p) (scan used n (t + 1) (next_bit (mark p)))
                  (test-set p.port_bits p.bit_index)
                  (scan-Scanned n (t + 1) (next_bit (mark p)) (omega arith))))
        | inr unused ↦
            via p (scan used (suc n) t p) (some (port_at p p.bit_index), mark p, t + 1)
              (rw (inside, free, unused) refl)
              (
                record {
                  same_start = refl;
                  same_num = refl;
                  keeps = λ j h. test-set_keeps p.port_bits p.bit_index j h;
                },
                (
                  p.bit_index,
                  record {
                    in_range = ltb→lt p.bit_index p.reserved_ports_num inside;
                    is_port = refl;
                    was_free = free;
                    is_marked = test-set p.port_bits p.bit_index;
                  },
                ),
              )
      ]
    ]
  ]

all-rest :
    (p q : TcpPortPool)
    → IsValid p
    → Kept p q
    → ((i : ℕ) → i < p.reserved_ports_num → test q.port_bits i ≡ true)
    → (i : ℕ) → test q.port_bits i ≡ true
all-rest p q v kept every i = elim (Bool-cases (ltb i p.reserved_ports_num)) [
  | inl inside ↦ every i (ltb→lt i p.reserved_ports_num inside)
  | inr past ↦ kept.keeps i (v.behind i (not_less i p.reserved_ports_num past))
]
  where
    not_less : (a b : ℕ) → ltb a b ≡ false → b ≤ a
    not_less a b h = ground arith

-- How a call of `take_port` that does not reset ports ends: with a port of the range that was free
-- and is marked now, or with every port marked.
abbrev pub Ends : TcpPortPool → Outcome × TcpPortPool → Type 0
Ends p (Outcome.taken port, q) = (i : ℕ) × TakesAt p q port i
Ends p (Outcome.failed, q) = (i : ℕ) → test q.port_bits i ≡ true
Ends p (Outcome.unfinished, q) = ⊥

Kept-IsValid : (p q : TcpPortPool) → IsValid p → Kept p q → IsValid (rewind q)
Kept-IsValid p q v kept = record {
  behind = λ i h. kept.keeps i (v.behind i (subst (λ n. n ≤ i) kept.same_num h));
  range_fits = omega (arith, kept.same_num, kept.same_start, v.range_fits);
}

Ends-later :
    (p q : TcpPortPool) (r : Outcome × TcpPortPool) → Kept p q → Ends (rewind q) r → Ends p r
Ends-later p q (Outcome.taken port, s) kept (i, takes) = (
  i,
  record {
    in_range = omega (arith, takes.in_range, kept.same_num);
    is_port = takes.is_port ∙ ap (λ n. (n + i) % 2 ^ 16) kept.same_start;
    was_free = elim (Bool-cases (test p.port_bits i)) [
      | inl marked ↦ elim (true-false (sym (kept.keeps i marked) ∙ takes.was_free)) [ ]
      | inr free ↦ free
    ];
    is_marked = takes.is_marked;
  },
)
Ends-later p q (Outcome.failed, s) kept every = every
Ends-later p q (Outcome.unfinished, s) kept h = h

into : (p : TcpPortPool) (s r : Outcome × TcpPortPool) → s ≡ r → Ends p r → Ends p s
into p s r e h = subst (Ends p) (sym e) h

module _ (used : ℕ → ℕ → Bool) (reported : List (InstanceState × ℕ)) where
  abbrev take : ℕ → ℕ → TcpPortPool → Outcome × TcpPortPool
  take = take_port used reported false

  take-full :
      (n t : ℕ) (p : TcpPortPool)
      → ((i : ℕ) → test p.port_bits i ≡ true)
      → Ends p (take (suc n) t p)
  unfolding take_port
  take-full n t p every =
      into p (take (suc n) t p) (Outcome.failed, p) (rw (all-test p.port_bits every) refl) every

  -- One round: it ends with a port, or goes on with what the scan left.
  take-round :
      (n t : ℕ) (p : TcpPortPool)
      → ((t' : ℕ) (q : TcpPortPool)
          → Kept p q
          → ((i : ℕ) → p.bit_index ≤ i → i < p.reserved_ports_num → test q.port_bits i ≡ true)
          → Ends p (take n t' (rewind q)))
      → Ends p (take (suc n) t p)
  unfolding take_port
  take-round n t p goes_on = elim (Bool-cases (all p.port_bits)) [
    | inl full ↦
        into p (take (suc n) t p) (Outcome.failed, p) (rw full refl) (test-all p.port_bits full)
    | inr free ↦ into p (take (suc n) t p) _ (rw free refl) (
        after (scan used p.reserved_ports_num t p)
          (scan-Scanned used p.reserved_ports_num t p (omega arith)))
  ]
    where
      after :
          (r : Option ℕ × TcpPortPool × ℕ)
          → Scanned p r
          → Ends p (after_scan (take n) (between_scans used reported false) r)
      after (some port, q, t') (kept, takes) = takes
      after (none, q, t') (kept, every) = goes_on t' q kept every

  take-rewound :
      (n t : ℕ) (p : TcpPortPool) → IsValid p → p.bit_index ≡ 0 → Ends p (take (suc (suc n)) t p)
  take-rewound n t p v start = take-round (suc n) t p (λ t' q kept every.
      Ends-later p q (take (suc n) t' (rewind q)) kept
        (take-full n t' (rewind q) (all-rest p q v kept (λ i to. every i (from i) to))))
    where
      from : (i : ℕ) → p.bit_index ≤ i
      from i = omega (arith, start)

-- In a pool whose ports behind the reserved ones are marked, three rounds are enough: a call of
-- `take_port` that does not reset ports ends with a port of the range that was free and is marked
-- from now on, or fails with every port marked, whatever the system answers.
pub take_port-Ends :
    (used : ℕ → ℕ → Bool) (reported : List (InstanceState × ℕ)) (n t : ℕ) (p : TcpPortPool)
    → IsValid p
    → Ends p (take_port used reported false (3 + n) t p)
take_port-Ends used reported n t p v =
    subst (λ k. Ends p (take_port used reported false k t p)) (three n)
      (take-round used reported (suc (suc n)) t p (λ t' q kept every.
        Ends-later p q (take used reported (suc (suc n)) t' (rewind q)) kept
          (take-rewound used reported n t' (rewind q) (Kept-IsValid p q v kept) refl)))
  where
    three : (m : ℕ) → suc (suc (suc m)) ≡ 3 + m
    three m = omega arith
