-- ===== src/TcpPortPool/Exhausted.antt =====
-- A pool with no port left that `take_port` waits on for ever.
use oblogproxy.Common.{
  ℕ, zero, suc, ◌<◌, ◌≡◌, ◌∙◌, refl, sym, List, none, Bool, true, false, ltb, inl, inr, Bool-cases,
  ltb→lt,
}
use oblogproxy.TcpPortPool.{
  TcpPortPool, InstanceState, test, all, scan, next_bit, rewind, take_port, Outcome,
}
use oblogproxy.TcpPortPool.Bits.{test-all}
use oblogproxy.TcpPortPool.Take.{true-false}

abbrev pub Exhausted : TcpPortPool → Type 0
Exhausted p = (i : ℕ) → i < p.reserved_ports_num → test p.port_bits i ≡ true

module _ (used : ℕ → ℕ → Bool) where
  scan-Exhausted :
      (n t : ℕ) (p : TcpPortPool)
      → Exhausted p
      → (k : ℕ) × (scan used n t p ≡ (none, record p { bit_index = k }, t))
  unfolding scan
  scan-Exhausted zero t p h = (p.bit_index, refl)
  scan-Exhausted (suc n) t p h = elim (Bool-cases (ltb p.bit_index p.reserved_ports_num)) [
    | inr past ↦ (p.bit_index, rw past refl)
    | inl inside ↦
        let (k, e) = scan-Exhausted n t (next_bit p) h in
        (k, rw (inside, h p.bit_index (ltb→lt p.bit_index p.reserved_ports_num inside)) e)
  ]

not_all : (bs : List Bool) (i : ℕ) → test bs i ≡ false → all bs ≡ false
not_all bs i free = elim (Bool-cases (all bs)) [
  | inl full ↦ elim (true-false (sym (test-all bs full i) ∙ free)) [ ]
  | inr other ↦ other
]

-- If all ports of the range are marked but some index is not, which can only be one behind the
-- range, a call of `take_port` that does not reset ports never ends, whatever the system answers.
pub take_port-Exhausted :
    (used : ℕ → ℕ → Bool) (reported : List (InstanceState × ℕ)) (n t : ℕ) (p : TcpPortPool) (i : ℕ)
    → Exhausted p
    → test p.port_bits i ≡ false
    → (take_port used reported false n t p).0 ≡ Outcome.unfinished
unfolding take_port
take_port-Exhausted used reported zero t p i h free = refl
take_port-Exhausted used reported (suc n) t p i h free =
    let (k, e) = scan-Exhausted used p.reserved_ports_num t p h in
    rw (not_all p.port_bits i free, e) (take_port-Exhausted used reported n t (rewind p) i h free)
