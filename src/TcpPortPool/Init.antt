-- ===== src/TcpPortPool/Init.antt =====
-- What `init` leaves.
use oblogproxy.Common.{
  ℕ, zero, suc, ◌+◌, ◌-◌, ◌%◌, ◌^◌, ◌≤◌, ◌<◌, ◌≡◌, refl, List, [], ◌∷◌, none, some, Bool, true,
  false, ltb, ◌==◌, arith, ◌⊎◌, replicate, inl, inr, Bool-cases, ltb→lt,
}
use oblogproxy.TcpPortPool.{
  TcpPortPool, InstanceState, holds_port, test, set_from, mark_port, mark_reported, init_pool,
  new_tcp_port_pool, port_count,
}
use oblogproxy.TcpPortPool.Bits.{IsValid, test-set_keeps}

test-set_from : (n : ℕ) (bs : List Bool) (i : ℕ) → n ≤ i → test (set_from n bs) i ≡ true
unfolding set_from
test-set_from n [] i h = refl
test-set_from zero (b ∷ bs) zero h = refl
test-set_from zero (b ∷ bs) (suc i) h = test-set_from zero bs i (omega arith)
test-set_from (suc n) (b ∷ bs) zero h = elim h [ ]
test-set_from (suc n) (b ∷ bs) (suc i) h = test-set_from n bs i (omega arith)

mark_port-IsValid : (port : ℕ) (p : TcpPortPool) → IsValid p → IsValid (mark_port port true p)
unfolding mark_port
mark_port-IsValid port p v =
    elim (Bool-cases (ltb ((port + 2 ^ 16 - p.start_tcp_port) % 2 ^ 16) port_count)) [
      | inl inside ↦ rw inside (record {
        behind = λ i h.
            test-set_keeps p.port_bits ((port + 2 ^ 16 - p.start_tcp_port) % 2 ^ 16) i
              (v.behind i h);
        range_fits = v.range_fits;
      })
      | inr outside ↦ rw outside v
    ]

mark_reported-IsValid :
    (sel : InstanceState → Bool) (es : List (InstanceState × ℕ)) (p : TcpPortPool)
    → IsValid p
    → IsValid (mark_reported sel es p)
unfolding mark_reported
mark_reported-IsValid sel [] p v = v
mark_reported-IsValid sel ((state, port) ∷ es) p v = elim (Bool-cases (sel state)) [
  | inl chosen ↦
      rw chosen (mark_reported-IsValid sel es (mark_port port true p) (mark_port-IsValid port p v))
  | inr other ↦ rw other (mark_reported-IsValid sel es p v)
]

-- `init` of a new pool fails exactly if no port, more than 1024 ports or a port above 65535 is asked
-- for. If not, the indices behind the reserved ones are marked, whatever the instances are.
pub init_pool-IsValid :
    (reported : List (InstanceState × ℕ)) (start num : ℕ)
    → ((init_pool reported (new_tcp_port_pool start num) ≡ none)
        × ((num ≡ 0) ⊎ ((port_count < num) ⊎ (65535 < start + num))))
      ⊎ ((q : TcpPortPool) × (init_pool reported (new_tcp_port_pool start num) ≡ some q)
          × IsValid q
          × (0 < num)
          × (num ≤ port_count)
          × (start + num ≤ 65535))
unfolding init_pool
init_pool-IsValid reported start num = elim (Bool-cases (num == 0)) [
  | inl none_asked ↦ inl (rw none_asked refl, inl (eq num none_asked))
  | inr some_asked ↦ elim (Bool-cases (ltb port_count num)) [
    | inl many ↦ inl (rw (some_asked, many) refl, inr (inl (ltb→lt port_count num many)))
    | inr few ↦ elim (Bool-cases (ltb 65535 (start + num))) [
      | inl high ↦
          inl (rw (some_asked, few, high) refl, inr (inr (ltb→lt 65535 (start + num) high)))
      | inr low ↦ inr (
        mark_reported holds_port reported made,
        rw (some_asked, few, low) refl,
        mark_reported-IsValid holds_port reported made (record {
          behind = test-set_from num (replicate port_count false);
          range_fits = in_range low;
        }),
        positive num some_asked,
        not_less num port_count few,
        not_less (start + num) 65535 low,
      )
    ]
  ]
]
  where
    made : TcpPortPool
    made = record (new_tcp_port_pool start num) {
      port_bits = set_from num (replicate port_count false);
    }

    eq : (n : ℕ) → (n == 0) ≡ true → n ≡ 0
    eq n h = ground arith

    positive : (n : ℕ) → (n == 0) ≡ false → 0 < n
    positive n h = ground arith

    not_less : (a b : ℕ) → ltb b a ≡ false → a ≤ b
    not_less a b h = ground arith

    in_range : ltb 65535 (start + num) ≡ false → start + num < 2 ^ 16
    in_range h = omega (arith, not_less (start + num) 65535 h)
