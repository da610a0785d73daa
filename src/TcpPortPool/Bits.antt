-- ===== src/TcpPortPool/Bits.antt =====
-- Bits of a bitset: setting one, all of them, and the pool's invariant.
use oblogproxy.Common.{
  ℕ, zero, suc, ◌+◌, ◌^◌, ◌≤◌, ◌<◌, ◌≡◌, refl, List, [], ◌∷◌, Bool, true, false, set,
}
use oblogproxy.TcpPortPool.{TcpPortPool, test, all}

pub test-set : (bs : List Bool) (i : ℕ) → test (set bs i true) i ≡ true
test-set [] i = refl
test-set (b ∷ bs) zero = refl
test-set (b ∷ bs) (suc i) = test-set bs i

-- A bit that is set stays set when another one is.
pub test-set_keeps : (bs : List Bool) (i j : ℕ) → test bs j ≡ true → test (set bs i true) j ≡ true
test-set_keeps [] i j h = refl
test-set_keeps (b ∷ bs) zero zero h = refl
test-set_keeps (b ∷ bs) zero (suc j) h = h
test-set_keeps (b ∷ bs) (suc i) zero h = h
test-set_keeps (b ∷ bs) (suc i) (suc j) h = test-set_keeps bs i j h

pub all-test : (bs : List Bool) → ((i : ℕ) → test bs i ≡ true) → all bs ≡ true
all-test [] h = refl
all-test (b ∷ bs) h = rw (h 0) (all-test bs (λ i. h (suc i)))

pub test-all : (bs : List Bool) → all bs ≡ true → (i : ℕ) → test bs i ≡ true
test-all [] h i = refl
test-all (true ∷ bs) h zero = refl
test-all (true ∷ bs) h (suc i) = test-all bs h i
test-all (false ∷ bs) h i = cc

-- The indices behind the reserved ones are marked, and the ports in the range are `uint16_t`.
pub record IsValid (p : TcpPortPool) : Type 0 where
  pub behind : (i : ℕ) → p.reserved_ports_num ≤ i → test p.port_bits i ≡ true
  pub range_fits : p.start_tcp_port + p.reserved_ports_num < 2 ^ 16
