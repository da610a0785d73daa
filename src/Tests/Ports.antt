-- ===== src/Tests/Ports.antt =====
-- The port pool at concrete inputs: ports 2000 to 2002.
use oblogproxy.Common.{
  ℕ, zero, suc, ◌+◌, ◌≤◌, ◌<◌, ◌≡◌, ◌⊎◌, refl, [], ◌∷◌, none, some, Bool, true, false, arith,
}
use oblogproxy.TcpPortPool.{
  TcpPortPool, InstanceState, Outcome, test, take_port, scan, init_pool, new_tcp_port_pool,
  port_count,
}
use oblogproxy.TcpPortPool.Bits.{IsValid}
use oblogproxy.TcpPortPool.Take.{Ends, take_port-Ends}
use oblogproxy.TcpPortPool.Init.{init_pool-IsValid}
use oblogproxy.TcpPortPool.Exhausted.{take_port-Exhausted}

-- Port 2000 is taken already, and the system uses 2001.
abbrev pool : TcpPortPool
pool = record {
  start_tcp_port = 2000;
  reserved_ports_num = 3;
  port_bits = true ∷ false ∷ false ∷ true ∷ true ∷ [];
  bit_index = 2;
}

abbrev busy : ℕ → ℕ → Bool
busy zero port = true
busy (suc t) port = false

behind : (i : ℕ) → 3 ≤ i → test (true ∷ false ∷ false ∷ true ∷ true ∷ []) i ≡ true
behind zero h = elim (not_zero h) [ ]
  where
    not_zero : ¬ (3 ≤ zero)
    not_zero k = omega arith
behind (suc zero) h = elim (not_one h) [ ]
  where
    not_one : ¬ (3 ≤ suc zero)
    not_one k = omega arith
behind (suc (suc zero)) h = elim (not_two h) [ ]
  where
    not_two : ¬ (3 ≤ suc (suc zero))
    not_two k = omega arith
behind (suc (suc (suc zero))) h = refl
behind (suc (suc (suc (suc zero)))) h = refl
behind (suc (suc (suc (suc (suc i))))) h = refl

take_port-Ends_example : Ends pool (take_port busy [] false (3 + 0) 0 pool)
take_port-Ends_example =
    take_port-Ends busy [] 0 0 pool (record { behind = behind; range_fits = omega arith })

-- The second port is taken by the second answer.
taken_port : (take_port busy [] false 3 0 pool).0 ≡ Outcome.taken 2001
unfolding take_port scan
taken_port = refl

abbrev start : ℕ
start = 2000

abbrev asked : ℕ
asked = 3

init_pool-IsValid_example :
    ((init_pool ((InstanceState.running, 2001) ∷ []) (new_tcp_port_pool start asked) ≡ none)
      × ((asked ≡ 0) ⊎ ((port_count < asked) ⊎ (65535 < start + asked))))
    ⊎ ((q : TcpPortPool) × (init_pool
            ((InstanceState.running, 2001) ∷ [])
            (new_tcp_port_pool start asked)
          ≡ some q)
        × IsValid q
        × (0 < asked)
        × (asked ≤ port_count)
        × (start + asked ≤ 65535))
init_pool-IsValid_example = init_pool-IsValid ((InstanceState.running, 2001) ∷ []) start asked

-- The three ports are taken, and a return of port 2003 has cleared the index behind them.
abbrev exhausted_pool : TcpPortPool
exhausted_pool = record {
  start_tcp_port = 2000;
  reserved_ports_num = 3;
  port_bits = true ∷ true ∷ true ∷ false ∷ true ∷ [];
  bit_index = 0;
}

marked : (i : ℕ) → i < 3 → test exhausted_pool.port_bits i ≡ true
marked zero h = refl
marked (suc zero) h = refl
marked (suc (suc zero)) h = refl
marked (suc (suc (suc i))) h = elim (not_less h) [ ]
  where
    not_less : ¬ (suc (suc (suc i)) < 3)
    not_less k = omega arith

take_port-Exhausted_example : (take_port busy [] false 100 0 exhausted_pool).0 ≡ Outcome.unfinished
take_port-Exhausted_example = take_port-Exhausted busy [] 100 0 exhausted_pool 3 marked refl
