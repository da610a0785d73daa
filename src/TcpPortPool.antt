-- ===== src/TcpPortPool.antt =====
-- TcpPortPool (binlog/tcp_port_pool.h, tcp_port_pool.cpp): the ports that instances are given.
-- `used t port` is the answer of `is_port_in_used_actually` to its call number `t`, which binds a
-- socket; `t` is the number of calls so far. `reported` are the instances that the metadata database
-- gives, with the ports; the lock is left out, since each operation holds it from end to end.
pub mod Bits
pub mod Take
pub mod Init
pub mod Exhausted
use oblogproxy.Common.{
  ℕ, zero, suc, ◌+◌, ◌-◌, ◌%◌, ◌^◌, List, [], ◌∷◌, Option, none, some, Bool, true, false, not, ◌&&◌,
  ◌||◌, if◌then◌else◌, ltb, leb, ◌==◌, length, set, replicate,
}

pub record TcpPortPool : Type 0 where
  pub start_tcp_port : ℕ
  pub reserved_ports_num : ℕ
  pub port_bits : List Bool
  pub bit_index : ℕ

abbrev pub port_count : ℕ
port_count = 1024

-- `_port_bits.test(i)` of an index in range; the loops use no other.
abbrev pub test : List Bool → ℕ → Bool
test [] i = true
test (b ∷ bs) zero = b
test (b ∷ bs) (suc i) = test bs i

abbrev pub all : List Bool → Bool
all [] = true
all (b ∷ bs) = b && all bs

abbrev pub count : List Bool → ℕ
count [] = 0
count (b ∷ bs) = (if b then 1 else 0) + count bs

abbrev pub new_tcp_port_pool : (start_tcp_port reserved_ports_num : ℕ) → TcpPortPool
new_tcp_port_pool start_tcp_port reserved_ports_num = record {
  start_tcp_port = start_tcp_port;
  reserved_ports_num = reserved_ports_num;
  port_bits = replicate port_count false;
  bit_index = 0;
}

-- The index is a `uint16_t`.
unfoldable pub mark_port : ℕ → Bool → TcpPortPool → TcpPortPool
mark_port port is_in_used p =
    let index = (port + 2 ^ 16 - p.start_tcp_port) % 2 ^ 16 in
    if ltb index port_count then record p { port_bits = set p.port_bits index is_in_used } else p

unfoldable pub return_port : ℕ → TcpPortPool → TcpPortPool
unfolding mark_port
return_port port p = mark_port port false p

pub data InstanceState : Type 0 where
  init : InstanceState
  starting : InstanceState
  running : InstanceState
  failed : InstanceState
  stop : InstanceState
  drop : InstanceState
  offline : InstanceState
  paused : InstanceState
  grayscale : InstanceState
  logical_drop : InstanceState
  undefined : InstanceState

abbrev pub holds_port : InstanceState → Bool
holds_port InstanceState.init = true
holds_port InstanceState.starting = true
holds_port InstanceState.running = true
holds_port InstanceState.failed = false
holds_port InstanceState.stop = false
holds_port InstanceState.drop = false
holds_port InstanceState.offline = true
holds_port InstanceState.paused = false
holds_port InstanceState.grayscale = false
holds_port InstanceState.logical_drop = false
holds_port InstanceState.undefined = false

abbrev pub is_offline : InstanceState → Bool
is_offline InstanceState.init = false
is_offline InstanceState.starting = false
is_offline InstanceState.running = false
is_offline InstanceState.failed = false
is_offline InstanceState.stop = false
is_offline InstanceState.drop = false
is_offline InstanceState.offline = true
is_offline InstanceState.paused = false
is_offline InstanceState.grayscale = false
is_offline InstanceState.logical_drop = false
is_offline InstanceState.undefined = false

-- The ports of the instances in some states are marked.
unfoldable pub mark_reported :
    (InstanceState → Bool) → List (InstanceState × ℕ) → TcpPortPool → TcpPortPool
mark_reported sel [] p = p
mark_reported sel ((state, port) ∷ es) p =
    mark_reported sel es (if sel state then mark_port port true p else p)

-- The loop that makes the ports behind the reserved ones unavailable, from index `i` on.
unfoldable pub set_from : ℕ → List Bool → List Bool
set_from i [] = []
set_from zero (b ∷ bs) = true ∷ set_from zero bs
set_from (suc i) (b ∷ bs) = b ∷ set_from i bs

-- `none` is OMS_FAILED.
unfoldable pub init_pool : List (InstanceState × ℕ) → TcpPortPool → Option TcpPortPool
unfolding set_from mark_reported
init_pool reported p =
    if (p.reserved_ports_num == 0)
      || (ltb port_count p.reserved_ports_num
          || ltb 65535 (p.start_tcp_port + p.reserved_ports_num))
    then none
    else some (
        mark_reported holds_port reported
          (record p { port_bits = set_from p.reserved_ports_num p.port_bits }))

unfoldable pub available_port_count : TcpPortPool → ℕ
available_port_count p = port_count - count p.port_bits

abbrev pub port_at : TcpPortPool → ℕ → ℕ
port_at p i = (p.start_tcp_port + i) % 2 ^ 16

abbrev pub next_bit : TcpPortPool → TcpPortPool
next_bit p = record p { bit_index = p.bit_index + 1 }

-- How a call of `take_port` ends; `unfinished` is a loop cut off by its fuel.
pub data Outcome : Type 0 where
  taken : (port : ℕ) → Outcome
  failed : Outcome
  unfinished : Outcome

abbrev pub rewind : TcpPortPool → TcpPortPool
rewind p = record p { bit_index = 0 }

abbrev pub after_scan :
    (ℕ → TcpPortPool → Outcome × TcpPortPool)
    → (ℕ → TcpPortPool → TcpPortPool × ℕ)
    → Option ℕ × TcpPortPool × ℕ
    → Outcome × TcpPortPool
after_scan again between (some port, q, t) = (taken port, q)
after_scan again between (none, q, t) = again (between t q).1 (rewind (between t q).0)

module _ (used : ℕ → ℕ → Bool) where
  -- The inner loop of `take_port`, on fuel: the port taken or none, the pool, and the calls so far.
  unfoldable pub scan : ℕ → ℕ → TcpPortPool → Option ℕ × TcpPortPool × ℕ
  scan zero t p = (none, p, t)
  scan (suc n) t p =
      let marked = record p { port_bits = set p.port_bits p.bit_index true } in
      let port = port_at p p.bit_index in
      let skipped = scan n t (next_bit p) in
      let refused = scan n (t + 1) (next_bit marked) in
      if not (ltb p.bit_index p.reserved_ports_num)
      then (none, p, t)
      else if test p.port_bits p.bit_index
      then skipped
      else if used t port
      then refused
      else (some port, marked, t + 1)

  -- The loop of `test_and_reset_ports_in_used` over the next `n` indices from `i` on.
  unfoldable pub reset_unused : ℕ → ℕ → ℕ → TcpPortPool → TcpPortPool × ℕ
  reset_unused zero i t p = (p, t)
  reset_unused (suc n) i t p =
      let kept = reset_unused n (i + 1) t p in
      let asked = reset_unused n (i + 1) (t + 1) p in
      let cleared =
        reset_unused n (i + 1) (t + 1) (record p { port_bits = set p.port_bits i false }) in
      if not (test p.port_bits i) then kept else if used t (port_at p i) then asked else cleared

  unfoldable pub test_and_reset_ports_in_used :
      List (InstanceState × ℕ) → ℕ → TcpPortPool → TcpPortPool × ℕ
  unfolding reset_unused
  test_and_reset_ports_in_used reported t p =
      let reset = reset_unused p.reserved_ports_num 0 t p in
      (mark_reported is_offline reported reset.0, reset.1)

  abbrev pub between_scans : List (InstanceState × ℕ) → Bool → ℕ → TcpPortPool → TcpPortPool × ℕ
  between_scans reported test_and_reset t q =
      if test_and_reset then test_and_reset_ports_in_used reported t q else (q, t)

  -- The outer loop, on fuel.
  unfoldable pub take_port :
      List (InstanceState × ℕ) → Bool → ℕ → ℕ → TcpPortPool → Outcome × TcpPortPool
  take_port reported test_and_reset zero t p = (unfinished, p)
  take_port reported test_and_reset (suc n) t p =
      if all p.port_bits
      then (Outcome.failed, p)
      else after_scan (take_port reported test_and_reset n) (between_scans reported test_and_reset)
          (scan p.reserved_ports_num t p)
