-- ===== src/Tests/Selections.antt =====
-- The selection of nodes and instances at concrete inputs; all ratios are whole percents.
use oblogproxy.Common.{
  ℕ, ◌+◌, ◌-◌, ◌*◌, ◌/◌, ◌≡◌, refl, List, [], ◌∷◌, true, false, some, arith, ltb, leb, ◌==◌,
  if◌then◌else◌,
}
use oblogproxy.Selection.{Floats, Node, InstanceMeta, Config, BinlogEntry}
use oblogproxy.Selection.Master.{select_master_instance}
use oblogproxy.Selection.Elected.{Serves, select_master_instance-Serves}
use oblogproxy.Selection.Point.{filter_instance_by_initial_point}
use oblogproxy.Selection.Closest.{Closest, filter_instance_by_initial_point-Closest}

abbrev whole_numbers : Floats
whole_numbers = record {
  Double = ℕ;
  Float = ℕ;
  lt = ltb;
  percent = λ p. p;
  rest_of = λ r. 100 - r;
  one_minus = λ w. 100 - w;
  of_nat = λ n. n;
  add = λ a b. a + b;
  sub = λ a b. a - b;
  mul = λ a b. a * b;
  div = λ a b. a / b;
  not_positive = λ a. leb a 0;
}

abbrev node : ℕ → ℕ → Node ℕ
node id cpu = record {
  id = id ∷ [];
  ip = b'1' ∷ id ∷ [];
  zone = b'z' ∷ [];
  group = [];
  region = b'r' ∷ [];
  cpu_used_ratio = cpu;
  mem_used_ratio = 10;
  disk_used_ratio = 10;
  mem_total_size_mb = 65536;
  mem_used_size_mb = 1024;
  disk_total_size_mb = 102400;
  disk_used_size_mb = 0;
  network_rx_bytes = 0;
  network_wx_bytes = 0;
}

abbrev meta : InstanceMeta
meta = record {
  ip = [];
  zone = b'z' ∷ [];
  group = [];
  region = [];
  memory_limit = b'4' ∷ b'G' ∷ [];
  binlog_expire_logs_size = 0;
}

abbrev config : Config
config = record {
  enable_resource_check = true;
  node_cpu_limit_threshold_percent = 80;
  node_mem_limit_threshold_percent = 80;
  node_disk_limit_threshold_percent = 80;
  cpu_mem_disk_net_weighted = [];
}

-- The first node is busy, so that the second one is chosen.
abbrev nodes : List (Node ℕ)
nodes = node b'7' 95 ∷ node b'8' 20 ∷ []

abbrev entry : ℕ → ℕ → BinlogEntry
entry name start_timestamp = record {
  instance_name = name ∷ [];
  entry_ip = b'1' ∷ [];
  node_id = name ∷ [];
  is_dropped = false;
  start_timestamp = start_timestamp;
}

abbrev running : List BinlogEntry
running = entry b'a' 40 ∷ entry b'b' 60 ∷ entry b'c' 90 ∷ []

-- Instance `a` starts at 40, `b` at 60 and so on, and the last version of each is 500.
abbrev boundary : List ℕ → ℕ × ℕ
boundary [] = (0, 0)
boundary (c ∷ cs) = ((c - 95) * 20, 500)

-- The node of `a` is busy.
abbrev node_of : List ℕ → Node ℕ
node_of [] = node b'0' 0
node_of (c ∷ cs) = node c (if c == b'a' then 90 else 30)

b_elected :
    select_master_instance whole_numbers node_of boundary config 600 running 70
    ≡ some (entry b'b' 60)
unfolding select_master_instance
b_elected = refl

select_master_instance-Serves_example :
    Serves whole_numbers node_of boundary config 600 running 70 (entry b'b' 60)
select_master_instance-Serves_example =
    select_master_instance-Serves whole_numbers node_of boundary config 600 running 70
      (entry b'b' 60) b_elected

filter_instance_by_initial_point-Closest_example :
    (c : BinlogEntry) × (filter_instance_by_initial_point 70 running ≡ some c)
    × Closest 70 running c
filter_instance_by_initial_point-Closest_example =
    filter_instance_by_initial_point-Closest 70 (omega arith) (entry b'a' 40)
      (entry b'b' 60 ∷ entry b'c' 90 ∷ []) (omega arith, (omega arith, (omega arith, tt)))
      (refl, (refl, (refl, tt)))
