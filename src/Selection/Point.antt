-- ===== src/Selection/Point.antt =====
-- `SelectionStrategy::filter_instance_by_initial_point` of binlog/selection_strategy.cpp: the instance
-- to start from. An `int64_t` is its 64-bit word: it is negative from 2 ^ 63 on.
use oblogproxy.Common.{
  ℕ, ◌+◌, ◌-◌, ◌%◌, ◌^◌, List, [], ◌∷◌, false, if◌then◌else◌, ◌&&◌, Option, none, some, ltb, leb,
}
use oblogproxy.Selection.{BinlogEntry, is_empty}

abbrev pub no_entry : BinlogEntry
no_entry = record {
  instance_name = [];
  entry_ip = [];
  node_id = [];
  is_dropped = false;
  start_timestamp = 0;
}

-- `start_timestamp - instance->…->start_timestamp()`.
abbrev pub interval : ℕ → BinlogEntry → ℕ
interval start e = (start + 2 ^ 64 - e.start_timestamp) % 2 ^ 64

-- The instance with the least interval from 0 on, and that interval.
unfoldable pub less_than : ℕ → BinlogEntry × ℕ → BinlogEntry → BinlogEntry × ℕ
less_than start (less, least) e =
    if ltb (interval start e) (2 ^ 63) && ltb (interval start e) least
    then (e, interval start e)
    else (less, least)

-- The instance with the greatest interval below 0.
unfoldable pub greater_than : ℕ → BinlogEntry × ℕ → BinlogEntry → BinlogEntry × ℕ
greater_than start (greater, most) e =
    if leb (2 ^ 63) (interval start e) && ltb most (interval start e)
    then (e, interval start e)
    else (greater, most)

unfoldable pub point_loop :
    ℕ → List BinlogEntry → BinlogEntry × ℕ → BinlogEntry × ℕ → BinlogEntry × BinlogEntry
unfolding less_than greater_than
point_loop start [] less greater = (less.0, greater.0)
point_loop start (e ∷ es) less greater =
    point_loop start es (less_than start less e) (greater_than start greater e)

-- `instances.at(0)`, which throws if there is none.
abbrev pub first_entry : List BinlogEntry → Option BinlogEntry
first_entry [] = none
first_entry (e ∷ es) = some e

abbrev pub preferred : BinlogEntry × BinlogEntry → List BinlogEntry → Option BinlogEntry
preferred (less, greater) es =
    if is_empty less.instance_name
    then (if is_empty greater.instance_name then first_entry es else some greater)
    else some less

unfoldable pub filter_instance_by_initial_point : ℕ → List BinlogEntry → Option BinlogEntry
unfolding point_loop
filter_instance_by_initial_point start es =
    preferred (point_loop start es (no_entry, 2 ^ 63 - 1) (no_entry, 2 ^ 63)) es
