-- ===== src/Selection/Filters.antt =====
-- The filters of binlog/selection_strategy.cpp but the weighted one: on the slot that is asked for, on
-- the resources of a node, and on the region.
use oblogproxy.Common.{
  ℕ, ◌+◌, ◌-◌, ◌/◌, ◌%◌, ◌^◌, List, [], ◌∷◌, Bool, true, false, if◌then◌else◌, not, ◌&&◌, Option,
  none, some, length, take, ltb, leb, map,
}
use oblogproxy.DataType.Numbers.{atoi}
use oblogproxy.Text.Split.{eqb}
use oblogproxy.Selection.{
  Floats, Node, InstanceMeta, Config, BinlogEntry, same, is_empty, keep, is_in, distinct,
}

-- Is it OMS_OK, and the nodes that remain.
abbrev pub Filtered : Type 0 → Type 0
Filtered D = Bool × List (Node D)

abbrev pub nodes_taken : List BinlogEntry → List (List ℕ)
nodes_taken entries = map (λ (e : BinlogEntry). e.node_id) entries

abbrev pub has_region : List (List ℕ) → Bool
has_region [] = false
has_region (_ ∷ _) = true

unfoldable pub remove_instances_in_drop : List BinlogEntry → List BinlogEntry
unfolding keep
remove_instances_in_drop entries = keep (λ (e : BinlogEntry). not e.is_dropped) entries

module _ {D : Type 0} where
  -- A filter fails if no node remains.
  abbrev pub some_left : List (Node D) → Filtered D
  some_left [] = (false, [])
  some_left (n ∷ ns) = (true, n ∷ ns)

  abbrev pub filled : List (Node D) → Bool
  filled [] = false
  filled (n ∷ ns) = true

  abbrev pub has_two : List (Node D) → Bool
  has_two [] = false
  has_two (n ∷ ns) = filled ns

  unfoldable pub ip_filter : InstanceMeta → List (Node D) → Filtered D
  unfolding keep
  ip_filter meta nodes =
      if filled nodes && not (is_empty meta.ip)
      then some_left (keep (λ (n : Node D). same meta.ip n.ip) nodes)
      else (true, nodes)

  unfoldable pub zone_filter : InstanceMeta → List (Node D) → Filtered D
  unfolding keep
  zone_filter meta nodes =
      if filled nodes && not (is_empty meta.zone)
      then some_left (keep (λ (n : Node D). same meta.zone n.zone) nodes)
      else (true, nodes)

  unfoldable pub group_filter : InstanceMeta → List (Node D) → Filtered D
  unfolding keep
  group_filter meta nodes =
      if filled nodes && not (is_empty meta.group)
      then some_left (keep (λ (n : Node D). same meta.group n.group) nodes)
      else (true, nodes)

  -- `ip_region_mapping[ip]`: the region of the last node with that address, or a new empty one.
  unfoldable pub region_of : List ℕ → List (Node D) → List ℕ → List ℕ
  region_of ip [] found = found
  region_of ip (n ∷ ns) found = region_of ip ns (if eqb ip n.ip then n.region else found)

  abbrev pub regions_taken : List BinlogEntry → List (Node D) → List (List ℕ)
  regions_taken entries nodes = map (λ (e : BinlogEntry). region_of e.entry_ip nodes []) entries

  -- The regions of the nodes without an instance of the tenant.
  abbrev pub available_regions : List BinlogEntry → List (Node D) → List (List ℕ)
  available_regions entries nodes =
      keep (λ r. not (is_in r (regions_taken entries nodes)))
        (distinct (map (λ (n : Node D). n.region) nodes))

  -- The nodes in a region without an instance, or else those without one, unless each has one.
  abbrev pub spread : List BinlogEntry → List (Node D) → List (Node D)
  spread entries nodes =
      let available = available_regions entries nodes in
      if has_region available
      then keep (λ (n : Node D). is_in n.region available) nodes
      else if ltb (length (distinct (nodes_taken entries)))
          (length (distinct (map (λ (n : Node D). n.id) nodes)))
      then keep (λ (n : Node D). not (is_in n.id (nodes_taken entries))) nodes
      else nodes

  abbrev pub of_entries : List BinlogEntry → List (Node D) → List (Node D)
  of_entries [] nodes = nodes
  of_entries (e ∷ es) nodes = spread (e ∷ es) nodes

  -- The tenant's instances are what the cluster answers; `none` is a failed query.
  abbrev pub of_query : Option (List BinlogEntry) → List (Node D) → Filtered D
  of_query none nodes = (false, nodes)
  of_query (some entries) nodes = (true, of_entries (remove_instances_in_drop entries) nodes)

  unfoldable pub region_filter :
      Option (List BinlogEntry) → InstanceMeta → List (Node D) → Filtered D
  unfolding keep distinct region_of remove_instances_in_drop is_in
  region_filter query meta nodes =
      if has_two nodes
      then if is_empty meta.region
        then of_query query nodes
        else some_left (keep (λ (n : Node D). same meta.region n.region) nodes)
      else (true, nodes)

-- The last character of the limit is its unit; the numbers are unsigned, of 64 and 32 bits.
abbrev pub memory_limit_gb : InstanceMeta → ℕ
memory_limit_gb meta =
    if is_empty meta.memory_limit
    then 20
    else atoi (take (length meta.memory_limit - 1) meta.memory_limit)

abbrev pub difference : ℕ → ℕ → ℕ
difference a b = (a + 2 ^ 64 - b) % 2 ^ 64

module _ (f : Floats) where
  unfoldable pub meet_resource_needs : Config → InstanceMeta → Node f.Double → Bool
  unfolding atoi
  meet_resource_needs config meta node =
      f.lt node.cpu_used_ratio (f.percent config.node_cpu_limit_threshold_percent)
      && (f.lt node.mem_used_ratio (f.percent config.node_mem_limit_threshold_percent)
          && (f.lt node.disk_used_ratio (f.percent config.node_disk_limit_threshold_percent)
              && (leb (memory_limit_gb meta)
                    (difference node.mem_total_size_mb node.mem_used_size_mb / 1024 % 2 ^ 32)
                  && leb (meta.binlog_expire_logs_size / 1024 / 1024 / 1024)
                      (difference node.disk_total_size_mb node.disk_used_size_mb / 1024))))

  unfoldable pub resources_filter :
      Config → InstanceMeta → List (Node f.Double) → Bool × List (Node f.Double)
  unfolding keep
  resources_filter config meta nodes =
      if filled nodes && config.enable_resource_check
      then some_left (keep (meet_resource_needs config meta) nodes)
      else (true, nodes)
