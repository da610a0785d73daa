-- ===== src/Selection/Master.antt =====
-- `SelectionStrategy::select_master_instance` of binlog/selection_strategy.cpp. The versions at the
-- start of the first and of the last GTID sequence of an instance, its node, and the clock are what
-- the cluster and the system answer.
use oblogproxy.Common.{
  ℕ, ◌-◌, List, [], ◌∷◌, Bool, if◌then◌else◌, not, ◌||◌, ◌&&◌, Option, none, some, length, ltb,
  ◌==◌, map,
}
use oblogproxy.Selection.{Floats, Node, Config, BinlogEntry, keep, is_in}

-- An instance with the versions at the start of its boundary GTID sequences.
pub record InstanceWitGtid : Type 0 where
  pub instance_entry : BinlogEntry
  pub first_version : ℕ
  pub last_version : ℕ

abbrev pub below_checkpoint : ℕ → InstanceWitGtid → Bool
below_checkpoint checkpoint i = (i.first_version == 0) || ltb checkpoint i.first_version

unfoldable pub filter_master_by_min_checkpoint : List InstanceWitGtid → ℕ → List InstanceWitGtid
unfolding keep
filter_master_by_min_checkpoint is checkpoint =
    if checkpoint == 0
    then is
    else keep (λ (i : InstanceWitGtid). not (below_checkpoint checkpoint i)) is

abbrev pub threshold : ℕ → ℕ → ℕ
threshold now checkpoint =
    let delay = if ltb checkpoint now then now - checkpoint else 0 in
    if ltb 300 delay then 300 else delay

abbrev pub is_late : ℕ → ℕ → InstanceWitGtid → Bool
is_late now limit i = ltb i.last_version now && ltb limit (now - i.last_version)

unfoldable pub instances_with_delay : ℕ → ℕ → List InstanceWitGtid → List (List ℕ)
unfolding keep
instances_with_delay now checkpoint is =
    map (λ (i : InstanceWitGtid). i.instance_entry.instance_name)
      (keep (is_late now (threshold now checkpoint)) is)

unfoldable pub filter_master_by_delay : ℕ → List InstanceWitGtid → ℕ → List InstanceWitGtid
unfolding instances_with_delay keep is_in
filter_master_by_delay now is checkpoint =
    let late = instances_with_delay now checkpoint is in
    if length late == 0
    then is
    else if length late == length is
    then is
    else keep (λ (i : InstanceWitGtid). not (is_in i.instance_entry.instance_name late)) is

-- The loop over the checkpoints elects an instance that the next statement replaces by the front one.
abbrev pub elected : List InstanceWitGtid → Option BinlogEntry
elected [] = none
elected (i ∷ is) = some i.instance_entry

module _ (f : Floats) (node_of : List ℕ → Node f.Double) where
  abbrev pub is_busy : Config → InstanceWitGtid → Bool
  is_busy config i =
      f.lt (f.percent config.node_cpu_limit_threshold_percent)
        (node_of i.instance_entry.node_id).cpu_used_ratio

  unfoldable pub filter_master_by_resource : Config → List InstanceWitGtid → List InstanceWitGtid
  unfolding keep
  filter_master_by_resource config is =
      if config.enable_resource_check
      then keep (λ (i : InstanceWitGtid). not (is_busy config i)) is
      else is

  module _ (boundary_gtid_seq : List ℕ → ℕ × ℕ) where
    abbrev pub with_gtid : BinlogEntry → InstanceWitGtid
    with_gtid e = record {
      instance_entry = e;
      first_version = (boundary_gtid_seq e.instance_name).0;
      last_version = (boundary_gtid_seq e.instance_name).1;
    }

    -- `none` is OMS_FAILED: the first or the second filter leaves no instance.
    unfoldable pub select_master_instance : Config → ℕ → List BinlogEntry → ℕ → Option BinlogEntry
    unfolding filter_master_by_min_checkpoint filter_master_by_resource filter_master_by_delay
    select_master_instance config now running checkpoint =
        let is =
          filter_master_by_resource config
            (filter_master_by_min_checkpoint (map with_gtid running) checkpoint) in
        elected (filter_master_by_delay now is checkpoint)
