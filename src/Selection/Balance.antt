-- ===== src/Selection/Balance.antt =====
-- `SelectionStrategy::load_balancing_node` over the nodes that are online.
use oblogproxy.Common.{List, [], ◌∷◌, true, false, Option, none, some}
use oblogproxy.Selection.{Floats, Node, InstanceMeta, Config, BinlogEntry}
use oblogproxy.Selection.Filters.{
  Filtered, ip_filter, zone_filter, group_filter, region_filter, resources_filter,
}
use oblogproxy.Selection.Weights.{weighted_random_filter}

-- The next filter is called after a success only.
abbrev pub then_filter :
    {D : Type 0} → Filtered D → (List (Node D) → Option (Filtered D)) → Option (Filtered D)
then_filter (true, nodes) next = next nodes
then_filter (false, nodes) next = some (false, nodes)

module _ (f : Floats) (query : Option (List BinlogEntry)) (draw : f.Float → f.Float)
    (config : Config) (meta : InstanceMeta) where
  unfoldable pub load_balancing_nodes : List (Node f.Double) → Option (Filtered f.Double)
  load_balancing_nodes [] = some (false, [])
  load_balancing_nodes (n ∷ ns) = then_filter (ip_filter meta (n ∷ ns)) λ a.
      then_filter (zone_filter meta a) λ b. then_filter (group_filter meta b) λ c.
        then_filter (resources_filter f config meta c)
          λ d. then_filter (region_filter query meta d) λ e. weighted_random_filter f draw config e

  abbrev pub front : Filtered f.Double → Option (Node f.Double)
  front (true, n ∷ ns) = some n
  front (true, []) = none
  front (false, nodes) = none

  -- The outer `none` is a failed assert, the inner one OMS_FAILED.
  unfoldable pub load_balancing_node : List (Node f.Double) → Option (Option (Node f.Double))
  unfolding load_balancing_nodes
  load_balancing_node nodes = elim (load_balancing_nodes nodes) [
    | none ↦ none
    | some r ↦ some (front r)
  ]
