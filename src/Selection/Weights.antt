-- ===== src/Selection/Weights.antt =====
-- WeightedRandomFilter: the weight of each node, and the node at a random number.
use oblogproxy.Common.{
  ℕ, ◌+◌, ◌%◌, ◌^◌, List, [], ◌∷◌, Bool, true, false, if◌then◌else◌, Option, none, some, length,
  get_elem?, ltb, ◌==◌, map,
}
use oblogproxy.Text.Split.{split, eqb}
use oblogproxy.DataType.Numbers.{atoi}
use oblogproxy.Selection.{Floats, Node, Config, same, is_empty, keep}
use oblogproxy.Selection.Filters.{Filtered, has_two}

-- The order of `std::string`.
unfoldable pub text_lt : List ℕ → List ℕ → Bool
text_lt s [] = false
text_lt [] (c ∷ t) = true
text_lt (b ∷ s) (c ∷ t) = let rest = text_lt s t in if b == c then rest else ltb b c

-- A `std::map` by its entries in the order of the keys.
module _ {V : Type 0} where
  unfoldable pub map_set : List ℕ → V → List (List ℕ × V) → List (List ℕ × V)
  unfolding text_lt
  map_set k v [] = (k, v) ∷ []
  map_set k v ((j, w) ∷ m) =
      let on = map_set k v m in
      if eqb k j then (k, v) ∷ m else if text_lt k j then (k, v) ∷ (j, w) ∷ m else (j, w) ∷ on

  unfoldable pub map_get : List ℕ → List (List ℕ × V) → Option V
  map_get k [] = none
  map_get k ((j, w) ∷ m) = let on = map_get k m in if eqb k j then some w else on

  -- A key that is missing gets the value 0.
  abbrev pub map_at : V → List ℕ → List (List ℕ × V) → V
  map_at zero_value k m = elim (map_get k m) [ none ↦ zero_value | some v ↦ v ]

module _ (f : Floats) where
  abbrev pub Weights : Type 0
  Weights = List (List ℕ × f.Float)

  -- The vector is made with four zeros, and the configured weights come behind them.
  unfoldable pub configured_weights : Config → Option (List f.Float)
  unfolding split atoi
  configured_weights config =
      let parts = split config.cpu_mem_disk_net_weighted b':' false in
      let zero_weight = f.of_nat 0 in
      if length parts == 4
      then some (
          zero_weight
          ∷ zero_weight
          ∷ zero_weight
          ∷ zero_weight
          ∷ map (λ (t : List ℕ). f.of_nat (atoi t)) parts)
      else none

  abbrev pub weight_at : List f.Float → ℕ → f.Float
  weight_at ws i = elim (get_elem? ws i) [ none ↦ f.of_nat 0 | some w ↦ w ]

  abbrev pub own_weight : List f.Float → Node f.Double → f.Float
  own_weight ws n =
      f.add
        (f.add (f.mul (weight_at ws 0) (f.rest_of n.cpu_used_ratio))
          (f.mul (weight_at ws 1) (f.rest_of n.mem_used_ratio)))
        (f.mul (weight_at ws 2) (f.rest_of n.disk_used_ratio))

  abbrev pub net_kb : Node f.Double → f.Float
  net_kb n = f.div (f.of_nat ((n.network_rx_bytes + n.network_wx_bytes) % 2 ^ 64)) (f.of_nat 1024)

  -- The first loop: the weights without the network, the traffic, and its sum.
  unfoldable pub own_weights :
      List f.Float
      → List (Node f.Double)
      → Weights
      → Weights
      → f.Float
      → Weights × Weights × f.Float
  unfolding map_set
  own_weights ws [] weights nets total = (weights, nets, total)
  own_weights ws (n ∷ ns) weights nets total =
      own_weights ws ns (map_set n.id (own_weight ws n) weights) (map_set n.id (net_kb n) nets)
        (f.add total (net_kb n))

  -- The second loop adds the part of the network, and sums up.
  unfoldable pub net_weights : f.Float → Weights → f.Float → Weights → f.Float → Weights × f.Float
  unfolding map_get
  net_weights w nets total_net [] total = ([], total)
  net_weights w nets total_net ((id, own) ∷ m) total =
      let free = f.one_minus (f.div (map_at (f.of_nat 0) id nets) total_net) in
      let weight = f.add own (f.mul w free) in
      let (rest, sum) = net_weights w nets total_net m (f.add total weight) in
      ((id, weight) ∷ rest, sum)

  unfoldable pub weighted_nodes : Config → List (Node f.Double) → Option (Weights × f.Float)
  unfolding configured_weights own_weights net_weights
  weighted_nodes config nodes = elim (configured_weights config) [
    | none ↦ none
    | some ws ↦
        let (weights, nets, total_net) = own_weights ws nodes [] [] (f.of_nat 0) in
        some (net_weights (weight_at ws 3) nets total_net weights (f.of_nat 0))
  ]

  -- The loop of `weighted_selection`.
  unfoldable pub select_at : f.Float → Weights → List ℕ
  select_at random [] = []
  select_at random ((id, weight) ∷ m) =
      let random' = f.sub random weight in
      let on = select_at random' m in if f.not_positive random' then id else on

  abbrev pub first_key : Weights → List ℕ
  first_key [] = []
  first_key ((id, weight) ∷ m) = id

  unfoldable pub weighted_selection : f.Float → Weights → List ℕ
  unfolding select_at
  weighted_selection random m =
      let id = select_at random m in if is_empty id then first_key m else id

  -- `draw` is the random number between 0 and the sum; `none` is a failed assert.
  unfoldable pub weighted_random_filter :
      (f.Float → f.Float) → Config → List (Node f.Double) → Option (Filtered f.Double)
  unfolding weighted_nodes weighted_selection keep
  weighted_random_filter draw config nodes =
      if has_two nodes
      then elim (weighted_nodes config nodes) [
        | none ↦ none
        | some (weights, total) ↦
            let id = weighted_selection (draw total) weights in
            some (true, keep (λ (n : Node f.Double). same id n.id) nodes)
      ]
      else some (true, nodes)
