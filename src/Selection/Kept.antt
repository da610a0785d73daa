-- ===== src/Selection/Kept.antt =====
-- What each filter of nodes keeps: what held of all nodes, and the test of the filter.
use oblogproxy.Common.{
  ℕ, ◌≡◌, ◌⊎◌, inl, inr, refl, List, [], ◌∷◌, Bool, true, false, if◌then◌else◌, not, ◌&&◌,
  Bool-cases, Option, none, some, All, ltb, length, map,
}
use oblogproxy.Selection.{
  Floats, Node, InstanceMeta, Config, BinlogEntry, same, is_empty, keep, is_in, distinct,
}
use oblogproxy.Selection.Filters.{
  Filtered, some_left, filled, has_two, ip_filter, zone_filter, group_filter, region_filter,
  of_query, of_entries, spread, has_region, available_regions, nodes_taken,
  remove_instances_in_drop, meet_resource_needs, resources_filter,
}
use oblogproxy.Selection.Weights.{weighted_nodes, weighted_selection, weighted_random_filter}
use oblogproxy.Selection.Balance.{then_filter}

-- It is switched off, or it holds.
abbrev pub Wanted : Bool → Bool → Type 0
Wanted on passed = (on ≡ false) ⊎ (passed ≡ true)

module _ {A : Type 0} where
  pub keep-All : (P : A → Type 0) (p : A → Bool) (xs : List A) → All P xs → All P (keep p xs)
  unfolding keep
  keep-All P p [] h = tt
  keep-All P p (x ∷ xs) (h, hs) = elim (Bool-cases (p x)) [
    | inl yes_p ↦ rw yes_p (h, keep-All P p xs hs)
    | inr no_p ↦ rw no_p (keep-All P p xs hs)
  ]

  pub keep-passes :
      (P : A → Type 0) (on : Bool) (p : A → Bool) (xs : List A)
      → All P xs
      → All (λ x. P x × Wanted on (p x)) (keep p xs)
  unfolding keep
  keep-passes P on p [] h = tt
  keep-passes P on p (x ∷ xs) (h, hs) = elim (Bool-cases (p x)) [
    | inl yes_p ↦ rw yes_p ((h, inr yes_p), keep-passes P on p xs hs)
    | inr no_p ↦ rw no_p (keep-passes P on p xs hs)
  ]

  pub All-off :
      (P : A → Type 0) (on : Bool) (p : A → Bool) (xs : List A)
      → on ≡ false
      → All P xs
      → All (λ x. P x × Wanted on (p x)) xs
  All-off P on p [] off h = tt
  All-off P on p (x ∷ xs) off (h, hs) = ((h, inl off), All-off P on p xs off hs)

module _ {D : Type 0} where
  -- The nodes of a success.
  abbrev pub Keeps : (Node D → Type 0) → Filtered D → Type 0
  Keeps P (true, nodes) = All P nodes
  Keeps P (false, nodes) = Unit

  abbrev pub MayKeep : (Node D → Type 0) → Option (Filtered D) → Type 0
  MayKeep P none = Unit
  MayKeep P (some r) = Keeps P r

  pub some_left-Keeps :
      (P : Node D → Type 0) (xs : List (Node D)) → All P xs → Keeps P (some_left xs)
  some_left-Keeps P [] h = tt
  some_left-Keeps P (x ∷ xs) h = h

  pub then_filter-MayKeep :
      (P Q : Node D → Type 0) (r : Filtered D) (next : List (Node D) → Option (Filtered D))
      → Keeps P r
      → ((xs : List (Node D)) → All P xs → MayKeep Q (next xs))
      → MayKeep Q (then_filter r next)
  then_filter-MayKeep P Q (true, xs) next h on = on xs h
  then_filter-MayKeep P Q (false, xs) next h on = tt

  -- A filter that is switched by `on`.
  pub filter-Keeps :
      (P : Node D → Type 0) (on : Bool) (p : Node D → Bool) (xs : List (Node D))
      → All P xs
      → Keeps
          (λ x. P x × Wanted on (p x))
          (if filled xs && on then some_left (keep p xs) else (true, xs))
  filter-Keeps P on p [] h = tt
  filter-Keeps P true p (x ∷ xs) h =
      some_left-Keeps (λ y. P y × Wanted true (p y)) (keep p (x ∷ xs))
        (keep-passes P true p (x ∷ xs) h)
  filter-Keeps P false p (x ∷ xs) h = All-off P false p (x ∷ xs) refl h

  pub ip_filter-Keeps :
      (P : Node D → Type 0) (meta : InstanceMeta) (xs : List (Node D))
      → All P xs
      → Keeps (λ x. P x × Wanted (not (is_empty meta.ip)) (same meta.ip x.ip)) (ip_filter meta xs)
  unfolding ip_filter
  ip_filter-Keeps P meta xs h =
      filter-Keeps P (not (is_empty meta.ip)) (λ (n : Node D). same meta.ip n.ip) xs h

  pub zone_filter-Keeps :
      (P : Node D → Type 0) (meta : InstanceMeta) (xs : List (Node D))
      → All P xs
      → Keeps
          (λ x. P x × Wanted (not (is_empty meta.zone)) (same meta.zone x.zone))
          (zone_filter meta xs)
  unfolding zone_filter
  zone_filter-Keeps P meta xs h =
      filter-Keeps P (not (is_empty meta.zone)) (λ (n : Node D). same meta.zone n.zone) xs h

  pub group_filter-Keeps :
      (P : Node D → Type 0) (meta : InstanceMeta) (xs : List (Node D))
      → All P xs
      → Keeps
          (λ x. P x × Wanted (not (is_empty meta.group)) (same meta.group x.group))
          (group_filter meta xs)
  unfolding group_filter
  group_filter-Keeps P meta xs h =
      filter-Keeps P (not (is_empty meta.group)) (λ (n : Node D). same meta.group n.group) xs h

  pub spread-All :
      (P : Node D → Type 0) (es : List BinlogEntry) (xs : List (Node D))
      → All P xs
      → All P (spread es xs)
  spread-All P es xs h = elim (Bool-cases (has_region (available_regions es xs))) [
    | inl yes_r ↦
        rw yes_r (keep-All P (λ (n : Node D). is_in n.region (available_regions es xs)) xs h)
    | inr no_r ↦ rw no_r (
        by_id (
          ltb (length (distinct (nodes_taken es)))
            (length (distinct (map (λ (n : Node D). n.id) xs)))))
  ]
    where
      by_id :
          (more : Bool)
          → All P (if more then keep (λ (n : Node D). not (is_in n.id (nodes_taken es))) xs else xs)
      by_id true = keep-All P (λ (n : Node D). not (is_in n.id (nodes_taken es))) xs h
      by_id false = h

  of_entries-All :
      (P : Node D → Type 0) (es : List BinlogEntry) (xs : List (Node D))
      → All P xs
      → All P (of_entries es xs)
  of_entries-All P [] xs h = h
  of_entries-All P (e ∷ es) xs h = spread-All P (e ∷ es) xs h

  of_query-Keeps :
      (P : Node D → Type 0) (query : Option (List BinlogEntry)) (xs : List (Node D))
      → All P xs
      → Keeps P (of_query query xs)
  of_query-Keeps P none xs h = tt
  of_query-Keeps P (some es) xs h = of_entries-All P (remove_instances_in_drop es) xs h

  pub region_filter-Keeps :
      (P : Node D → Type 0) (query : Option (List BinlogEntry)) (meta : InstanceMeta)
      (xs : List (Node D))
      → All P xs
      → Keeps P (region_filter query meta xs)
  unfolding region_filter
  region_filter-Keeps P query meta xs h = elim (Bool-cases (has_two xs)) [
    | inl yes_two ↦ rw yes_two (by_region (is_empty meta.region))
    | inr no_two ↦ rw no_two h
  ]
    where
      by_region :
          (unset : Bool)
          → Keeps P (
              if unset
              then of_query query xs
              else some_left (keep (λ (n : Node D). same meta.region n.region) xs))
      by_region true = of_query-Keeps P query xs h
      by_region false =
          some_left-Keeps P (keep (λ (n : Node D). same meta.region n.region) xs)
            (keep-All P (λ (n : Node D). same meta.region n.region) xs h)

module _ (f : Floats) where
  pub resources_filter-Keeps :
      (P : Node f.Double → Type 0) (config : Config) (meta : InstanceMeta)
      (xs : List (Node f.Double))
      → All P xs
      → Keeps
          (λ x. P x × Wanted config.enable_resource_check (meet_resource_needs f config meta x))
          (resources_filter f config meta xs)
  unfolding resources_filter
  resources_filter-Keeps P config meta xs h =
      filter-Keeps P config.enable_resource_check (meet_resource_needs f config meta) xs h

  pub weighted_random_filter-MayKeep :
      (P : Node f.Double → Type 0) (draw : f.Float → f.Float) (config : Config)
      (xs : List (Node f.Double))
      → All P xs
      → MayKeep P (weighted_random_filter f draw config xs)
  unfolding weighted_random_filter
  weighted_random_filter-MayKeep P draw config xs h = elim (Bool-cases (has_two xs)) [
    | inl yes_two ↦ rw yes_two (by_weights (weighted_nodes f config xs))
    | inr no_two ↦ rw no_two h
  ]
    where
      by_weights :
          (w : Option (List (List ℕ × f.Float) × f.Float))
          → MayKeep P (elim w [
            | none ↦ none
            | some (weights, total) ↦
                let id = weighted_selection f (draw total) weights in
                some (true, keep (λ (n : Node f.Double). same id n.id) xs)
          ])
      by_weights none = tt
      by_weights (some (weights, total)) =
          keep-All P (λ (n : Node f.Double). same (weighted_selection f (draw total) weights) n.id)
            xs h
