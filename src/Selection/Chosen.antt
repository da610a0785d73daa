-- ===== src/Selection/Chosen.antt =====
-- The node that `load_balancing_node` chooses.
use oblogproxy.Common.{
  ℕ, ◌+◌, ◌*◌, ◌/◌, ◌^◌, ◌≤◌, ◌<◌, ◌≡◌, ◌⊎◌, inl, inr, refl, ◌++◌, List, [], ◌∷◌, true, false, not,
  Option, All, subst,
}
use oblogproxy.Selection.{Floats, Node, InstanceMeta, Config, BinlogEntry, same, is_empty}
use oblogproxy.Selection.Filters.{meet_resource_needs}
use oblogproxy.Event.Memory.{c_string}
use oblogproxy.Text.Decimal.{to_string}
use oblogproxy.Selection.Kept.{Wanted}

module _ {A : Type 0} where
  abbrev pub In : A → List A → Type 0
  In n [] = ⊥
  In n (x ∷ xs) = (x ≡ n) ⊎ In n xs

  pub In-All : (P : A → Type 0) (n : A) (xs : List A) → In n xs → All P xs → P n
  In-All P n [] i _ = elim i [ ]
  In-All P n (x ∷ xs) (inl e) (h, hs) = subst P e h
  In-All P n (x ∷ xs) (inr i) (h, hs) = In-All P n xs i hs

  pub All-In : (whole xs : List A) → ((n : A) → In n xs → In n whole) → All (λ n. In n whole) xs
  All-In whole [] f = tt
  All-In whole (x ∷ xs) f = (f x (inl refl), All-In whole xs (λ n i. f n (inr i)))

module _ (f : Floats) (query : Option (List BinlogEntry)) (draw : f.Float → f.Float)
    (config : Config) (meta : InstanceMeta) where
  -- The memory limit in GB: 20 if it is not set, or else a number in front of one character, its unit.
  abbrev pub IsLimit : ℕ → Type 0
  IsLimit gb =
      ((meta.memory_limit ≡ []) × (gb ≡ 20))
      ⊎ ((unit : ℕ) × (gb < 2 ^ 31) × (meta.memory_limit ≡ to_string gb ++ unit ∷ []))

  -- Of memory and disk no more is used than there is, and the free memory is below 2 ^ 32 GB.
  pub record IsMeasured (n : Node f.Double) : Type 0 where
    pub mem_within : n.mem_used_size_mb ≤ n.mem_total_size_mb
    pub disk_within : n.disk_used_size_mb ≤ n.disk_total_size_mb
    pub mem_small : n.mem_total_size_mb < 2 ^ 42
    pub disk_small : n.disk_total_size_mb < 2 ^ 64

  -- The used shares are below their limits, and the free memory and disk hold the memory limit and as
  -- many whole GB as the binlog may have.
  pub record HasResources (gb : ℕ) (n : Node f.Double) : Type 0 where
    pub cpu : f.lt n.cpu_used_ratio (f.percent config.node_cpu_limit_threshold_percent) ≡ true
    pub mem : f.lt n.mem_used_ratio (f.percent config.node_mem_limit_threshold_percent) ≡ true
    pub disk : f.lt n.disk_used_ratio (f.percent config.node_disk_limit_threshold_percent) ≡ true
    pub mem_left : n.mem_used_size_mb + gb * 1024 ≤ n.mem_total_size_mb
    pub disk_left :
        n.disk_used_size_mb + meta.binlog_expire_logs_size / 2 ^ 30 * 1024 ≤ n.disk_total_size_mb

  -- What is asked of the slot and of the resources, each where it is asked for.
  pub record Suits (gb : ℕ) (n : Node f.Double) : Type 0 where
    pub at_ip : (meta.ip ≡ []) ⊎ (c_string n.ip ≡ c_string meta.ip)
    pub in_zone : (meta.zone ≡ []) ⊎ (c_string n.zone ≡ c_string meta.zone)
    pub in_group : (meta.group ≡ []) ⊎ (c_string n.group ≡ c_string meta.group)
    pub has_resources : (config.enable_resource_check ≡ false) ⊎ HasResources gb n

  abbrev AtIp : List (Node f.Double) → Node f.Double → Type 0
  AtIp whole x = In x whole × Wanted (not (is_empty meta.ip)) (same meta.ip x.ip)

  abbrev InZone : List (Node f.Double) → Node f.Double → Type 0
  InZone whole x = AtIp whole x × Wanted (not (is_empty meta.zone)) (same meta.zone x.zone)

  abbrev InGroup : List (Node f.Double) → Node f.Double → Type 0
  InGroup whole x = InZone whole x × Wanted (not (is_empty meta.group)) (same meta.group x.group)

  abbrev HasRoom : List (Node f.Double) → Node f.Double → Type 0
  HasRoom whole x =
      InGroup whole x × Wanted config.enable_resource_check (meet_resource_needs f config meta x)
