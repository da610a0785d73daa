-- ===== src/Selection.antt =====
-- binlog/selection_strategy.{h,cpp}: on which node a new binlog instance runs, and which instance
-- serves. The texts of errors and the log are left out.
pub mod Filters
pub mod Weights
pub mod Balance
pub mod Kept
pub mod Chosen
pub mod Master
pub mod Point
pub mod Elected
pub mod Closest
use oblogproxy.Common.{
  ℕ, List, [], ◌∷◌, Bool, true, false, if◌then◌else◌, not, ◌||◌, ◌&&◌, Option, none, some,
}
use oblogproxy.Text.Split.{eqb}
use oblogproxy.Event.Memory.{c_string}

-- The ratios are doubles and the weights floats: their arithmetic is a parameter.
pub record Floats : Type 1 where
  pub Double : Type 0
  pub Float : Type 0
  pub lt : Double → Double → Bool
  pub percent : ℕ → Double
  pub rest_of : Double → Float
  pub one_minus : Float → Float
  pub of_nat : ℕ → Float
  pub add : Float → Float → Float
  pub sub : Float → Float → Float
  pub mul : Float → Float → Float
  pub div : Float → Float → Float
  pub not_positive : Float → Bool

-- `Node` of cluster/node.h with its metrics.
pub record Node (D : Type 0) : Type 0 where
  pub id : List ℕ
  pub ip : List ℕ
  pub zone : List ℕ
  pub group : List ℕ
  pub region : List ℕ
  pub cpu_used_ratio : D
  pub mem_used_ratio : D
  pub disk_used_ratio : D
  pub mem_total_size_mb : ℕ
  pub mem_used_size_mb : ℕ
  pub disk_total_size_mb : ℕ
  pub disk_used_size_mb : ℕ
  pub network_rx_bytes : ℕ
  pub network_wx_bytes : ℕ

-- What is asked of `InstanceMeta`: the slot, the memory of obcdc, and the size of the binlog.
pub record InstanceMeta : Type 0 where
  pub ip : List ℕ
  pub zone : List ℕ
  pub group : List ℕ
  pub region : List ℕ
  pub memory_limit : List ℕ
  pub binlog_expire_logs_size : ℕ

pub record Config : Type 0 where
  pub enable_resource_check : Bool
  pub node_cpu_limit_threshold_percent : ℕ
  pub node_mem_limit_threshold_percent : ℕ
  pub node_disk_limit_threshold_percent : ℕ
  pub cpu_mem_disk_net_weighted : List ℕ

-- What is asked of a `BinlogEntry`.
pub record BinlogEntry : Type 0 where
  pub instance_name : List ℕ
  pub entry_ip : List ℕ
  pub node_id : List ℕ
  pub is_dropped : Bool
  pub start_timestamp : ℕ

-- `strcmp(…) == 0`.
abbrev pub same : List ℕ → List ℕ → Bool
same s t = eqb (c_string s) (c_string t)

abbrev pub is_empty : List ℕ → Bool
is_empty [] = true
is_empty (_ ∷ _) = false

-- The loops that erase what does not pass a test.
unfoldable pub keep {ℓ} : {A : Type ℓ} → (A → Bool) → List A → List A
keep p [] = []
keep p (x ∷ xs) = let others = keep p xs in if p x then x ∷ others else others

unfoldable pub is_in : List ℕ → List (List ℕ) → Bool
is_in s [] = false
is_in s (t ∷ ts) = eqb s t || is_in s ts

-- The elements of a `std::set`, each once.
unfoldable pub distinct : List (List ℕ) → List (List ℕ)
unfolding is_in
distinct [] = []
distinct (t ∷ ts) = let others = distinct ts in if is_in t ts then others else t ∷ others
