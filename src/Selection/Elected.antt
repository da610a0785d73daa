-- ===== src/Selection/Elected.antt =====
-- What `select_master_instance` and `filter_instance_by_initial_point` choose.
use oblogproxy.Common.{
  ℕ, ◌≤◌, ◌≡◌, ◌≢◌, ◌⊎◌, inl, inr, refl, ap, subst, List, [], ◌∷◌, Bool, true, false, if◌then◌else◌,
  not, Bool-cases, some, All, arith, ◌==◌, length, map,
}
use oblogproxy.Selection.{Floats, Node, Config, BinlogEntry, keep, is_in}
use oblogproxy.Selection.Kept.{Wanted, keep-All, keep-passes, All-off}
use oblogproxy.Selection.Chosen.{In, All-In}
use oblogproxy.DataType.{injective}
use oblogproxy.Selection.Master.{
  InstanceWitGtid, below_checkpoint, filter_master_by_min_checkpoint, instances_with_delay,
  filter_master_by_delay, elected, is_busy, filter_master_by_resource, with_gtid,
  select_master_instance,
}
use oblogproxy.Text.Split.{All-map}

module _ {A B : Type 0} where
  All-map_by :
      (P : B → Type 0) (Q : A → Type 0) (g : A → B) (xs : List A)
      → ((x : A) → Q x → P (g x))
      → All Q xs
      → All P (map g xs)
  All-map_by P Q g [] f h = tt
  All-map_by P Q g (x ∷ xs) f (h, hs) = (f x h, All-map_by P Q g xs f hs)

module _ {A : Type 0} where
  filtered-All :
      (P : A → Type 0) (on : Bool) (p : A → Bool) (xs : List A)
      → All P xs
      → All (λ x. P x × Wanted on (p x)) (if on then keep p xs else xs)
  filtered-All P true p xs h = keep-passes P true p xs h
  filtered-All P false p xs h = All-off P false p xs refl h

module _ (f : Floats) (node_of : List ℕ → Node f.Double) (boundary_gtid_seq : List ℕ → ℕ × ℕ)
    (config : Config) (now : ℕ) (running : List BinlogEntry) (checkpoint : ℕ) where
  abbrev IsRunning : InstanceWitGtid → Type 0
  IsRunning i =
      In i.instance_entry running × (i ≡ with_gtid f node_of boundary_gtid_seq i.instance_entry)

  running-All : All IsRunning (map (with_gtid f node_of boundary_gtid_seq) running)
  running-All =
      All-map_by IsRunning (λ e. In e running) (with_gtid f node_of boundary_gtid_seq) running
        (λ e i. (i, refl)) (All-In running running λ n i. i)

  abbrev MeetsCheckpoint : InstanceWitGtid → Type 0
  MeetsCheckpoint i = (checkpoint ≡ 0) ⊎ ((i.first_version ≢ 0) × (i.first_version ≤ checkpoint))

  abbrev HasCpu : InstanceWitGtid → Type 0
  HasCpu i = Wanted config.enable_resource_check (not (is_busy f node_of config i))

  by_checkpoint :
      (xs : List InstanceWitGtid)
      → All IsRunning xs
      → All (λ i. IsRunning i × MeetsCheckpoint i) (filter_master_by_min_checkpoint xs checkpoint)
  unfolding filter_master_by_min_checkpoint
  by_checkpoint xs h = elim (Bool-cases (checkpoint == 0)) [
    | inl is_zero ↦ rw is_zero (
        All-map IsRunning (λ i. IsRunning i × MeetsCheckpoint i) xs (λ i r. (r, inl (ground arith)))
          h)
    | inr not_zero ↦ rw not_zero (
        All-map (λ i. IsRunning i × Wanted true (not (below_checkpoint checkpoint i)))
          (λ i. IsRunning i × MeetsCheckpoint i)
          (keep (λ (i : InstanceWitGtid). not (below_checkpoint checkpoint i)) xs)
          (λ i (r, w). (r, inr (met i w)))
          (keep-passes IsRunning true (λ (i : InstanceWitGtid). not (below_checkpoint checkpoint i))
            xs h))
  ]
    where
      met :
          (i : InstanceWitGtid)
          → Wanted true (not (below_checkpoint checkpoint i))
          → (i.first_version ≢ 0) × (i.first_version ≤ checkpoint)
      met i (inl e) = cc
      met i (inr e) = (λ z. ground arith, ground arith)

  by_resource :
      (P : InstanceWitGtid → Type 0) (xs : List InstanceWitGtid)
      → All P xs
      → All (λ i. P i × HasCpu i) (filter_master_by_resource f node_of config xs)
  unfolding filter_master_by_resource
  by_resource P xs h =
      filtered-All P config.enable_resource_check
        (λ (i : InstanceWitGtid). not (is_busy f node_of config i)) xs h

  by_delay :
      (P : InstanceWitGtid → Type 0) (xs : List InstanceWitGtid)
      → All P xs
      → All P (filter_master_by_delay now xs checkpoint)
  unfolding filter_master_by_delay
  by_delay P xs h = some_late (length late == 0) (length late == length xs)
    where
      late : List (List ℕ)
      late = instances_with_delay now checkpoint xs

      some_late :
          (no_late all_late : Bool)
          → All P (
              if no_late
              then xs
              else if all_late
              then xs
              else keep
                  (λ (i : InstanceWitGtid). not (is_in i.instance_entry.instance_name late))
                  xs)
      some_late true all_late = h
      some_late false true = h
      some_late false false =
          keep-All P (λ (i : InstanceWitGtid). not (is_in i.instance_entry.instance_name late)) xs h

  elected-All :
      (P : InstanceWitGtid → Type 0) (xs : List InstanceWitGtid) (e : BinlogEntry)
      → All P xs
      → elected xs ≡ some e
      → (i : InstanceWitGtid) × P i × (i.instance_entry ≡ e)
  elected-All P [] e h given = cc
  elected-All P (i ∷ is) e (h, hs) given = (i, h, injective given)

  -- What is asked of the instance that serves.
  pub record Serves (e : BinlogEntry) : Type 0 where
    pub is_running : In e running
    pub meets_checkpoint :
        (checkpoint ≡ 0)
        ⊎ (((boundary_gtid_seq e.instance_name).0 ≢ 0)
            × ((boundary_gtid_seq e.instance_name).0 ≤ checkpoint))
    pub has_cpu :
        (config.enable_resource_check ≡ false)
        ⊎ (f.lt
              (f.percent config.node_cpu_limit_threshold_percent)
              (node_of e.node_id).cpu_used_ratio
            ≡ false)

  serves :
      (i : InstanceWitGtid) → IsRunning i → MeetsCheckpoint i → HasCpu i → Serves i.instance_entry
  serves i (r, same_i) m c =
      let e_first = ap (λ (j : InstanceWitGtid). j.first_version) same_i in
      record {
        is_running = r;
        meets_checkpoint = subst (λ v. (checkpoint ≡ 0) ⊎ ((v ≢ 0) × (v ≤ checkpoint))) e_first m;
        has_cpu = elim c [ inl off ↦ inl off | inr free ↦ inr (not_true _ free) ];
      }
    where
      not_true : (b : Bool) → not b ≡ true → b ≡ false
      not_true true e = cc
      not_true false e = refl

  -- If `select_master_instance` gives an instance, then it is a running one, its first GTID sequence
  -- starts at a version other than 0 and not above the checkpoint unless that is 0, and the processor
  -- of its node is not used beyond the limit if resources are checked.
  pub select_master_instance-Serves :
      (e : BinlogEntry)
      → select_master_instance f node_of boundary_gtid_seq config now running checkpoint ≡ some e
      → Serves e
  unfolding select_master_instance
  select_master_instance-Serves e given =
      let all =
        by_delay _ _
          (by_resource (λ i. IsRunning i × MeetsCheckpoint i) _ (by_checkpoint _ running-All)) in
      let (i, (((r, same_i), m), c), e_i) = elected-All _ _ e all given in
      subst Serves e_i (serves i (r, same_i) m c)
