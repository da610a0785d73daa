-- ===== src/BinlogIndex/Refine/PurgeTo.antt =====
-- A purge up to a file: exactly which records go.
use oblogproxy.Common.{
  ℕ, ◌≡◌, ◌≢◌, refl, ap, ◌∙◌, List, [], ◌∷◌, ◌++◌, append-nil, Bool, true, false, not, ◌&&◌, ◌==◌,
  none, some, All, arith, if◌then◌else◌,
}
use oblogproxy.BinlogIndex.Record.{BinlogIndexRecord, same_c_string}
use oblogproxy.BinlogIndex.Manager.{BinlogIndexManager, Io, is_active, text_of, rewrite_index_file}
use oblogproxy.BinlogIndex.Purge.{
  Purged, is_empty, none_purged, purge_one, purge_to_loop, reverse_onto, purge_binlog_to_file,
  finish_purge, purge_binlog_index,
}
use oblogproxy.BinlogIndex.Refine.{Represents, IsWorking, fetch-Represents}
use oblogproxy.BinlogIndex.Refine.Purging.{active_of}

-- The names of the records that are not active, from the last to the first.
abbrev pub inactive_names : (List ℕ → Bool) → List BinlogIndexRecord → List (List ℕ)
inactive_names active [] = []
inactive_names active (r ∷ rs) =
    inactive_names active rs ++ (if active r.file_name then [] else r.file_name ∷ [])

-- The number of the last record that is not active and has one.
abbrev pub last_gtid : (List ℕ → Bool) → List BinlogIndexRecord → ℕ
last_gtid active [] = 0
last_gtid active (r ∷ rs) =
    if (last_gtid active rs == 0) && not (active r.file_name)
    then r.current_mapping.1
    else last_gtid active rs

-- No record has the name of the target.
abbrev pub Lacks : List ℕ → List BinlogIndexRecord → Type 0
Lacks target rs = All (λ r. same_c_string r.file_name target ≡ false) rs

module _ (active : List ℕ → Bool) (target : List ℕ) where
  -- Behind the target nothing goes.
  purge_to_loop-Lacks :
      (newer out : List BinlogIndexRecord) (p : Purged)
      → Lacks target newer
      → purge_to_loop active target (reverse_onto newer out) false p
        ≡ purge_to_loop active target out false (record p { kept = newer ++ p.kept })
  purge_to_loop-Lacks [] out p h = refl
  purge_to_loop-Lacks (r ∷ newer) out p (h, hs) =
      purge_to_loop-Lacks newer (r ∷ out) p hs ∙ unfold purge_to_loop in rw h refl

  -- From the target on, the rounds in the order of the records.
  purge_all : List BinlogIndexRecord → Purged → Purged
  purge_all [] p = p
  purge_all (r ∷ rs) p = purge_one active true r (purge_all rs p)

  purge_to_loop-found :
      (older out : List BinlogIndexRecord) (p : Purged)
      → purge_to_loop active target (reverse_onto older out) true p
        ≡ purge_to_loop active target out true (purge_all older p)
  unfolding purge_all
  purge_to_loop-found [] out p = refl
  purge_to_loop-found (r ∷ older) out p =
      purge_to_loop-found older (r ∷ out) p ∙ unfold purge_to_loop in refl

  purge_all_lem :
      (rs newer : List BinlogIndexRecord)
      → purge_all rs (record none_purged { kept = newer }) ≡ record {
        kept = active_of active rs ++ newer;
        files = inactive_names active rs;
        last_gtid_seq = last_gtid active rs;
      }
  unfolding purge_all
  purge_all_lem [] newer = refl
  purge_all_lem (r ∷ rs) newer =
      rw (purge_all_lem rs newer) (ground (arith, append-nil (inactive_names active rs)))

  reverse_onto-append :
      (older newer out : List BinlogIndexRecord)
      → reverse_onto (older ++ newer) out ≡ reverse_onto newer (reverse_onto older out)
  reverse_onto-append [] newer out = refl
  reverse_onto-append (r ∷ older) newer out = reverse_onto-append older newer (r ∷ out)

  purge_at :
      (t : BinlogIndexRecord) (out : List BinlogIndexRecord) (p : Purged)
      → same_c_string t.file_name target ≡ true
      → purge_to_loop active target (t ∷ out) false p
        ≡ purge_to_loop active target out true (purge_one active true t p)
  unfolding purge_to_loop
  purge_at t out p h = rw h refl

  purge_all-snoc :
      (older : List BinlogIndexRecord) (t : BinlogIndexRecord) (p : Purged)
      → purge_all older (purge_one active true t p) ≡ purge_all (older ++ t ∷ []) p
  unfolding purge_all
  purge_all-snoc [] t p = refl
  purge_all-snoc (r ∷ older) t p = ap (purge_one active true r) (purge_all-snoc older t p)

  purge_binlog_to_file-found :
      (older newer : List BinlogIndexRecord) (t : BinlogIndexRecord)
      → same_c_string t.file_name target ≡ true
      → Lacks target newer
      → purge_binlog_to_file active target (older ++ t ∷ newer) ≡ (
        record {
          kept = active_of active (older ++ t ∷ []) ++ newer;
          files = inactive_names active (older ++ t ∷ []);
          last_gtid_seq = last_gtid active (older ++ t ∷ []);
        },
        true,
      )
  unfolding purge_binlog_to_file
  purge_binlog_to_file-found older newer t h hs =
      ap (λ rs. purge_to_loop active target rs false none_purged)
        (reverse_onto-append older (t ∷ newer) [])
      ∙ purge_to_loop-Lacks newer (t ∷ reverse_onto older []) none_purged hs
      ∙ purge_at t (reverse_onto older []) (record none_purged { kept = newer ++ [] }) h
      ∙ purge_to_loop-found older []
          (purge_one active true t (record none_purged { kept = newer ++ [] }))
      ∙ unfold purge_to_loop in
        ap (λ p. (p, true))
          (purge_all-snoc older t (record none_purged { kept = newer ++ [] })
            ∙ ap (purge_all (older ++ t ∷ []))
                (ap (λ ks. record none_purged { kept = ks }) (append-nil newer))
            ∙ purge_all_lem (older ++ t ∷ []) newer)

  purge_binlog_to_file-absent :
      (rs : List BinlogIndexRecord)
      → Lacks target rs
      → purge_binlog_to_file active target rs ≡ (record none_purged { kept = rs }, false)
  unfolding purge_binlog_to_file
  purge_binlog_to_file-absent rs h =
      purge_to_loop-Lacks rs [] none_purged h
      ∙ unfold purge_to_loop in ap (λ ks. (record none_purged { kept = ks }, false)) (append-nil rs)

is_empty-not {ℓ} : {A : Type ℓ} (xs : List A) → xs ≢ [] → is_empty xs ≡ false
is_empty-not [] h = absurd (h refl)
is_empty-not (x ∷ xs) h = refl

-- The calls of the file system succeed, and the index holds records that can be printed. If one of
-- them, the last such, has the name asked for, and something is purged and something stays, then
-- the purge succeeds; the records up to that one, itself included, go except the active ones; the
-- files listed are theirs, from the last to the first, and the GTIDs are purged up to the last number
-- among them that is not 0.
pub purge_binlog_index-to_file :
    (convert_ts : List ℕ → ℕ) (io : Io) (base_name ts : List ℕ) (c : ℕ) (file : List ℕ)
    (m : BinlogIndexManager) (older newer : List BinlogIndexRecord) (t : BinlogIndexRecord)
    → IsWorking io
    → Represents m (older ++ t ∷ newer)
    → Lacks (base_name ++ c ∷ file) newer
    → same_c_string t.file_name (base_name ++ c ∷ file) ≡ true
    → inactive_names (is_active m) (older ++ t ∷ []) ≢ []
    → active_of (is_active m) (older ++ t ∷ []) ++ newer ≢ []
    → purge_binlog_index convert_ts io base_name (c ∷ file) ts m
      ≡ some (record {
        manager = record m {
          index_file = text_of (active_of (is_active m) (older ++ t ∷ []) ++ newer);
        };
        ok = true;
        purge_binlog_files = inactive_names (is_active m) (older ++ t ∷ []);
        purge_before =
            if last_gtid (is_active m) (older ++ t ∷ []) == 0
            then none
            else some (last_gtid (is_active m) (older ++ t ∷ []));
      })
unfolding purge_binlog_index finish_purge rewrite_index_file
purge_binlog_index-to_file convert_ts io base_name ts c file m older newer t w h lacks named purges
      stays =
    rw
      (
        fetch-Represents io m (older ++ t ∷ newer) w.opens h,
        purge_binlog_to_file-found (is_active m) (base_name ++ c ∷ file) older newer t named lacks,
        is_empty-not _ purges,
        is_empty-not _ stays,
        w.writes,
        w.renames,
      )
      refl

-- Where no record has the name asked for, the purge fails and changes nothing.
purge_binlog_index-absent :
    (convert_ts : List ℕ → ℕ) (io : Io) (base_name ts : List ℕ) (c : ℕ) (file : List ℕ)
    (m : BinlogIndexManager) (rs : List BinlogIndexRecord)
    → io.opened ≡ true
    → Represents m rs
    → Lacks (base_name ++ c ∷ file) rs
    → purge_binlog_index convert_ts io base_name (c ∷ file) ts m
      ≡ some (record { manager = m; ok = false; purge_binlog_files = []; purge_before = none })
unfolding purge_binlog_index finish_purge
purge_binlog_index-absent convert_ts io base_name ts c file m rs opened h absent =
    rw
      (
        fetch-Represents io m rs opened h,
        purge_binlog_to_file-absent (is_active m) (base_name ++ c ∷ file) rs absent,
      )
      refl
