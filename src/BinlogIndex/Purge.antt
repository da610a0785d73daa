-- ===== src/BinlogIndex/Purge.antt =====
-- `purge_binlog_index` of binlog/binlog_index.cpp with the two loops that choose the files to purge,
-- and `remove_binlog`.
use oblogproxy.Common.{
  ℕ, List, [], ◌∷◌, ◌++◌, Bool, true, false, not, ◌&&◌, ◌||◌, if◌then◌else◌, ltb, ◌==◌, Option,
  none, some,
}
use oblogproxy.Text.Lines.{lines}
use oblogproxy.BinlogIndex.Record.{
  BinlogIndexRecord, no_record, parse, same_c_string, equal_to, ◌>>=◌,
}
use oblogproxy.BinlogIndex.Manager.{
  BinlogIndexManager, Io, Outcome, fetch_index_vector, is_active, rewrite_index_file,
}

-- The records that stay, the names of the purged files in the order in which they are listed, and
-- `last_gtid_seq`.
pub record Purged : Type 0 where
  pub kept : List BinlogIndexRecord
  pub files : List (List ℕ)
  pub last_gtid_seq : ℕ

abbrev pub is_empty {ℓ} : {A : Type ℓ} → List A → Bool
is_empty [] = true
is_empty (x ∷ xs) = false

abbrev pub none_purged : Purged
none_purged = record { kept = []; files = []; last_gtid_seq = 0 }

-- The loop of `purge_binlog_before_ts`; `last` is `last_gtid_seq` so far.
unfoldable pub purge_before_loop : (List ℕ → Bool) → ℕ → List BinlogIndexRecord → ℕ → Purged
purge_before_loop active purge_ts [] last = record { kept = []; files = []; last_gtid_seq = last }
purge_before_loop active purge_ts (r ∷ rs) last =
    let old = ltb r.checkpoint purge_ts && not (active r.file_name) in
    let p = purge_before_loop active purge_ts rs (if old then r.current_mapping.1 else last) in
    if old then record p { files = r.file_name ∷ p.files } else record p { kept = r ∷ p.kept }

-- `convert_ts` reads a date of the local time zone.
unfoldable pub purge_binlog_before_ts :
    (List ℕ → ℕ) → (List ℕ → Bool) → List ℕ → List BinlogIndexRecord → Purged × Bool
unfolding purge_before_loop
purge_binlog_before_ts convert_ts active ts rs =
    if is_empty ts
    then (record { kept = rs; files = []; last_gtid_seq = 0 }, false)
    else (purge_before_loop active (convert_ts ts) rs 0, true)

-- One round of the loop of `purge_binlog_to_file`, which goes from the last record to the first.
abbrev pub purge_one : (List ℕ → Bool) → Bool → BinlogIndexRecord → Purged → Purged
purge_one active found r p =
    if found && not (active r.file_name)
    then record {
      kept = p.kept;
      files = p.files ++ r.file_name ∷ [];
      last_gtid_seq = if p.last_gtid_seq == 0 then r.current_mapping.1 else p.last_gtid_seq;
    }
    else record { kept = r ∷ p.kept; files = p.files; last_gtid_seq = p.last_gtid_seq }

-- Over the records in reverse.
unfoldable pub purge_to_loop :
    (List ℕ → Bool) → List ℕ → List BinlogIndexRecord → Bool → Purged → Purged × Bool
purge_to_loop active target [] found p = (p, found)
purge_to_loop active target (r ∷ rs) found p =
    let found' = found || same_c_string r.file_name target in
    purge_to_loop active target rs found' (purge_one active found' r p)

abbrev pub reverse_onto {ℓ} : {A : Type ℓ} → List A → List A → List A
reverse_onto [] out = out
reverse_onto (x ∷ xs) out = reverse_onto xs (x ∷ out)

unfoldable pub purge_binlog_to_file :
    (List ℕ → Bool) → List ℕ → List BinlogIndexRecord → Purged × Bool
unfolding purge_to_loop
purge_binlog_to_file active target rs =
    purge_to_loop active target (reverse_onto rs []) false none_purged

-- `purge_before` is the argument of the call of `purge_gtid_before`, if there is one.
pub record PurgeOutcome : Type 0 where
  pub manager : BinlogIndexManager
  pub ok : Bool
  pub purge_binlog_files : List (List ℕ)
  pub purge_before : Option ℕ

-- The steps 3 and 4: what the chosen records do to the two files.
unfoldable pub finish_purge : Io → BinlogIndexManager → Purged × Bool → PurgeOutcome
unfolding rewrite_index_file
finish_purge io m (p, ok) =
    let rewritten = rewrite_index_file io p.kept m in
    let (m', ok') =
      if ok && not (is_empty p.files) && not (is_empty p.kept) then rewritten else (m, ok) in
    record {
      manager = m';
      ok = ok';
      purge_binlog_files = p.files;
      purge_before = if p.last_gtid_seq == 0 then none else some p.last_gtid_seq;
    }

unfoldable pub purge_binlog_index :
    (List ℕ → ℕ) → Io → List ℕ → List ℕ → List ℕ → BinlogIndexManager → Option PurgeOutcome
unfolding fetch_index_vector is_active purge_binlog_before_ts purge_binlog_to_file finish_purge
purge_binlog_index convert_ts io base_name binlog_file before_purge_ts m = do
  fetched ← fetch_index_vector io m
  some (
      if fetched.1
      then finish_purge io m (
          if is_empty binlog_file
          then purge_binlog_before_ts convert_ts (is_active m) before_purge_ts fetched.0
          else purge_binlog_to_file (is_active m) (base_name ++ binlog_file) fetched.0)
      else record { manager = m; ok = false; purge_binlog_files = []; purge_before = none })

-- The loop of `remove_binlog`: the records that stay, and whether one was found.
unfoldable pub remove_lines :
    BinlogIndexRecord → List (List ℕ) → Option (List BinlogIndexRecord × Bool)
unfolding parse equal_to
remove_lines target [] = some ([], false)
remove_lines target (line ∷ ls) = do
  r ← parse no_record line
  rest ← remove_lines target ls
  some (if equal_to r target then (rest.0, true) else (r ∷ rest.0, rest.1))

-- A file that cannot be removed is reported, after its record has left the index.
unfoldable pub remove_binlog : Io → BinlogIndexRecord → BinlogIndexManager → Outcome
unfolding remove_lines rewrite_index_file lines
remove_binlog io target m =
    if io.opened
    then (do
      rest ← remove_lines target (lines m.index_file)
      some (
          if not rest.1
          then (m, true)
          else (let (m', ok) = rewrite_index_file io rest.0 m in (m', ok && io.removed))))
    else some (m, false)
