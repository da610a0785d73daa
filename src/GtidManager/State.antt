-- ===== src/GtidManager/State.antt =====
-- `GtidManager` of binlog/gtid_manager.{h,cpp}: its state and the operations that change it.
use Prim.Native.Nat.{max}
use oblogproxy.Common.{
  ℕ, ◌+◌, ◌-◌, ◌/◌, ◌%◌, ◌^◌, List, [], ◌∷◌, ◌++◌, Bool, true, false, not, ◌&&◌, ◌||◌,
  if◌then◌else◌, ltb, leb, ◌==◌, Option, none, some,
}
use oblogproxy.Text.Lines.{newline, lines, unlines}
use oblogproxy.GtidSet.Message.{GtidMessage}
use oblogproxy.GtidSet.Before.{merge_gtid_before}
use oblogproxy.GtidManager.Seq.{GtidSeq, no_gtid_seq, serialize, deserialize}

-- `gtid_file` is what the file of sequences holds.
pub record GtidManager : Type 0 where
  pub nof_trx : ℕ
  pub curr_hb_checkpoint : ℕ
  pub curr_trx_checkpoint : ℕ
  pub last_saved_commit_version_high : ℕ
  pub first_entry_after_restarted : Bool
  pub gtid_checkpoint_set : List GtidSeq
  pub last_gtid_purged : ℕ
  pub last_checkpoint_purged : ℕ
  pub gtid_seq_set : List (ℕ × List ℕ)
  pub gtid_purged_set : List GtidMessage
  pub gtid_executed_set : List GtidMessage
  pub gtid_file : List ℕ

-- What the code takes from `s_config` and from `s_meta`. `outdated_after` is the value of
-- `(int)(1.2 * (double)binlog_expire_logs_seconds)`.
pub record Config : Type 0 where
  pub gtid_marking_step_size : ℕ
  pub gtid_seq_compressed_interval_s : ℕ
  pub gtid_seq_compressed_trx_size : ℕ
  pub gtid_memory_cache_seconds : ℕ
  pub max_incr_gtid_seqs_num : ℕ
  pub binlog_expire_logs_seconds : ℕ
  pub outdated_after : ℕ
  pub master_server_uuid : List ℕ

-- How the calls of the file system end: appending a line, opening the file, renaming. A write that
-- fails leaves its file as it was.
pub record GtidIo : Type 0 where
  pub appends : List ℕ → Bool
  pub opens : Bool
  pub renames : Bool

-- Subtraction of `uint64_t`.
abbrev pub sub_uint64 : ℕ → ℕ → ℕ
sub_uint64 a b = (a + (2 ^ 64 - b)) % 2 ^ 64

unfoldable pub mark_event : Config → Bool → ℕ → List ℕ × ℕ → GtidManager → GtidManager
mark_event config true checkpoint trx m = record m { curr_hb_checkpoint = checkpoint / 1000000 }
mark_event config false checkpoint trx m = record m {
  nof_trx = (m.nof_trx + 1) % 2 ^ 64;
  curr_trx_checkpoint = checkpoint / 1000000;
  gtid_checkpoint_set =
      if trx.1 % config.gtid_marking_step_size == 0
      then m.gtid_checkpoint_set
        ++ record {
          commit_version_start = checkpoint / 1000000;
          xid_start = trx.0;
          gtid_start = trx.1;
          trxs_num = 0;
        }
          ∷ []
      else m.gtid_checkpoint_set;
}

-- The loop that drops cached sequences from the front.
unfoldable pub drop_outdated : ℕ → ℕ → List (ℕ × List ℕ) → List (ℕ × List ℕ)
drop_outdated cache_seconds current [] = []
drop_outdated cache_seconds current (entry ∷ entries) =
    let rest = drop_outdated cache_seconds current entries in
    if ltb (sub_uint64 current entry.0) cache_seconds then entry ∷ entries else rest

abbrev pub last_entry : List (ℕ × List ℕ) → Option (ℕ × List ℕ)
last_entry [] = none
last_entry (entry ∷ []) = some entry
last_entry (entry ∷ next ∷ rest) = last_entry (next ∷ rest)

-- Is the sequence not later than the last cached one, right after a restart?
unfoldable pub is_skipped : GtidSeq → GtidManager → Bool
unfolding deserialize
is_skipped s m = elim (last_entry m.gtid_seq_set) [
  | none ↦ false
  | some entry ↦
      m.first_entry_after_restarted
      && leb s.commit_version_start (deserialize no_gtid_seq entry.1).commit_version_start
]

unfoldable pub save_gtid_seq : Config → GtidIo → GtidSeq → GtidManager → GtidManager × Bool
unfolding is_skipped drop_outdated serialize
save_gtid_seq config io s m =
    let text = serialize s in
    let cached = record m {
      gtid_seq_set =
          drop_outdated config.gtid_memory_cache_seconds s.commit_version_start m.gtid_seq_set
          ++ (s.commit_version_start, text) ∷ [];
    } in
    let stored = record cached {
      first_entry_after_restarted = false;
      gtid_file = m.gtid_file ++ (text ++ newline ∷ []);
    } in
    if is_skipped s m
    then (m, true)
    else if io.appends text
    then (stored, true)
    else (cached, false)

-- The lines that stay and the version of the first of them. As in the code, 0 stands for none yet.
unfoldable pub filter_lines : (GtidSeq → Bool) → List (List ℕ) → ℕ → List (List ℕ) × ℕ
unfolding deserialize
filter_lines test [] checkpoint = ([], checkpoint)
filter_lines test (line ∷ ls) checkpoint =
    let s = deserialize no_gtid_seq line in
    let (kept, found) =
      filter_lines test ls
        (if test s && (checkpoint == 0) then s.commit_version_start else checkpoint) in
    (if test s then line ∷ kept else kept, found)

unfoldable pub rewrite_gtid_file : GtidIo → (GtidSeq → Bool) → Bool → GtidManager → GtidManager
unfolding filter_lines lines unlines
rewrite_gtid_file io test update_first_checkpoint m =
    let (kept, first_checkpoint) = filter_lines test (lines m.gtid_file) 0 in
    if io.opens
    then record m {
      gtid_file = if io.renames then unlines kept else m.gtid_file;
      last_checkpoint_purged =
          if update_first_checkpoint then first_checkpoint else m.last_checkpoint_purged;
    }
    else m

-- `update_gtid_purged` and `update_gtid_executed`; the system variables that they also set are the
-- texts of these sets.
unfoldable pub update_gtid_purged : Config → ℕ → GtidManager → GtidManager
unfolding merge_gtid_before
update_gtid_purged config gtid m = record m {
  last_gtid_purged = gtid;
  gtid_purged_set = merge_gtid_before config.master_server_uuid m.gtid_purged_set (1, gtid);
}

unfoldable pub update_gtid_executed : Config → ℕ → GtidManager → GtidManager
unfolding merge_gtid_before
update_gtid_executed config gtid m = record m {
  gtid_executed_set = merge_gtid_before config.master_server_uuid m.gtid_executed_set (1, gtid);
}

unfoldable pub purge_gtid_before : Config → GtidIo → ℕ → GtidManager → GtidManager
unfolding rewrite_gtid_file update_gtid_purged
purge_gtid_before config io last_gtid_purged m =
    update_gtid_purged config last_gtid_purged
      (rewrite_gtid_file io (λ s. ltb last_gtid_purged s.gtid_start) true m)

-- `elapsed` is the difference as an `int`, of 32 bits.
unfoldable pub is_outdated : Config → ℕ → GtidManager → Bool
is_outdated config current m =
    let elapsed = sub_uint64 current m.last_checkpoint_purged % 2 ^ 32 in
    ltb elapsed (2 ^ 31) && ltb config.outdated_after elapsed

abbrev pub is_nil : List ℕ → Bool
is_nil [] = true
is_nil (x ∷ xs) = false

-- A sequence that is not a heartbeat stays whatever its version.
abbrev pub outlives : ℕ → GtidSeq → Bool
outlives purged s =
    leb purged s.commit_version_start
    || (ltb s.commit_version_start purged && not (is_nil s.xid_start))

unfoldable pub clear_outdated_heartbeat_gtid_seqs_periodically :
    Config → GtidIo → ℕ → GtidManager → GtidManager
unfolding is_outdated rewrite_gtid_file
clear_outdated_heartbeat_gtid_seqs_periodically config io current m =
    let purged = sub_uint64 current config.binlog_expire_logs_seconds in
    if is_outdated config current m
    then rewrite_gtid_file io (outlives purged) false (record m { last_checkpoint_purged = purged })
    else m

-- The results of the single saves are only logged.
unfoldable pub save_all : Config → GtidIo → List GtidSeq → GtidManager → GtidManager
unfolding save_gtid_seq
save_all config io [] m = m
save_all config io (s ∷ ss) m = save_all config io ss (save_gtid_seq config io s m).0

-- The sequence that step 2 of `compress_and_save_gtid_seq` makes.
abbrev pub compressed : List ℕ × ℕ → GtidManager → GtidSeq
compressed trx m = record {
  commit_version_start = if ltb 0 m.nof_trx then m.curr_trx_checkpoint else m.curr_hb_checkpoint;
  xid_start = if ltb 0 m.nof_trx then trx.0 else [];
  gtid_start = trx.1;
  trxs_num = m.nof_trx;
}

unfoldable pub is_due : Config → ℕ → GtidManager → Bool
is_due config high m =
    not (leb high m.last_saved_commit_version_high)
    && (leb config.gtid_seq_compressed_interval_s (high - m.last_saved_commit_version_high)
        || leb config.gtid_seq_compressed_trx_size m.nof_trx)

unfoldable pub compress_and_save_gtid_seq : Config → GtidIo → List ℕ × ℕ → GtidManager → GtidManager
unfolding save_all save_gtid_seq is_due clear_outdated_heartbeat_gtid_seqs_periodically
compress_and_save_gtid_seq config io trx m =
    let saved = record (save_all config io m.gtid_checkpoint_set m) { gtid_checkpoint_set = [] } in
    let high = max saved.curr_hb_checkpoint saved.curr_trx_checkpoint in
    if is_due config high saved
    then clear_outdated_heartbeat_gtid_seqs_periodically config io high
        (record (save_gtid_seq config io (compressed trx saved) saved).0 {
          last_saved_commit_version_high = high;
          nof_trx = 0;
        })
    else saved
