-- ===== src/GtidManager/Restart.antt =====
-- `init_gtid_seq` and `read_last_valid_gtid_seq` of binlog/gtid_manager.cpp, which a start calls,
-- and the operations that only read the cached sequences.
use oblogproxy.Common.{
  ℕ, ◌+◌, ◌%◌, ◌^◌, List, [], ◌∷◌, ◌++◌, Bool, true, false, not, ◌&&◌, ◌||◌, if◌then◌else◌, ltb,
  leb, ◌==◌, Option, none, some,
}
use oblogproxy.Text.Lines.{lines}
use oblogproxy.GtidManager.Seq.{GtidSeq, no_gtid_seq, deserialize}
use oblogproxy.GtidManager.State.{GtidManager, Config, sub_uint64, last_entry, is_nil}

abbrev pub reverse_lines : List (List ℕ) → List (List ℕ) → List (List ℕ)
reverse_lines [] out = out
reverse_lines (l ∷ ls) out = reverse_lines ls (l ∷ out)

-- The lines from the last to the first, up to one with a version that is not 0. The code finds them
-- by their newlines, from the end of the file.
unfoldable pub read_backwards : List (List ℕ) → GtidSeq → GtidSeq
unfolding deserialize
read_backwards [] s = s
read_backwards (line ∷ ls) s =
    if s.commit_version_start == 0 then read_backwards ls (deserialize s line) else s

unfoldable pub read_last_valid_gtid_seq : List ℕ → GtidSeq → GtidSeq
unfolding read_backwards lines
read_last_valid_gtid_seq file s = read_backwards (reverse_lines (lines file) []) s

-- What the loop of `init_gtid_seq` changes; `local` is its object, which a malformed line leaves.
pub record Loaded : Type 0 where
  pub purged : ℕ
  pub cached : List (ℕ × List ℕ)

unfoldable pub load_lines : Config → ℕ → List (List ℕ) → GtidSeq → ℕ → Loaded
unfolding deserialize
load_lines config last_checkpoint [] local purged = record { purged = purged; cached = [] }
load_lines config last_checkpoint (line ∷ ls) local purged =
    let s = deserialize local line in
    let rest =
      load_lines config last_checkpoint ls s
        (if purged == 0 then s.commit_version_start else purged) in
    if ltb (sub_uint64 last_checkpoint s.commit_version_start) config.gtid_memory_cache_seconds
    then record rest { cached = (s.commit_version_start, line) ∷ rest.cached }
    else rest

-- `opens`: does the file open? `now_s` is the clock.
unfoldable pub init_gtid_seq : Config → Bool → ℕ → GtidManager → GtidManager
unfolding read_last_valid_gtid_seq load_lines lines
init_gtid_seq config opens now_s m =
    let last = read_last_valid_gtid_seq m.gtid_file no_gtid_seq in
    let last_checkpoint =
      if last.commit_version_start == 0 then now_s else last.commit_version_start in
    let loaded =
      load_lines config last_checkpoint (lines m.gtid_file) no_gtid_seq m.last_checkpoint_purged in
    if opens
    then record m {
      last_checkpoint_purged = loaded.purged;
      gtid_seq_set = m.gtid_seq_set ++ loaded.cached;
      first_entry_after_restarted = true;
    }
    else m

-- `GtidManager(gtid_seq_filename)`, with what the file holds.
abbrev pub new_gtid_manager : List ℕ → GtidManager
new_gtid_manager file = record {
  nof_trx = 0;
  curr_hb_checkpoint = 0;
  curr_trx_checkpoint = 0;
  last_saved_commit_version_high = 0;
  first_entry_after_restarted = false;
  gtid_checkpoint_set = [];
  last_gtid_purged = 0;
  last_checkpoint_purged = 0;
  gtid_seq_set = [];
  gtid_purged_set = [];
  gtid_executed_set = [];
  gtid_file = file;
}

unfoldable pub init_start_timestamp : ℕ → GtidManager → GtidManager
init_start_timestamp start_timestamp m = record m {
  last_saved_commit_version_high = start_timestamp;
}

-- `none` is OMS_FAILED.
unfoldable pub get_latest_gtid_seq : GtidSeq → GtidManager → Option GtidSeq
unfolding deserialize
get_latest_gtid_seq old m = elim (last_entry m.gtid_seq_set) [
  | none ↦ none
  | some entry ↦ some (deserialize old entry.1)
]

-- The loop of `get_first_le_gtid_seq`, over the cached sequences from the last to the first.
unfoldable pub first_le : ℕ → List (ℕ × List ℕ) → Option GtidSeq
unfolding deserialize
first_le gtid [] = none
first_le gtid (entry ∷ entries) =
    let s = deserialize no_gtid_seq entry.1 in
    let rest = first_le gtid entries in
    if ltb s.gtid_start gtid || ((s.gtid_start == gtid) && not (is_nil s.xid_start))
    then some s
    else rest

abbrev pub reverse_entries : List (ℕ × List ℕ) → List (ℕ × List ℕ) → List (ℕ × List ℕ)
reverse_entries [] out = out
reverse_entries (e ∷ es) out = reverse_entries es (e ∷ out)

unfoldable pub get_first_le_gtid_seq : ℕ → GtidManager → Option GtidSeq
unfolding first_le
get_first_le_gtid_seq gtid m = first_le gtid (reverse_entries m.gtid_seq_set [])

-- The loops of `get_instance_incr_gtids_string`, over the versions and the texts: each text behind
-- the timestamp with '|' behind it, up to the first text with which there are more than `most`.
unfoldable pub append_later : ℕ → ℕ → ℕ → List (ℕ × List ℕ) → List ℕ → List ℕ
append_later most timestamp count [] gtids = gtids
append_later most timestamp count ((version, text) ∷ rest) gtids =
    let later = ltb timestamp version in
    let gtids' = if later then gtids ++ text ++ b'|' ∷ [] else gtids in
    let count' = if later then (count + 1) % 2 ^ 32 else count in
    let all = append_later most timestamp count' rest gtids' in
    if ltb most count' then gtids' else all

abbrev pub numbered_lines : List (List ℕ) → List (ℕ × List ℕ)
numbered_lines [] = []
numbered_lines (l ∷ ls) = ((deserialize no_gtid_seq l).commit_version_start, l) ∷ numbered_lines ls

abbrev pub pop_back : List ℕ → List ℕ
pop_back [] = []
pop_back (b ∷ []) = []
pop_back (b ∷ c ∷ bs) = b ∷ pop_back (c ∷ bs)

-- From the cache, or from the file where the timestamp is before the first cached version.
unfoldable pub get_instance_incr_gtids_string : Config → Bool → ℕ → List ℕ → GtidManager → List ℕ
unfolding append_later lines
get_instance_incr_gtids_string config opens timestamp gtids m = elim m.gtid_seq_set [
  | [] ↦ gtids
  | front ∷ entries ↦
      if leb front.0 timestamp
      then pop_back (append_later config.max_incr_gtid_seqs_num timestamp 0 (front ∷ entries) gtids)
      else if opens
      then pop_back (
          append_later config.max_incr_gtid_seqs_num timestamp 0
            (numbered_lines (lines m.gtid_file)) gtids)
      else gtids
]
