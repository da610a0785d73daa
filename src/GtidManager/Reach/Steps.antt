-- ===== src/GtidManager/Reach/Steps.antt =====
-- The steps of a history, and what the single steps keep.
use oblogproxy.Common.{
  ℕ, ◌+◌, ◌/◌, ◌%◌, ◌^◌, ◌<◌, ◌≡◌, ap, ◌∙◌, List, [], ◌∷◌, Bool, true, false, Bool-cases, inl, inr,
  ltb, ◌==◌, All, arith,
}
use oblogproxy.Text.Split.{All-append}
use oblogproxy.Text.Lines.{lines, IsLine}
use oblogproxy.GtidManager.Seq.{GtidSeq, no_gtid_seq, deserialize, IsXid, deserialize-serialize}
use oblogproxy.GtidManager.State.{
  GtidManager, Config, GtidIo, sub_uint64, outlives, mark_event, update_gtid_executed,
  purge_gtid_before, is_outdated, clear_outdated_heartbeat_gtid_seqs_periodically, compressed,
  compress_and_save_gtid_seq,
}
use oblogproxy.GtidManager.Restart.{
  load_lines, init_gtid_seq, new_gtid_manager, init_start_timestamp,
}
use oblogproxy.GtidManager.Reach.{
  IsKept, IsStored, IsCached, IsSound, file-Stored, rewrite_gtid_file-IsSound,
}

-- A transaction as the file can hold it: its id has neither '#' nor NUL nor newline, and its number
-- is below 2 ^ 63.
pub record IsTrx (trx : List ℕ × ℕ) : Type 0 where
  pub inside : IsXid trx.0
  pub one_line : IsLine trx.0
  pub fits : trx.1 < 2 ^ 63

-- What a process does: it marks an event, and there are fewer than 2 ^ 63 transactions between two
-- saves; it saves, purges, and takes in an executed GTID; it stops, and another one starts on the file.
-- Each call of the file system may fail.
pub data Step (config : Config) (m : GtidManager) : GtidManager → Type 0 where
  marked :
      (is_heartbeat : Bool) (checkpoint : ℕ) (trx : List ℕ × ℕ)
      → checkpoint < 2 ^ 64
      → IsTrx trx
      → m.nof_trx + 1 < 2 ^ 63
      → Step config m (mark_event config is_heartbeat checkpoint trx m)
  compressed_and_saved :
      (io : GtidIo) (trx : List ℕ × ℕ)
      → IsTrx trx
      → Step config m (compress_and_save_gtid_seq config io trx m)
  purged : (io : GtidIo) (gtid : ℕ) → Step config m (purge_gtid_before config io gtid m)
  executed : (gtid : ℕ) → Step config m (update_gtid_executed config gtid m)
  restarted :
      (opens : Bool) (now_s since : ℕ)
      → Step config m (
          init_start_timestamp since
            (init_gtid_seq config opens now_s (new_gtid_manager m.gtid_file)))

pub data Reach (config : Config) : GtidManager → Type 0 where
  start : Reach config (new_gtid_manager [])
  next : {m n : GtidManager} → Reach config m → Step config m n → Reach config n

pub mark_event-IsSound :
    (config : Config) (is_heartbeat : Bool) (checkpoint : ℕ) (trx : List ℕ × ℕ) (m : GtidManager)
    → checkpoint < 2 ^ 64
    → IsTrx trx
    → m.nof_trx + 1 < 2 ^ 63
    → IsSound m
    → IsSound (mark_event config is_heartbeat checkpoint trx m)
unfolding mark_event
mark_event-IsSound config true checkpoint trx m fits t few h = record {
  hb_fits = omega arith;
  trx_fits = h.trx_fits;
  count_fits = h.count_fits;
  checkpoints = h.checkpoints;
  cache = h.cache;
  file = h.file;
}
mark_event-IsSound config false checkpoint trx m fits t few h = record {
  hb_fits = h.hb_fits;
  trx_fits = omega arith;
  count_fits = omega arith;
  checkpoints = elim (Bool-cases (trx.1 % config.gtid_marking_step_size == 0)) [
    | inl due ↦ rw due (All-append IsKept m.gtid_checkpoint_set _ h.checkpoints (kept, tt))
    | inr early ↦ rw early h.checkpoints
  ];
  cache = h.cache;
  file = h.file;
}
  where
    kept : IsKept (record {
      commit_version_start = checkpoint / 1000000;
      xid_start = trx.0;
      gtid_start = trx.1;
      trxs_num = 0;
    })
    kept = record {
      printable = record {
        version_fits = omega arith;
        gtid_fits = t.fits;
        trxs_fits = omega arith;
        xid_inside = t.inside;
      };
      one_line = t.one_line;
    }

pub compressed-IsKept :
    (trx : List ℕ × ℕ) (m : GtidManager) → IsTrx trx → IsSound m → IsKept (compressed trx m)
compressed-IsKept trx m t h = record {
  printable = record {
    version_fits = ground (arith, h.trx_fits, h.hb_fits);
    gtid_fits = t.fits;
    trxs_fits = h.count_fits;
    xid_inside = elim (Bool-cases (ltb 0 m.nof_trx)) [
      | inl some_trx ↦ rw some_trx t.inside
      | inr heartbeat ↦ rw heartbeat tt
    ];
  };
  one_line = elim (Bool-cases (ltb 0 m.nof_trx)) [
    | inl some_trx ↦ rw some_trx t.one_line
    | inr heartbeat ↦ rw heartbeat tt
  ];
}

pub clear_outdated-IsSound :
    (config : Config) (io : GtidIo) (current : ℕ) (m : GtidManager)
    → IsSound m
    → IsSound (clear_outdated_heartbeat_gtid_seqs_periodically config io current m)
unfolding clear_outdated_heartbeat_gtid_seqs_periodically
clear_outdated-IsSound config io current m h = elim (Bool-cases (is_outdated config current m)) [
  | inr recent ↦ rw recent h
  | inl outdated ↦ rw outdated (
      rewrite_gtid_file-IsSound io (outlives (sub_uint64 current config.binlog_expire_logs_seconds))
        false
        (record m { last_checkpoint_purged = sub_uint64 current config.binlog_expire_logs_seconds })
        (record {
          hb_fits = h.hb_fits;
          trx_fits = h.trx_fits;
          count_fits = h.count_fits;
          checkpoints = h.checkpoints;
          cache = h.cache;
          file = h.file;
        }))
]

load_lines-Cached :
    (config : Config) (last : ℕ) (ls : List (List ℕ)) (local : GtidSeq) (purged' : ℕ)
    → All IsStored ls
    → All IsCached (load_lines config last ls local purged').cached
unfolding load_lines
load_lines-Cached config last [] local purged' h = tt
load_lines-Cached config last (line ∷ ls) local purged' ((s, k, e), hs) =
    let read : deserialize local line ≡ s =
      ap (deserialize local) e ∙ deserialize-serialize local s k.printable in
    let version : (deserialize local line).commit_version_start ≡ s.commit_version_start =
      ap (λ t. t.commit_version_start) read in
    let rest = load_lines-Cached config last ls (deserialize local line) _ hs in
    elim (Bool-cases (
      ltb (sub_uint64 last (deserialize local line).commit_version_start)
        config.gtid_memory_cache_seconds)) [
          | inl near ↦ rw near ((s, k, version, e), rest)
          | inr far ↦ rw far rest
        ]

pub init_gtid_seq-IsSound :
    (config : Config) (opens : Bool) (now_s since : ℕ) (m : GtidManager)
    → IsSound m
    → IsSound (
        init_start_timestamp since
          (init_gtid_seq config opens now_s (new_gtid_manager m.gtid_file)))
unfolding init_start_timestamp init_gtid_seq
init_gtid_seq-IsSound config false now_s since m h = record {
  hb_fits = omega arith;
  trx_fits = omega arith;
  count_fits = omega arith;
  checkpoints = tt;
  cache = tt;
  file = h.file;
}
init_gtid_seq-IsSound config true now_s since m h = record {
  hb_fits = omega arith;
  trx_fits = omega arith;
  count_fits = omega arith;
  checkpoints = tt;
  cache = load_lines-Cached config _ (lines m.gtid_file) no_gtid_seq 0 (file-Stored m h);
  file = h.file;
}
