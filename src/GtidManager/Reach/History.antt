-- ===== src/GtidManager/Reach/History.antt =====
-- What every history keeps.
use Prim.Native.Nat.{max}
use oblogproxy.Common.{
  ℕ, ◌≡◌, refl, sym, ap, ◌∙◌, List, [], true, Bool-cases, inl, inr, ltb, All, arith,
}
use oblogproxy.Text.Split.{All-map}
use oblogproxy.Text.Lines.{lines, unlines}
use oblogproxy.GtidManager.Seq.{GtidSeq, serialize, deserialize, deserialize-serialize}
use oblogproxy.GtidManager.State.{
  GtidManager, Config, GtidIo, update_gtid_purged, update_gtid_executed, purge_gtid_before,
  save_all, compressed, is_due, compress_and_save_gtid_seq,
}
use oblogproxy.GtidManager.Restart.{new_gtid_manager}
use oblogproxy.GtidManager.Reach.{
  IsStored, IsCached, IsSound, save_gtid_seq-IsSound, save_all-IsSound, file-Stored,
  rewrite_gtid_file-IsSound,
}
use oblogproxy.GtidManager.Reach.Steps.{
  IsTrx, Step, marked, compressed_and_saved, purged, executed, restarted, Reach, start, next,
  mark_event-IsSound, compressed-IsKept, clear_outdated-IsSound, init_gtid_seq-IsSound,
}

compress-IsSound :
    (config : Config) (io : GtidIo) (trx : List ℕ × ℕ) (m : GtidManager)
    → IsTrx trx
    → IsSound m
    → IsSound (compress_and_save_gtid_seq config io trx m)
unfolding compress_and_save_gtid_seq
compress-IsSound config io trx m t h = elim (Bool-cases (is_due config high saved)) [
  | inr early ↦ rw early sound
  | inl due ↦ rw due (
      clear_outdated-IsSound config io high _ (
        let s =
          save_gtid_seq-IsSound config io (compressed trx saved) saved
            (compressed-IsKept trx saved t sound) sound in
        record {
          hb_fits = s.hb_fits;
          trx_fits = s.trx_fits;
          count_fits = omega arith;
          checkpoints = s.checkpoints;
          cache = s.cache;
          file = s.file;
        }))
]
  where
    saved : GtidManager
    saved = record (save_all config io m.gtid_checkpoint_set m) { gtid_checkpoint_set = [] }

    high : ℕ
    high = max saved.curr_hb_checkpoint saved.curr_trx_checkpoint

    sound : IsSound saved
    sound =
        let s = save_all-IsSound config io m.gtid_checkpoint_set m h.checkpoints h in
        record {
          hb_fits = s.hb_fits;
          trx_fits = s.trx_fits;
          count_fits = s.count_fits;
          checkpoints = tt;
          cache = s.cache;
          file = s.file;
        }

purge-IsSound :
    (config : Config) (io : GtidIo) (gtid : ℕ) (m : GtidManager)
    → IsSound m
    → IsSound (purge_gtid_before config io gtid m)
unfolding purge_gtid_before update_gtid_purged
purge-IsSound config io gtid m h =
    let s = rewrite_gtid_file-IsSound io (λ t. ltb gtid t.gtid_start) true m h in
    record {
      hb_fits = s.hb_fits;
      trx_fits = s.trx_fits;
      count_fits = s.count_fits;
      checkpoints = s.checkpoints;
      cache = s.cache;
      file = s.file;
    }

Step-IsSound : (config : Config) {m n : GtidManager} → Step config m n → IsSound m → IsSound n
Step-IsSound config {m} (marked is_heartbeat checkpoint trx fits t few) h =
    mark_event-IsSound config is_heartbeat checkpoint trx m fits t few h
Step-IsSound config {m} (compressed_and_saved io trx t) h = compress-IsSound config io trx m t h
Step-IsSound config {m} (purged io gtid) h = purge-IsSound config io gtid m h
Step-IsSound config {m} (executed gtid) h = executed_sound
  where
    executed_sound : IsSound (update_gtid_executed config gtid m)
    executed_sound =
        unfold update_gtid_executed in
        record {
          hb_fits = h.hb_fits;
          trx_fits = h.trx_fits;
          count_fits = h.count_fits;
          checkpoints = h.checkpoints;
          cache = h.cache;
          file = h.file;
        }
Step-IsSound config {m} (restarted opens now_s since) h =
    init_gtid_seq-IsSound config opens now_s since m h

new-IsSound : IsSound (new_gtid_manager [])
new-IsSound = record {
  hb_fits = omega arith;
  trx_fits = omega arith;
  count_fits = omega arith;
  checkpoints = tt;
  cache = tt;
  file = ([], unfold unlines in refl, tt);
}

pub Reach-IsSound : (config : Config) {m : GtidManager} → Reach config m → IsSound m
Reach-IsSound config start = new-IsSound
Reach-IsSound config (next r s) = Step-IsSound config s (Reach-IsSound config r)

-- In every history of steps from an empty file, failed writes and restarts included, each sequence
-- in memory is kept under its own version, and each line of the file, read into any object, is
-- written again as the same line.
pub Reach-reads_back :
    (config : Config) (m : GtidManager) (old : GtidSeq)
    → Reach config m
    → All (λ entry. (deserialize old entry.1).commit_version_start ≡ entry.0) m.gtid_seq_set
      × All (λ line. serialize (deserialize old line) ≡ line) (lines m.gtid_file)
Reach-reads_back config m old r =
    let h = Reach-IsSound config r in
    (
      All-map IsCached _ m.gtid_seq_set
          (λ entry c.
            ap (λ t. (deserialize old t).commit_version_start) c.3
            ∙ ap (λ t. t.commit_version_start) (deserialize-serialize old c.0 c.1.printable)
            ∙ sym c.2)
          h.cache,
      All-map IsStored _ (lines m.gtid_file)
          (λ line c.
            ap (λ t. serialize (deserialize old t)) c.2
            ∙ ap serialize (deserialize-serialize old c.0 c.1.printable)
            ∙ sym c.2)
          (file-Stored m h),
    )
