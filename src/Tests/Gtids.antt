-- ===== src/Tests/Gtids.antt =====
-- Sequences and sets of GTIDs on concrete values.
use Prim.Native.Nat.{max}
use oblogproxy.Common.{
  ℕ, zero, suc, ◌^◌, ◌+◌, ◌<◌, ◌≡◌, refl, List, [], ◌∷◌, ◌++◌, map, true, false, ◌&&◌, ◌||◌, leb,
  length, replicate, some, All, arith,
}
use oblogproxy.Text.Split.{joined}
use oblogproxy.Text.Lines.{lines}
use oblogproxy.GtidSet.Message.{GtidMessage, covers}
use oblogproxy.GtidSet.Uuid.{uuid_hex_bin_to_str_with_delim}
use oblogproxy.GtidSet.Before.{is_of, merge_gtid_before, merge_gtid_before-covers}
use oblogproxy.GtidSet.Format.{format_string, deserialize_gtid_set}
use oblogproxy.GtidSet.Format.RoundTrip.{deserialize_gtid_set-format_string}
use oblogproxy.GtidManager.Seq.{GtidSeq, no_gtid_seq, serialize, deserialize}
use oblogproxy.GtidManager.Search.{binary_search_gtid_seq}
use oblogproxy.GtidManager.Search.Found.{seq_at, IsOrdered}
use oblogproxy.GtidManager.Search.Chosen.{IsListed, Chosen, binary_search_gtid_seq-Chosen}
use oblogproxy.GtidManager.State.{
  GtidManager, Config, GtidIo, mark_event, compress_and_save_gtid_seq,
}
use oblogproxy.GtidManager.Restart.{new_gtid_manager}
use oblogproxy.GtidManager.Reach.Steps.{IsTrx, Reach, start, next, marked, compressed_and_saved}
use oblogproxy.GtidManager.Reach.History.{Reach-reads_back}

abbrev seq_of : ℕ → ℕ → GtidSeq
seq_of version gtid = record {
  commit_version_start = version;
  xid_start = b'x' ∷ b'1' ∷ [];
  gtid_start = gtid;
  trxs_num = 5;
}

in_order : IsOrdered (seq_of 10 100 ∷ seq_of 20 200 ∷ [])
in_order zero zero h l = omega arith
in_order (suc i) zero h l = absurd (omega arith)
in_order zero (suc zero) h l = omega arith
in_order (suc zero) (suc zero) h l = omega arith
in_order (suc (suc i)) (suc zero) h l = absurd (omega arith)
in_order i (suc (suc j)) h l = absurd (omega arith)

binary_search_gtid_seq-Chosen_example :
    (i : ℕ) × (binary_search_gtid_seq 15
        (joined b'|' (serialize (seq_of 10 100)) (map serialize (seq_of 20 200 ∷ [])))
        no_gtid_seq
      ≡ some (some (seq_at (seq_of 10 100 ∷ seq_of 20 200 ∷ []) i)))
    × Chosen (seq_of 10 100 ∷ seq_of 20 200 ∷ []) 15 i
binary_search_gtid_seq-Chosen_example =
    binary_search_gtid_seq-Chosen (seq_of 10 100) (seq_of 20 200 ∷ []) 15 no_gtid_seq listed
      in_order (omega arith)
  where
    printable :
        (version gtid : ℕ) → version < 2 ^ 63 → gtid < 2 ^ 63 → IsListed (seq_of version gtid)
    printable version gtid h k = record {
      printable = record {
        version_fits = h;
        gtid_fits = k;
        trxs_fits = omega arith;
        xid_inside = omega arith;
      };
      no_bar = omega arith;
    }

    listed : All IsListed (seq_of 10 100 ∷ seq_of 20 200 ∷ [])
    listed = (
      printable 10 100 (omega arith) (omega arith),
      (printable 20 200 (omega arith) (omega arith), tt),
    )

abbrev uuid : List ℕ
uuid = 137 ∷ 251 ∷ 206 ∷ 162 ∷ replicate 12 17

abbrev uuid_text : List ℕ
uuid_text = uuid_hex_bin_to_str_with_delim uuid

abbrev entry : GtidMessage
entry = record { gtid_uuid = uuid; gtid_txn_id_intervals = 2; txn_range = (1, 5) ∷ (10, 12) ∷ [] }

abbrev empty_entry : GtidMessage
empty_entry = record { gtid_uuid = []; gtid_txn_id_intervals = 0; txn_range = [] }

-- The ids behind the last range are taken in, those of the gap are not.
merge_gtid_before-covers_example :
    (m' : GtidMessage) × (merge_gtid_before uuid_text ([] ++ entry ∷ []) (1, 20) ≡ [] ++ m' ∷ [])
    × (m'.gtid_uuid ≡ entry.gtid_uuid)
    × (m'.gtid_txn_id_intervals ≡ length m'.txn_range)
    × ((x : ℕ)
        → covers x m'.txn_range
          ≡ (covers x entry.txn_range || (leb (max 1 (12 + 1)) x && leb x 20)))
merge_gtid_before-covers_example =
    merge_gtid_before-covers uuid_text 1 20 [] [] entry ((1, 5) ∷ []) (10, 12) tt own tt refl
      (omega arith) (omega arith)
  where
    own : is_of uuid_text entry ≡ true
    own = unfold is_of in refl

deserialize_gtid_set-format_string_example :
    deserialize_gtid_set empty_entry (format_string entry)
    ≡ some (record empty_entry { gtid_uuid = entry.gtid_uuid; txn_range = entry.txn_range })
deserialize_gtid_set-format_string_example =
    deserialize_gtid_set-format_string empty_entry entry (1, 5) ((10, 12) ∷ []) refl (omega arith)
      refl (omega arith) (omega arith) refl

abbrev config : Config
config = record {
  gtid_marking_step_size = 100000;
  gtid_seq_compressed_interval_s = 10;
  gtid_seq_compressed_trx_size = 100000;
  gtid_memory_cache_seconds = 7200;
  max_incr_gtid_seqs_num = 200;
  binlog_expire_logs_seconds = 1800;
  outdated_after = 2160;
  master_server_uuid = uuid_text;
}

abbrev io : GtidIo
io = record { appends = λ text. true; opens = true; renames = true }

abbrev trx : List ℕ × ℕ
trx = (b'x' ∷ b'1' ∷ [], 100000)

abbrev after_mark : GtidManager
after_mark = mark_event config false 1700000000000000 trx (new_gtid_manager [])

abbrev after_save : GtidManager
after_save = compress_and_save_gtid_seq config io trx after_mark

trx-IsTrx : IsTrx trx
trx-IsTrx = record { inside = omega arith; one_line = omega arith; fits = omega arith }

saved-Reach : Reach config after_save
saved-Reach =
    next (next start (marked false 1700000000000000 trx (omega arith) trx-IsTrx (omega arith)))
      (compressed_and_saved io trx trx-IsTrx)

Reach-reads_back_example :
    All (λ e. (deserialize no_gtid_seq e.1).commit_version_start ≡ e.0) after_save.gtid_seq_set
    × All (λ line. serialize (deserialize no_gtid_seq line) ≡ line) (lines after_save.gtid_file)
Reach-reads_back_example = Reach-reads_back config after_save no_gtid_seq saved-Reach

-- A transaction whose number is a multiple of the step is saved twice: as a mark, and with the count.
saved_twice : length after_save.gtid_seq_set ≡ 2
unfolding compress_and_save_gtid_seq mark_event
saved_twice = refl
