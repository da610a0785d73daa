-- ===== src/Tests/Indexes.antt =====
-- The index of binlog files on concrete records.
use oblogproxy.Common.{
  ℕ, ◌≡◌, refl, List, [], ◌∷◌, ◌++◌, true, not, none, some, arith, if◌then◌else◌, ◌==◌,
}
use oblogproxy.BinlogIndex.Record.{BinlogIndexRecord, no_record, line_of, equal_to, same_c_string}
use oblogproxy.BinlogIndex.Manager.{
  BinlogIndexManager, Io, fetch_index_vector, add_index, is_active, text_of,
}
use oblogproxy.BinlogIndex.Purge.{PurgeOutcome, purge_binlog_index, remove_binlog}
use oblogproxy.BinlogIndex.Update.{get_latest_index, update_index}
use oblogproxy.BinlogIndex.Refine.{Represents, IsWorking, keep, Holds}
use oblogproxy.BinlogIndex.Refine.Operations.{operations-Represents}
use oblogproxy.BinlogIndex.Refine.Purging.{active_of, KeepsActive, purge_binlog_index-KeepsActive}
use oblogproxy.BinlogIndex.Refine.PurgeTo.{inactive_names, last_gtid, purge_binlog_index-to_file}

abbrev first_file : BinlogIndexRecord
first_file = record {
  file_name = b'd' ∷ b'/' ∷ b'1' ∷ [];
  index = 1;
  before_mapping = ([], 0);
  current_mapping = (b'x' ∷ b'7' ∷ [], 12);
  checkpoint = 50;
  position = 400;
}

abbrev second_file : BinlogIndexRecord
second_file = record {
  file_name = b'd' ∷ b'/' ∷ b'2' ∷ [];
  index = 2;
  before_mapping = (b'x' ∷ b'7' ∷ [], 12);
  current_mapping = (b'x' ∷ b'9' ∷ [], 30);
  checkpoint = 80;
  position = 154;
}

abbrev third_file : BinlogIndexRecord
third_file = record {
  file_name = b'd' ∷ b'/' ∷ b'3' ∷ [];
  index = 3;
  before_mapping = (b'x' ∷ b'9' ∷ [], 30);
  current_mapping = (b'y' ∷ [], 18446744073709551615);
  checkpoint = 120;
  position = 9223372036854775807;
}

abbrev works : Io
works = record { opened = true; resized = true; written = true; renamed = true; removed = true }

abbrev index : BinlogIndexManager
index = record {
  index_file = text_of (first_file ∷ second_file ∷ []);
  memory_index_record = second_file;
}

index-Represents : Represents index (first_file ∷ second_file ∷ [])
index-Represents = record { text = refl; records = omega arith }

works-IsWorking : IsWorking works
works-IsWorking = record {
  opens = refl;
  resizes = refl;
  writes = refl;
  renames = refl;
  removes = refl;
}

abbrev two_files : List ℕ
two_files = line_of first_file ++ line_of second_file

operations-Represents_example :
    (fetch_index_vector works index ≡ some ((first_file ∷ []) ++ second_file ∷ [], true))
    × (get_latest_index works [] no_record index ≡ some (second_file, true))
    × Holds
        (some (add_index works third_file index))
        (((first_file ∷ []) ++ second_file ∷ []) ++ third_file ∷ [])
    × Holds (update_index works third_file index) ((first_file ∷ []) ++ third_file ∷ [])
    × Holds
        (remove_binlog works third_file index)
        (keep (λ s. not (equal_to s third_file)) ((first_file ∷ []) ++ second_file ∷ []))
operations-Represents_example =
    operations-Represents works index (first_file ∷ []) second_file third_file no_record []
      works-IsWorking index-Represents (omega arith)

abbrev hundred : List ℕ → ℕ
hundred ts = 100

purge_binlog_index-KeepsActive_example :
    (out : PurgeOutcome) × (purge_binlog_index hundred works [] [] (b'n' ∷ []) index ≡ some out)
    × KeepsActive index (first_file ∷ second_file ∷ []) out
purge_binlog_index-KeepsActive_example =
    purge_binlog_index-KeepsActive hundred works [] [] (b'n' ∷ []) index
      (first_file ∷ second_file ∷ []) refl index-Represents

-- Up to the first file, which is not the one being written.
purge_binlog_index-to_file_example :
    purge_binlog_index hundred works (b'd' ∷ b'/' ∷ []) (b'1' ∷ []) [] index
    ≡ some (record {
      manager = record index {
        index_file =
            text_of (active_of (is_active index) ([] ++ first_file ∷ []) ++ second_file ∷ []);
      };
      ok = true;
      purge_binlog_files = inactive_names (is_active index) ([] ++ first_file ∷ []);
      purge_before =
          if last_gtid (is_active index) ([] ++ first_file ∷ []) == 0
          then none
          else some (last_gtid (is_active index) ([] ++ first_file ∷ []));
    })
unfolding is_active same_c_string
purge_binlog_index-to_file_example =
    purge_binlog_index-to_file hundred works (b'd' ∷ b'/' ∷ []) [] b'1' [] index []
      (second_file ∷ []) first_file works-IsWorking index-Represents (refl, tt) refl (cc) (cc)
