-- ===== src/Event/Scan/Verified.antt =====
-- `seek_and_verify_complete_trx` on a file in which the events stand one behind another.
use oblogproxy.Common.{ℕ, suc, ◌<◌, ◌≡◌, refl, ap, List, ◌++◌, true, length, arith, drop_all}
use oblogproxy.Event.Scan.{
  BinlogTrxOverview, binlog_magic, same_bytes, magic_read, verified, seek_and_verify_complete_trx,
}
use oblogproxy.Event.Scan.Layout.{Raw, bytes, LaidOut, handled, scan_trx-handled}

magic_there :
    (fresh : ℕ → List ℕ) (crc32 : List ℕ → ℕ) (heap : List ℕ) (flag : ℕ) (es : List Raw)
    → length (fresh 4) ≡ 4
    → same_bytes (magic_read crc32 fresh heap flag (binlog_magic ++ bytes es)) binlog_magic ≡ true
magic_there fresh crc32 heap flag es sized =
    rw (drop_all (suc (suc (suc (suc (length (bytes es)))))) (fresh 4) (omega (arith, sized))) refl

-- On a file with the magic number and events one behind another, each with a header in range that
-- states where the event ends, the scan needs one unit of fuel more than there are events. It
-- handles each event once and in order, and then verifies the last one of the last complete
-- transaction.
pub seek_and_verify_complete_trx-handled :
    (crc32 : List ℕ → ℕ) (fresh : ℕ → List ℕ) (heap : List ℕ) (flag : ℕ) (es : List Raw) (n : ℕ)
    (trx : BinlogTrxOverview)
    → length (fresh 4) ≡ 4
    → LaidOut 4 es
    → length es < n
    → seek_and_verify_complete_trx crc32 fresh heap flag (binlog_magic ++ bytes es) n trx
      ≡ verified crc32 fresh heap flag
          (binlog_magic ++ bytes es)
          (handled heap flag (binlog_magic ++ bytes es) 4 es (trx, 0))
unfolding seek_and_verify_complete_trx
seek_and_verify_complete_trx-handled crc32 fresh heap flag es n trx sized v enough =
    rw (magic_there fresh crc32 heap flag es sized) (
      ap (verified crc32 fresh heap flag (binlog_magic ++ bytes es)) (
        scan_trx-handled heap flag (binlog_magic ++ bytes es) n es binlog_magic (trx, 0) enough refl
          v))
