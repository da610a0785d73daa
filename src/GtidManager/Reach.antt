-- ===== src/GtidManager/Reach.antt =====
-- Every history of marking, saving, purging and restarting keeps the cached sequences and the file in
-- order.
pub mod Steps
pub mod History
use Prim.Native.Nat.{max}
use oblogproxy.Common.{
  ℕ, zero, suc, ◌+◌, ◌-◌, ◌/◌, ◌%◌, ◌^◌, ◌≤◌, ◌<◌, ◌≡◌, ◌≢◌, refl, sym, ap, subst, ◌∙◌, List, [],
  ◌∷◌, ◌++◌, append-nil, append_assoc, Bool, true, false, Bool-cases, inl, inr, not, ◌&&◌, ◌||◌,
  if◌then◌else◌, ltb, leb, ◌==◌, Option, none, some, All, arith,
}
use oblogproxy.Text.Split.{All-map, All-append}
use oblogproxy.Text.Decimal.{to_string, IsDigit, to_string-IsDigit}
use oblogproxy.Text.Lines.{newline, lines, unlines, IsLine, lines-unlines, unlines-append}
use oblogproxy.GtidManager.Seq.{
  GtidSeq, no_gtid_seq, serialize, deserialize, IsXid, IsPrintable, deserialize-serialize,
}
use oblogproxy.GtidManager.State.{
  GtidManager, Config, GtidIo, mark_event, drop_outdated, is_skipped, save_gtid_seq, filter_lines,
  rewrite_gtid_file, update_gtid_purged, update_gtid_executed, purge_gtid_before, is_outdated,
  clear_outdated_heartbeat_gtid_seqs_periodically, save_all, compressed, is_due,
  compress_and_save_gtid_seq,
}
use oblogproxy.GtidManager.Restart.{load_lines, init_gtid_seq, new_gtid_manager}

-- A sequence that the file can hold: printable, and on one line.
pub record IsKept (s : GtidSeq) : Type 0 where
  pub printable : IsPrintable s
  pub one_line : IsLine s.xid_start

-- A line of the file, and an entry of the cache: the text of a sequence, with its version.
abbrev pub IsStored : List ℕ → Type 0
IsStored line = (s : GtidSeq) × IsKept s × (line ≡ serialize s)

abbrev pub IsCached : ℕ × List ℕ → Type 0
IsCached entry =
    (s : GtidSeq) × IsKept s × (entry.0 ≡ s.commit_version_start) × (entry.1 ≡ serialize s)

pub record IsSound (m : GtidManager) : Type 0 where
  pub hb_fits : m.curr_hb_checkpoint < 2 ^ 63
  pub trx_fits : m.curr_trx_checkpoint < 2 ^ 63
  pub count_fits : m.nof_trx < 2 ^ 63
  pub checkpoints : All IsKept m.gtid_checkpoint_set
  pub cache : All IsCached m.gtid_seq_set
  pub file : (ls : List (List ℕ)) × (m.gtid_file ≡ unlines ls) × All IsStored ls

serialize-IsLine : (s : GtidSeq) → IsKept s → IsLine (serialize s)
unfolding serialize
serialize-IsLine s k = piece (to_string s.commit_version_start) _ (number s.commit_version_start) (
    piece s.xid_start _ k.one_line
      (piece (to_string s.gtid_start) _ (number s.gtid_start) (number s.trxs_num)))
  where
    number : (n : ℕ) → IsLine (to_string n)
    number n =
        All-map IsDigit (λ b. b ≢ newline) (to_string n) (λ b h. omega arith) (to_string-IsDigit n)

    piece : (t rest : List ℕ) → IsLine t → IsLine rest → IsLine (t ++ b'#' ∷ rest)
    piece t rest h hs = All-append (λ b. b ≢ newline) t (b'#' ∷ rest) h (omega arith, hs)

IsStored-IsLine : (ls : List (List ℕ)) → All IsStored ls → All IsLine ls
IsStored-IsLine ls = All-map IsStored IsLine ls (λ l h. rw h.2 (serialize-IsLine h.0 h.1))

drop_outdated-All :
    (cache_seconds current : ℕ) (entries : List (ℕ × List ℕ))
    → All IsCached entries
    → All IsCached (drop_outdated cache_seconds current entries)
unfolding drop_outdated
drop_outdated-All cache_seconds current [] h = tt
drop_outdated-All cache_seconds current (entry ∷ entries) (h, hs) =
    ground (arith, h, hs, drop_outdated-All cache_seconds current entries hs)

unlines_one : (l : List ℕ) → unlines (l ∷ []) ≡ l ++ newline ∷ []
unfolding unlines
unlines_one l = refl

-- A save keeps the state sound, and changes neither the clocks nor the count nor the marks.
module _ (config : Config) (io : GtidIo) (s : GtidSeq) (m : GtidManager) (k : IsKept s)
    (h : IsSound m) where
  cache_after : All IsCached (
      drop_outdated config.gtid_memory_cache_seconds s.commit_version_start m.gtid_seq_set
      ++ (s.commit_version_start, serialize s) ∷ [])
  cache_after =
      All-append IsCached _ ((s.commit_version_start, serialize s) ∷ [])
        (drop_outdated-All config.gtid_memory_cache_seconds s.commit_version_start m.gtid_seq_set
          h.cache)
        ((s, k, refl, refl), tt)

  file_after :
      (ls : List (List ℕ)) × ((m.gtid_file ++ (serialize s ++ newline ∷ [])) ≡ unlines ls)
      × All IsStored ls
  file_after = (
    h.file.0 ++ serialize s ∷ [],
    ap (λ t. t ++ (serialize s ++ newline ∷ [])) h.file.1
        ∙ sym (
            unlines-append h.file.0 (serialize s ∷ [])
            ∙ ap (λ t. unlines h.file.0 ++ t) (unlines_one (serialize s))),
    All-append IsStored h.file.0 (serialize s ∷ []) h.file.2 ((s, k, refl), tt),
  )

  pub save_gtid_seq-IsSound : IsSound (save_gtid_seq config io s m).0
  unfolding save_gtid_seq
  save_gtid_seq-IsSound = elim (Bool-cases (is_skipped s m)) [
    | inl skipped ↦ rw skipped h
    | inr later ↦ elim (Bool-cases (io.appends (serialize s))) [
      | inl appended ↦
          rw (later, appended)
            (record {
              hb_fits = h.hb_fits;
              trx_fits = h.trx_fits;
              count_fits = h.count_fits;
              checkpoints = h.checkpoints;
              cache = cache_after;
              file = file_after;
            })
      | inr refused ↦
          rw (later, refused)
            (record {
              hb_fits = h.hb_fits;
              trx_fits = h.trx_fits;
              count_fits = h.count_fits;
              checkpoints = h.checkpoints;
              cache = cache_after;
              file = h.file;
            })
    ]
  ]

pub save_all-IsSound :
    (config : Config) (io : GtidIo) (ss : List GtidSeq) (m : GtidManager)
    → All IsKept ss
    → IsSound m
    → IsSound (save_all config io ss m)
unfolding save_all
save_all-IsSound config io [] m ks h = h
save_all-IsSound config io (s ∷ ss) m (k, ks) h =
    save_all-IsSound config io ss (save_gtid_seq config io s m).0 ks
      (save_gtid_seq-IsSound config io s m k h)

filter_lines-Stored :
    (test : GtidSeq → Bool) (ls : List (List ℕ)) (checkpoint : ℕ)
    → All IsStored ls
    → All IsStored (filter_lines test ls checkpoint).0
unfolding filter_lines
filter_lines-Stored test [] checkpoint h = tt
filter_lines-Stored test (line ∷ ls) checkpoint (h, hs) =
    elim (Bool-cases (test (deserialize no_gtid_seq line))) [
      | inl stays ↦ rw stays (h, filter_lines-Stored test ls _ hs)
      | inr goes ↦ rw goes (filter_lines-Stored test ls _ hs)
    ]

pub file-Stored : (m : GtidManager) → IsSound m → All IsStored (lines m.gtid_file)
file-Stored m h = let (ls, e, hs) = h.file in rw (e, lines-unlines ls (IsStored-IsLine ls hs)) hs

pub rewrite_gtid_file-IsSound :
    (io : GtidIo) (test : GtidSeq → Bool) (update : Bool) (m : GtidManager)
    → IsSound m
    → IsSound (rewrite_gtid_file io test update m)
unfolding rewrite_gtid_file
rewrite_gtid_file-IsSound io test update m h = elim (Bool-cases io.opens) [
  | inr shut ↦ rw shut h
  | inl opened ↦ rw opened (record {
    hb_fits = h.hb_fits;
    trx_fits = h.trx_fits;
    count_fits = h.count_fits;
    checkpoints = h.checkpoints;
    cache = h.cache;
    file = elim (Bool-cases io.renames) [
      | inl renamed ↦ (
        (filter_lines test (lines m.gtid_file) 0).0,
        rw renamed refl,
        filter_lines-Stored test (lines m.gtid_file) 0 (file-Stored m h),
      )
      | inr stays ↦ (h.file.0, rw stays h.file.1, h.file.2)
    ];
  })
]
