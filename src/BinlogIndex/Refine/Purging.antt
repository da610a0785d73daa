-- ===== src/BinlogIndex/Refine/Purging.antt =====
-- What `purge_binlog_index` leaves of the records and which files it lists.
use oblogproxy.Common.{
  ℕ, ◌≡◌, refl, sym, ap, subst, ◌∙◌, List, [], ◌∷◌, ◌++◌, append-nil, Bool, true, false, Bool-cases,
  inl, inr, not, ◌&&◌, ◌||◌, ltb, some, All, arith, if◌then◌else◌,
}
use oblogproxy.Text.Split.{All-append}
use oblogproxy.BinlogIndex.Record.{BinlogIndexRecord, same_c_string}
use oblogproxy.BinlogIndex.Manager.{BinlogIndexManager, Io, is_active, rewrite_index_file}
use oblogproxy.BinlogIndex.Purge.{
  Purged, is_empty, none_purged, purge_before_loop, purge_binlog_before_ts, purge_one,
  purge_to_loop, reverse_onto, purge_binlog_to_file, PurgeOutcome, finish_purge, purge_binlog_index,
}
use oblogproxy.BinlogIndex.Refine.{IsRecord, Represents, keep, fetch-Represents}

-- The records of the files being written.
abbrev pub active_of : (List ℕ → Bool) → List BinlogIndexRecord → List BinlogIndexRecord
active_of active rs = keep (λ r. active r.file_name) rs

keep-reverse_onto :
    (test : BinlogIndexRecord → Bool) (xs out : List BinlogIndexRecord)
    → keep test (reverse_onto xs out) ≡ reverse_onto (keep test xs) (keep test out)
keep-reverse_onto test [] out = refl
keep-reverse_onto test (x ∷ xs) out = ground (arith, keep-reverse_onto test xs (x ∷ out))

All-unreverse :
    (xs out : List BinlogIndexRecord)
    → All IsRecord (reverse_onto xs out)
    → All IsRecord xs × All IsRecord out
All-unreverse [] out h = (tt, h)
All-unreverse (x ∷ xs) out h = let (a, b) = All-unreverse xs (x ∷ out) h in ((b.0, a), b.1)

All-rereverse :
    (xs out : List BinlogIndexRecord)
    → All IsRecord xs
    → All IsRecord out
    → All IsRecord (reverse_onto xs out)
All-rereverse [] out h ho = ho
All-rereverse (x ∷ xs) out (h, hs) ho = All-rereverse xs (x ∷ out) hs (h, ho)

reverse_onto-twice :
    (xs out acc : List BinlogIndexRecord)
    → reverse_onto (reverse_onto xs out) acc ≡ reverse_onto out (xs ++ acc)
reverse_onto-twice [] out acc = refl
reverse_onto-twice (x ∷ xs) out acc = reverse_onto-twice xs (x ∷ out) acc

-- What one purge may do to records: the listed files are not active, the active records stay in
-- their order, and no record comes from elsewhere.
record IsSafe (active : List ℕ → Bool) (rs : List BinlogIndexRecord) (p : Purged) : Type 0 where
  inactive : All (λ f. active f ≡ false) p.files
  same_active : active_of active p.kept ≡ active_of active rs
  records : All IsRecord rs → All IsRecord p.kept

module _ (active : List ℕ → Bool) where
  -- The rounds of `purge_before_loop`.
  before_one : Bool → BinlogIndexRecord → Purged → Purged
  before_one old r p =
      if old then record p { files = r.file_name ∷ p.files } else record p { kept = r ∷ p.kept }

  before_one-IsSafe :
      (old : Bool) (r : BinlogIndexRecord) (rs : List BinlogIndexRecord) (p : Purged)
      → (old ≡ true → active r.file_name ≡ false)
      → IsSafe active rs p
      → IsSafe active (r ∷ rs) (before_one old r p)
  unfolding before_one
  before_one-IsSafe true r rs p h s = record {
    inactive = (h refl, s.inactive);
    same_active = rw (h refl) s.same_active;
    records = λ hs. s.records hs.1;
  }
  before_one-IsSafe false r rs p h s = record {
    inactive = s.inactive;
    same_active = ap (λ t. if active r.file_name then r ∷ t else t) s.same_active;
    records = λ hs. (hs.0, s.records hs.1);
  }

  purge_before_loop-IsSafe :
      (purge_ts : ℕ) (rs : List BinlogIndexRecord) (last : ℕ)
      → IsSafe active rs (purge_before_loop active purge_ts rs last)
  unfolding purge_before_loop before_one
  purge_before_loop-IsSafe purge_ts [] last = record {
    inactive = tt;
    same_active = refl;
    records = λ h. tt;
  }
  purge_before_loop-IsSafe purge_ts (r ∷ rs) last =
      before_one-IsSafe (ltb r.checkpoint purge_ts && not (active r.file_name)) r rs _
        (λ h. ground (arith, h)) (purge_before_loop-IsSafe purge_ts rs _)

  purge_one-inactive :
      (found : Bool) (r : BinlogIndexRecord) (p : Purged)
      → All (λ f. active f ≡ false) p.files
      → All (λ f. active f ≡ false) (purge_one active found r p).files
  purge_one-inactive found r p h = elim (Bool-cases (found && not (active r.file_name))) [
    | inl purged ↦
        rw purged
          (All-append (λ f. active f ≡ false) p.files (r.file_name ∷ []) h (ground arith, tt))
    | inr stays ↦ rw stays h
  ]

  purge_one-active :
      (found : Bool) (r : BinlogIndexRecord) (p : Purged)
      → active_of active (purge_one active found r p).kept ≡ active_of active (r ∷ p.kept)
  purge_one-active found r p = ground arith

  purge_one-records :
      (found : Bool) (r : BinlogIndexRecord) (p : Purged)
      → IsRecord r
      → All IsRecord p.kept
      → All IsRecord (purge_one active found r p).kept
  purge_one-records found r p h hs = ground arith

  purge_to_loop-IsSafe :
      (target : List ℕ) (rs : List BinlogIndexRecord) (found : Bool) (p : Purged)
      → All (λ f. active f ≡ false) p.files
      → IsSafe active (reverse_onto rs p.kept) (purge_to_loop active target rs found p).0
  unfolding purge_to_loop
  purge_to_loop-IsSafe target [] found p h = record {
    inactive = h;
    same_active = refl;
    records = λ hs. hs;
  }
  purge_to_loop-IsSafe target (r ∷ rs) found p h =
      let found' = found || same_c_string r.file_name target in
      let p' = purge_one active found' r p in
      let rest = purge_to_loop-IsSafe target rs found' p' (purge_one-inactive found' r p h) in
      record {
        inactive = rest.inactive;
        same_active =
            rest.same_active
            ∙ keep-reverse_onto (λ s. active s.file_name) rs p'.kept
            ∙ ap (reverse_onto (active_of active rs)) (purge_one-active found' r p)
            ∙ sym (keep-reverse_onto (λ s. active s.file_name) rs (r ∷ p.kept));
        records = λ hs.
            let (later, here) = All-unreverse rs (r ∷ p.kept) hs in
            rest.records
              (All-rereverse rs p'.kept later (purge_one-records found' r p here.0 here.1));
      }

  purge_binlog_to_file-IsSafe :
      (target : List ℕ) (rs : List BinlogIndexRecord)
      → IsSafe active rs (purge_binlog_to_file active target rs).0
  unfolding purge_binlog_to_file
  purge_binlog_to_file-IsSafe target rs =
      subst (λ t. IsSafe active t (purge_binlog_to_file active target rs).0)
        (reverse_onto-twice rs [] [] ∙ append-nil rs)
        (purge_to_loop-IsSafe target (reverse_onto rs []) false none_purged tt)

  purge_binlog_before_ts-IsSafe :
      (convert_ts : List ℕ → ℕ) (ts : List ℕ) (rs : List BinlogIndexRecord)
      → IsSafe active rs (purge_binlog_before_ts convert_ts active ts rs).0
  unfolding purge_binlog_before_ts
  purge_binlog_before_ts-IsSafe convert_ts [] rs = record {
    inactive = tt;
    same_active = refl;
    records = λ h. h;
  }
  purge_binlog_before_ts-IsSafe convert_ts (c ∷ ts) rs =
      purge_before_loop-IsSafe (convert_ts (c ∷ ts)) rs 0

-- The outcome of a purge: the listed files are not active, and the index holds records again, the
-- active ones among them those that it held.
abbrev pub KeepsActive : BinlogIndexManager → List BinlogIndexRecord → PurgeOutcome → Type 0
KeepsActive m rs out =
    All (λ f. is_active m f ≡ false) out.purge_binlog_files
    × ((kept : List BinlogIndexRecord) × Represents out.manager kept
        × (active_of (is_active m) kept ≡ active_of (is_active m) rs))

finish_purge-KeepsActive :
    (io : Io) (m : BinlogIndexManager) (rs : List BinlogIndexRecord) (p : Purged) (ok : Bool)
    → Represents m rs
    → IsSafe (is_active m) rs p
    → KeepsActive m rs (finish_purge io m (p, ok))
unfolding finish_purge rewrite_index_file
finish_purge-KeepsActive io m rs p ok h s = (
  s.inactive,
  elim (Bool-cases
      (((ok && not (is_empty p.files)) && not (is_empty p.kept)) && (io.written && io.renamed))) [
        | inl rewrites ↦ (
          p.kept,
          record { text = ground (arith, rewrites); records = s.records h.records },
          s.same_active,
        )
        | inr stays ↦
            (rs, record { text = ground (arith, stays, h.text); records = h.records }, refl)
      ],
)

-- Whatever is asked for and however writing ends, if the index file opens and holds records that can
-- be printed, a purge lists only files that are not being written, and leaves an index file that
-- holds records again, with the same records of files being written, in their order.
pub purge_binlog_index-KeepsActive :
    (convert_ts : List ℕ → ℕ) (io : Io) (base_name binlog_file before_purge_ts : List ℕ)
    (m : BinlogIndexManager) (rs : List BinlogIndexRecord)
    → io.opened ≡ true
    → Represents m rs
    → (out : PurgeOutcome) × (purge_binlog_index convert_ts io base_name binlog_file before_purge_ts
          m
        ≡ some out)
      × KeepsActive m rs out
unfolding purge_binlog_index
purge_binlog_index-KeepsActive convert_ts io base_name [] ts m rs opened h =
    let chosen = purge_binlog_before_ts convert_ts (is_active m) ts rs in
    (
      finish_purge io m chosen,
      rw (fetch-Represents io m rs opened h) refl,
      finish_purge-KeepsActive io m rs chosen.0 chosen.1 h
          (purge_binlog_before_ts-IsSafe (is_active m) convert_ts ts rs),
    )
purge_binlog_index-KeepsActive convert_ts io base_name (c ∷ file) ts m rs opened h =
    let chosen = purge_binlog_to_file (is_active m) (base_name ++ c ∷ file) rs in
    (
      finish_purge io m chosen,
      rw (fetch-Represents io m rs opened h) refl,
      finish_purge-KeepsActive io m rs chosen.0 chosen.1 h
          (purge_binlog_to_file-IsSafe (is_active m) (base_name ++ c ∷ file) rs),
    )
