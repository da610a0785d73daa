-- ===== src/Selection/Closest.antt =====
-- What `filter_instance_by_initial_point` chooses.
use oblogproxy.Common.{
  ℕ, ◌+◌, ◌-◌, ◌^◌, ◌≤◌, ◌<◌, ◌≡◌, ◌⊎◌, inl, inr, refl, ap, List, [], ◌∷◌, true, false, ◌&&◌,
  Bool-cases, some, All, arith, ltb, leb,
}
use oblogproxy.Selection.{BinlogEntry, is_empty}
use oblogproxy.Selection.Chosen.{In, In-All}
use oblogproxy.Selection.Point.{
  no_entry, interval, less_than, greater_than, point_loop, preferred,
  filter_instance_by_initial_point,
}

both_less : (a b c d : ℕ) → (ltb a b && ltb c d) ≡ true → (a < b) × (c < d)
both_less a b c d e = (ground arith, ground arith)

some_not_less : (a b c d : ℕ) → (ltb a b && ltb c d) ≡ false → (b ≤ a) ⊎ (d ≤ c)
some_not_less a b c d e = ground arith

module _ (start : ℕ) where
  -- Of the entries in `Seen`, the last that starts at `start` or before it; none starts there.
  abbrev Below : (BinlogEntry → Type 0) → BinlogEntry × ℕ → Type 0
  Below Seen (less, least) =
      ((least ≡ 2 ^ 63 - 1)
        × (less ≡ no_entry)
        × ((x : BinlogEntry) → Seen x → start < x.start_timestamp))
      ⊎ (Seen less
          × (less.start_timestamp ≤ start)
          × (least ≡ start - less.start_timestamp)
          × ((x : BinlogEntry)
              → Seen x
              → x.start_timestamp ≤ start
              → x.start_timestamp ≤ less.start_timestamp))

  abbrev Above : (BinlogEntry → Type 0) → BinlogEntry × ℕ → Type 0
  Above Seen (greater, most) =
      ((most ≡ 2 ^ 63)
        × (greater ≡ no_entry)
        × ((x : BinlogEntry) → Seen x → x.start_timestamp ≤ start))
      ⊎ (Seen greater
          × (start < greater.start_timestamp)
          × (most ≡ start + 2 ^ 64 - greater.start_timestamp)
          × ((x : BinlogEntry)
              → Seen x
              → start < x.start_timestamp
              → greater.start_timestamp ≤ x.start_timestamp))

  abbrev With : (BinlogEntry → Type 0) → BinlogEntry → BinlogEntry → Type 0
  With Seen e x = Seen x ⊎ (e ≡ x)

  module _ (start_small : start < 2 ^ 63 - 1) where
    interval-before :
        (e : BinlogEntry) → e.start_timestamp ≤ start → interval start e ≡ start - e.start_timestamp
    interval-before e before = omega arith

    interval-behind :
        (e : BinlogEntry)
        → e.start_timestamp < 2 ^ 63
        → start < e.start_timestamp
        → interval start e ≡ start + 2 ^ 64 - e.start_timestamp
    interval-behind e small behind = omega arith

    taken-Below :
        (Seen : BinlogEntry → Type 0) (less : BinlogEntry) (least : ℕ) (e : BinlogEntry)
        → e.start_timestamp < 2 ^ 63
        → (interval start e < 2 ^ 63) × (interval start e < least)
        → Below Seen (less, least)
        → Below (With Seen e) (e, interval start e)
    taken-Below Seen less least e small (i, j) inv =
        inr
          (inr refl, before, interval-before e before, λ x seen x_before. last inv x seen x_before)
      where
        before : e.start_timestamp ≤ start
        before = omega arith

        last :
            Below Seen (less, least)
            → (x : BinlogEntry) → With Seen e x
            → x.start_timestamp ≤ start
            → x.start_timestamp ≤ e.start_timestamp
        last inv' x (inr same_x) x_before =
            let e_x = ap (λ (y : BinlogEntry). y.start_timestamp) same_x in omega arith
        last (inl (a, b, all)) x (inl seen) x_before = let behind = all x seen in omega arith
        last (inr (a, b, c, all)) x (inl seen) x_before =
            let up = all x seen x_before in omega arith

    kept-Below :
        (Seen : BinlogEntry → Type 0) (less : BinlogEntry) (least : ℕ) (e : BinlogEntry)
        → e.start_timestamp < 2 ^ 63
        → (2 ^ 63 ≤ interval start e) ⊎ (least ≤ interval start e)
        → Below Seen (less, least)
        → Below (With Seen e) (less, least)
    kept-Below Seen less least e small refused (inl (a, b, all)) = inl (a, b, none_before)
      where
        none_before : (x : BinlogEntry) → With Seen e x → start < x.start_timestamp
        none_before x (inl seen) = all x seen
        none_before x (inr same_x) =
            let e_x = ap (λ (y : BinlogEntry). y.start_timestamp) same_x in omega arith
    kept-Below Seen less least e small refused (inr (a, b, c, all)) = inr (inl a, b, c, last)
      where
        last :
            (x : BinlogEntry)
            → With Seen e x
            → x.start_timestamp ≤ start
            → x.start_timestamp ≤ less.start_timestamp
        last x (inl seen) x_before = all x seen x_before
        last x (inr same_x) x_before =
            let e_x = ap (λ (y : BinlogEntry). y.start_timestamp) same_x in omega arith

    Below-less_than :
        (Seen : BinlogEntry → Type 0) (s : BinlogEntry × ℕ) (e : BinlogEntry)
        → e.start_timestamp < 2 ^ 63
        → Below Seen s
        → Below (With Seen e) (less_than start s e)
    unfolding less_than
    Below-less_than Seen (less, least) e small inv =
        elim (Bool-cases (ltb (interval start e) (2 ^ 63) && ltb (interval start e) least)) [
          | inl yes_t ↦ rw yes_t (taken-Below Seen less least e small (both_less _ _ _ _ yes_t) inv)
          | inr no_t ↦ rw no_t (kept-Below Seen less least e small (some_not_less _ _ _ _ no_t) inv)
        ]

    taken-Above :
        (Seen : BinlogEntry → Type 0) (greater : BinlogEntry) (most : ℕ) (e : BinlogEntry)
        → e.start_timestamp < 2 ^ 63
        → (2 ^ 63 ≤ interval start e) × (most < interval start e)
        → Above Seen (greater, most)
        → Above (With Seen e) (e, interval start e)
    taken-Above Seen greater most e small (i, j) inv = inr (
      inr refl,
      behind,
      interval-behind e small behind,
      λ x seen x_behind. first inv x seen x_behind,
    )
      where
        behind : start < e.start_timestamp
        behind = omega arith

        first :
            Above Seen (greater, most)
            → (x : BinlogEntry) → With Seen e x
            → start < x.start_timestamp
            → e.start_timestamp ≤ x.start_timestamp
        first inv' x (inr same_x) x_behind =
            let e_x = ap (λ (y : BinlogEntry). y.start_timestamp) same_x in omega arith
        first (inl (a, b, all)) x (inl seen) x_behind = let before = all x seen in omega arith
        first (inr (a, b, c, all)) x (inl seen) x_behind =
            let down = all x seen x_behind in omega arith

    kept-Above :
        (Seen : BinlogEntry → Type 0) (greater : BinlogEntry) (most : ℕ) (e : BinlogEntry)
        → e.start_timestamp < 2 ^ 63
        → (interval start e < 2 ^ 63) ⊎ (interval start e ≤ most)
        → Above Seen (greater, most)
        → Above (With Seen e) (greater, most)
    kept-Above Seen greater most e small refused (inl (a, b, all)) = inl (a, b, none_behind)
      where
        none_behind : (x : BinlogEntry) → With Seen e x → x.start_timestamp ≤ start
        none_behind x (inl seen) = all x seen
        none_behind x (inr same_x) =
            let e_x = ap (λ (y : BinlogEntry). y.start_timestamp) same_x in omega arith
    kept-Above Seen greater most e small refused (inr (a, b, c, all)) = inr (inl a, b, c, first)
      where
        first :
            (x : BinlogEntry)
            → With Seen e x
            → start < x.start_timestamp
            → greater.start_timestamp ≤ x.start_timestamp
        first x (inl seen) x_behind = all x seen x_behind
        first x (inr same_x) x_behind =
            let e_x = ap (λ (y : BinlogEntry). y.start_timestamp) same_x in omega arith

    Above-greater_than :
        (Seen : BinlogEntry → Type 0) (s : BinlogEntry × ℕ) (e : BinlogEntry)
        → e.start_timestamp < 2 ^ 63
        → Above Seen s
        → Above (With Seen e) (greater_than start s e)
    unfolding greater_than
    Above-greater_than Seen (greater, most) e small inv =
        elim (Bool-cases (leb (2 ^ 63) (interval start e) && ltb most (interval start e))) [
          | inl yes_t ↦
              rw yes_t (taken-Above Seen greater most e small (ground arith, ground arith) inv)
          | inr no_t ↦ rw no_t (kept-Above Seen greater most e small (ground arith) inv)
        ]

  abbrev Also : (BinlogEntry → Type 0) → List BinlogEntry → BinlogEntry → Type 0
  Also Seen es x = Seen x ⊎ In x es

  Below-as :
      (P Q : BinlogEntry → Type 0) (s : BinlogEntry × ℕ)
      → ((x : BinlogEntry) → P x → Q x)
      → ((x : BinlogEntry) → Q x → P x)
      → Below P s
      → Below Q s
  Below-as P Q (less, least) to from (inl (a, b, all)) = inl (a, b, λ x q. all x (from x q))
  Below-as P Q (less, least) to from (inr (a, b, c, all)) =
      inr (to less a, b, c, λ x q. all x (from x q))

  Above-as :
      (P Q : BinlogEntry → Type 0) (s : BinlogEntry × ℕ)
      → ((x : BinlogEntry) → P x → Q x)
      → ((x : BinlogEntry) → Q x → P x)
      → Above P s
      → Above Q s
  Above-as P Q (greater, most) to from (inl (a, b, all)) = inl (a, b, λ x q. all x (from x q))
  Above-as P Q (greater, most) to from (inr (a, b, c, all)) =
      inr (to greater a, b, c, λ x q. all x (from x q))

  moved_out :
      (Seen : BinlogEntry → Type 0) (e : BinlogEntry) (es : List BinlogEntry) (x : BinlogEntry)
      → Also (With Seen e) es x
      → Also Seen (e ∷ es) x
  moved_out Seen e es x (inl (inl seen)) = inl seen
  moved_out Seen e es x (inl (inr same_x)) = inr (inl same_x)
  moved_out Seen e es x (inr i) = inr (inr i)

  moved_in :
      (Seen : BinlogEntry → Type 0) (e : BinlogEntry) (es : List BinlogEntry) (x : BinlogEntry)
      → Also Seen (e ∷ es) x
      → Also (With Seen e) es x
  moved_in Seen e es x (inl seen) = inl (inl seen)
  moved_in Seen e es x (inr (inl same_x)) = inl (inr same_x)
  moved_in Seen e es x (inr (inr i)) = inr i

  only_seen : (Seen : BinlogEntry → Type 0) (x : BinlogEntry) → Also Seen [] x → Seen x
  only_seen Seen x (inl seen) = seen
  only_seen Seen x (inr i) = elim i [ ]

  abbrev Tracked : (BinlogEntry → Type 0) → BinlogEntry × BinlogEntry → Type 0
  Tracked Seen (less, greater) =
      ((least : ℕ) × Below Seen (less, least)) × ((most : ℕ) × Above Seen (greater, most))

  point_loop-Tracked :
      start < 2 ^ 63 - 1
      → (Seen : BinlogEntry → Type 0) (es : List BinlogEntry) (less greater : BinlogEntry × ℕ)
      → All (λ (e : BinlogEntry). e.start_timestamp < 2 ^ 63) es
      → Below Seen less
      → Above Seen greater
      → Tracked (Also Seen es) (point_loop start es less greater)
  unfolding point_loop
  point_loop-Tracked small Seen [] less greater smalls b a = (
    (less.1, Below-as Seen (Also Seen []) less (λ x s. inl s) (only_seen Seen) b),
    (greater.1, Above-as Seen (Also Seen []) greater (λ x s. inl s) (only_seen Seen) a),
  )
  point_loop-Tracked small Seen (e ∷ es) less greater (small_e, smalls) b a =
      let ((least, b'), (most, a')) =
        point_loop-Tracked small (With Seen e) es (less_than start less e)
          (greater_than start greater e) smalls (Below-less_than small Seen less e small_e b)
          (Above-greater_than small Seen greater e small_e a) in
      (
        (least, Below-as _ _ _ (moved_out Seen e es) (moved_in Seen e es) b'),
        (most, Above-as _ _ _ (moved_out Seen e es) (moved_in Seen e es) a'),
      )

  -- One of the entries, with the start that is the last of those up to `start`, or else the first.
  pub record Closest (es : List BinlogEntry) (e : BinlogEntry) : Type 0 where
    pub listed : In e es
    pub closest :
        ((e.start_timestamp ≤ start)
          × ((x : BinlogEntry)
              → In x es
              → x.start_timestamp ≤ start
              → x.start_timestamp ≤ e.start_timestamp))
        ⊎ ((start < e.start_timestamp)
            × ((x : BinlogEntry) → In x es → e.start_timestamp ≤ x.start_timestamp))

  abbrev None : BinlogEntry → Type 0
  None x = ⊥

  preferred-Closest :
      (e : BinlogEntry) (es : List BinlogEntry) (r : BinlogEntry × BinlogEntry)
      → All (λ (x : BinlogEntry). is_empty x.instance_name ≡ false) (e ∷ es)
      → Tracked (Also None (e ∷ es)) r
      → (c : BinlogEntry) × (preferred r (e ∷ es) ≡ some c) × Closest (e ∷ es) c
  preferred-Closest e es (less, greater) named ((least, inr (inl i, _, _, _)), (most, a)) =
      elim i [ ]
  preferred-Closest e es (less, greater) named ((least, inr (inr i, before, _, last)), (most, a)) =
      let has_name =
        In-All (λ (x : BinlogEntry). is_empty x.instance_name ≡ false) less (e ∷ es) i named in
      (less, rw has_name refl, record { listed = i; closest = inl (before, λ x j. last x (inr j)) })
  preferred-Closest e es (less, greater) named
        ((least, inl (_, unset, behind)), (most, inr (inl i, _, _, _))) =
      elim i [ ]
  preferred-Closest e es (less, greater) named
        ((least, inl (_, unset, behind)), (most, inr (inr i, up, _, first))) =
      let has_name =
        In-All (λ (x : BinlogEntry). is_empty x.instance_name ≡ false) greater (e ∷ es) i named in
      let no_name = ap (λ (x : BinlogEntry). is_empty x.instance_name) unset in
      (
        greater,
        rw no_name (rw has_name refl),
        record { listed = i; closest = inr (up, λ x j. first x (inr j) (behind x (inr j))) },
      )
  preferred-Closest e es (less, greater) named
        ((least, inl (_, _, behind)), (most, inl (_, _, before))) =
      elim (not_both (behind e (inr (inl refl))) (before e (inr (inl refl)))) [ ]
    where
      not_both : start < e.start_timestamp → e.start_timestamp ≤ start → ⊥
      not_both h k = omega arith

  -- With timestamps below 2 ^ 63, a start below 2 ^ 63 - 1 and entries that have names,
  -- `filter_instance_by_initial_point` chooses one of the entries: the last one that starts up to the
  -- given start, or the first of all if each starts behind it.
  pub filter_instance_by_initial_point-Closest :
      start < 2 ^ 63 - 1
      → (e : BinlogEntry) (es : List BinlogEntry)
      → All (λ (x : BinlogEntry). x.start_timestamp < 2 ^ 63) (e ∷ es)
      → All (λ (x : BinlogEntry). is_empty x.instance_name ≡ false) (e ∷ es)
      → (c : BinlogEntry) × (filter_instance_by_initial_point start (e ∷ es) ≡ some c)
        × Closest (e ∷ es) c
  unfolding filter_instance_by_initial_point
  filter_instance_by_initial_point-Closest small e es smalls named =
      preferred-Closest e es _ named (
        point_loop-Tracked small None (e ∷ es) (no_entry, 2 ^ 63 - 1) (no_entry, 2 ^ 63) smalls
          (inl (refl, refl, λ x i. elim i [ ])) (inl (refl, refl, λ x i. elim i [ ])))
