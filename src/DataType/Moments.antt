-- ===== src/DataType/Moments.antt =====
-- A DATETIME text with a fraction, from its parts to the bytes of the row event.
use oblogproxy.Common.{
  ℕ, ◌^◌, ◌<◌, ◌≡◌, ◌≢◌, refl, sym, ap, ◌∙◌, List, [], ◌∷◌, ◌++◌, true, false, ◌==◌, some, length,
  arith, All, append-nil, ◌⊎◌, inl, inr,
}
use oblogproxy.Text.Split.{
  split, Inside, joined, split-joined, All-map, All-append, append-cons-ne-nil,
}
use oblogproxy.Text.Decimal.{IsDigit, read_digits, scan_sign, skip_space, scan_sign-append, atoll}
use oblogproxy.DataType.{◌>>=◌}
use oblogproxy.DataType.Int.{pos, ◌-ℤ◌}
use oblogproxy.DataType.Numbers.{atoi, widened, get_number_len}
use oblogproxy.DataType.Dates.{
  IDate, no_date, of_hms, with_fraction, of_points, str_2_yyyymmdd, str_2_hhmmss, of_parts,
  str_2_idate,
}

-- A number in a text: digits whose value is below 2 ^ 31.
pub record IsNumber (t : List ℕ) : Type 0 where
  pub filled : t ≢ []
  pub digits : All IsDigit t
  pub small : read_digits 0 t < 2 ^ 31

atoi-number : (t : List ℕ) → IsNumber t → atoi t ≡ read_digits 0 t
unfolding atoi atoll
atoi-number t h =
    let scanned : scan_sign (skip_space t)
        ≡ record { found = true; negative = false; magnitude = read_digits 0 t } =
      ap (λ u. scan_sign (skip_space u)) (sym (append-nil t))
      ∙ scan_sign-append t [] h.digits h.filled
      ∙ ap (λ u. record { found = true; negative = false; magnitude = read_digits 0 u })
          (append-nil t) in
    rw scanned (omega (arith, h.small))

Inside-number :
    (sep : ℕ) (t : List ℕ) → (sep < b'0') ⊎ (b'9' < sep) → IsNumber t → All (Inside sep) t
Inside-number sep t apart h =
    All-map IsDigit (Inside sep) t
      (λ b d. ((λ e. absurd (omega (arith, d.0, e))), (λ e. apart_from b d e))) h.digits
  where
    apart_from : (b : ℕ) → IsDigit b → b ≡ sep → ⊥
    apart_from b d e = ground (arith, apart)

All-joined :
    (P : ℕ → Type 0) (sep : ℕ) (p : List ℕ) (ps : List (List ℕ))
    → P sep
    → All (All P) (p ∷ ps)
    → All P (joined sep p ps)
All-joined P sep p [] h (hp, hs) = hp
All-joined P sep p (q ∷ qs) h (hp, hs) =
    All-append P p (sep ∷ joined sep q qs) hp (h, All-joined P sep q qs h hs)

-- The parts of a DATETIME text, and the text.
pub record Moment : Type 0 where
  pub year : List ℕ
  pub month : List ℕ
  pub day : List ℕ
  pub hour : List ℕ
  pub minute : List ℕ
  pub second : List ℕ
  pub fraction : List ℕ

pub record HasNumbers (t : Moment) : Type 0 where
  pub year : IsNumber t.year
  pub month : IsNumber t.month
  pub day : IsNumber t.day
  pub hour : IsNumber t.hour
  pub minute : IsNumber t.minute
  pub second : IsNumber t.second
  pub fraction : IsNumber t.fraction

abbrev pub ymd : Moment → List ℕ
ymd t = joined b'-' t.year (t.month ∷ t.day ∷ [])

abbrev pub hms : Moment → List ℕ
hms t = joined b':' t.hour (t.minute ∷ t.second ∷ [])

abbrev pub time_text : Moment → List ℕ
time_text t = joined b'.' (hms t) (t.fraction ∷ [])

abbrev pub moment_text : Moment → List ℕ
moment_text t = joined b' ' (ymd t) (time_text t ∷ [])

-- The numbers that the parts stand for.
abbrev pub moment_date : Moment → IDate
moment_date t = record {
  year = read_digits 0 t.year;
  month = read_digits 0 t.month;
  day = read_digits 0 t.day;
  hour = read_digits 0 t.hour;
  minute = read_digits 0 t.minute;
  second = read_digits 0 t.second;
  mill_second = read_digits 0 t.fraction;
  negative = false;
  prefix_zero_num = pos (length t.fraction) -ℤ pos (get_number_len (read_digits 0 t.fraction));
}

str_2_hhmmss-points :
    (s : List ℕ) (d : IDate) → s ≢ [] → str_2_hhmmss s d ≡ of_points d (split s b'.' false)
unfolding str_2_hhmmss
str_2_hhmmss-points [] d h = absurd (h refl)
str_2_hhmmss-points (c ∷ s) d h =
    let filled : (length (c ∷ s) == 0) ≡ false = ground arith in rw filled refl

-- A text that begins with a digit has no sign.
str_2_idate-number :
    (y a b : List ℕ)
    → IsNumber y
    → str_2_idate ((y ++ a) ++ b)
      ≡ of_parts no_date ((y ++ a) ++ b) (split ((y ++ a) ++ b) b' ' false)
unfolding str_2_idate
str_2_idate-number [] a b h = absurd (h.filled refl)
str_2_idate-number (c ∷ y) a b h =
    let digit : (c == b'-') ≡ false = ground (arith, h.digits.0) in rw digit refl

module _ (t : Moment) (h : HasNumbers t) where
  ymd_parts : split (ymd t) b'-' false ≡ t.year ∷ t.month ∷ t.day ∷ []
  ymd_parts =
      split-joined b'-' (λ e. absurd (omega (arith, e))) t.year (t.month ∷ t.day ∷ [])
        (append-cons-ne-nil t.year _ b'-')
        (
          Inside-number b'-' t.year (inl (omega arith)) h.year,
          (
            Inside-number b'-' t.month (inl (omega arith)) h.month,
            (Inside-number b'-' t.day (inl (omega arith)) h.day, tt),
          ),
        )

  hms_parts : split (hms t) b':' false ≡ t.hour ∷ t.minute ∷ t.second ∷ []
  hms_parts =
      split-joined b':' (λ e. absurd (omega (arith, e))) t.hour (t.minute ∷ t.second ∷ [])
        (append-cons-ne-nil t.hour _ b':')
        (
          Inside-number b':' t.hour (inr (omega arith)) h.hour,
          (
            Inside-number b':' t.minute (inr (omega arith)) h.minute,
            (Inside-number b':' t.second (inr (omega arith)) h.second, tt),
          ),
        )

  hms-Inside : (sep : ℕ) → sep ≢ b':' → (sep < b'0') ⊎ (b'9' < sep) → All (Inside sep) (hms t)
  hms-Inside sep apart out =
      All-joined (Inside sep) b':' t.hour (t.minute ∷ t.second ∷ [])
        ((λ e. absurd (omega (arith, e))), (λ e. apart (sym e)))
        (
          Inside-number sep t.hour out h.hour,
          (Inside-number sep t.minute out h.minute, (Inside-number sep t.second out h.second, tt)),
        )

  ymd-Inside : (sep : ℕ) → sep ≢ b'-' → (sep < b'0') ⊎ (b'9' < sep) → All (Inside sep) (ymd t)
  ymd-Inside sep apart out =
      All-joined (Inside sep) b'-' t.year (t.month ∷ t.day ∷ [])
        ((λ e. absurd (omega (arith, e))), (λ e. apart (sym e)))
        (
          Inside-number sep t.year out h.year,
          (Inside-number sep t.month out h.month, (Inside-number sep t.day out h.day, tt)),
        )

  time_parts : split (time_text t) b'.' false ≡ hms t ∷ t.fraction ∷ []
  time_parts =
      split-joined b'.' (λ e. absurd (omega (arith, e))) (hms t) (t.fraction ∷ [])
        (append-cons-ne-nil (hms t) _ b'.')
        (
          hms-Inside b'.' (λ e. absurd (omega (arith, e))) (inl (omega arith)),
          (Inside-number b'.' t.fraction (inl (omega arith)) h.fraction, tt),
        )

  moment_parts : split (moment_text t) b' ' false ≡ ymd t ∷ time_text t ∷ []
  moment_parts =
      split-joined b' ' (λ e. absurd (omega (arith, e))) (ymd t) (time_text t ∷ [])
        (append-cons-ne-nil (ymd t) _ b' ')
        (
          ymd-Inside b' ' (λ e. absurd (omega (arith, e))) (inl (omega arith)),
          (
            All-joined (Inside b' ') b'.' (hms t) (t.fraction ∷ [])
                ((λ e. absurd (omega (arith, e))), (λ e. absurd (omega (arith, e))))
                (
                  hms-Inside b' ' (λ e. absurd (omega (arith, e))) (inl (omega arith)),
                  (Inside-number b' ' t.fraction (inl (omega arith)) h.fraction, tt),
                ),
            tt,
          ),
        )

  date_read :
      (d : IDate)
      → str_2_yyyymmdd (ymd t) d
        ≡ some (record d {
          year = read_digits 0 t.year;
          month = read_digits 0 t.month;
          day = read_digits 0 t.day;
        })
  unfolding str_2_yyyymmdd
  date_read d =
      rw
        (ymd_parts, atoi-number t.year h.year, atoi-number t.month h.month, atoi-number t.day h.day)
        refl

  of_hms_read :
      (d : IDate)
      → of_hms d (t.hour ∷ t.minute ∷ t.second ∷ [])
        ≡ some (record d {
          hour = read_digits 0 t.hour;
          minute = read_digits 0 t.minute;
          second = read_digits 0 t.second;
        })
  of_hms_read d =
      rw (atoi-number t.hour h.hour, atoi-number t.minute h.minute, atoi-number t.second h.second)
        refl

  with_fraction_read :
      (d : IDate)
      → with_fraction t.fraction d ≡ record d {
        mill_second = read_digits 0 t.fraction;
        prefix_zero_num =
            pos (length t.fraction) -ℤ pos (get_number_len (read_digits 0 t.fraction));
      }
  with_fraction_read d =
      let wide : widened (read_digits 0 t.fraction) ≡ read_digits 0 t.fraction =
        ground (arith, h.fraction.small) in
      rw (atoi-number t.fraction h.fraction, wide) refl

  time_read :
      (d : IDate)
      → str_2_hhmmss (time_text t) d
        ≡ some (record d {
          hour = read_digits 0 t.hour;
          minute = read_digits 0 t.minute;
          second = read_digits 0 t.second;
          mill_second = read_digits 0 t.fraction;
          prefix_zero_num =
              pos (length t.fraction) -ℤ pos (get_number_len (read_digits 0 t.fraction));
        })
  time_read d =
      str_2_hhmmss-points (time_text t) d (append-cons-ne-nil (hms t) _ b'.')
      ∙ ap (of_points d) time_parts
      ∙ ap (λ parts. of_hms d parts >>= λ e. some (with_fraction t.fraction e)) hms_parts
      ∙ ap (λ o. o >>= λ e. some (with_fraction t.fraction e)) (of_hms_read d)
      ∙ ap some (
          with_fraction_read (record d {
            hour = read_digits 0 t.hour;
            minute = read_digits 0 t.minute;
            second = read_digits 0 t.second;
          }))

  pub moment_read : str_2_idate (moment_text t) ≡ some (moment_date t)
  unfolding of_parts
  moment_read =
      str_2_idate-number t.year _ _ h.year
      ∙ ap (of_parts no_date (moment_text t)) moment_parts
      ∙ ap (λ o. o >>= str_2_hhmmss (time_text t)) (date_read no_date)
      ∙ time_read _
