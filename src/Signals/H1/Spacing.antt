-- ===== src/Signals/H1/Spacing.antt =====
-- live_trading/signals/h1_validator.py: the times of a series that is let pass.
use mathlib.Core.Path.{subst}
use scalp_tn_aaa.Base.{
  ℕ, ◌+◌, ◌*◌, ◌%◌, ◌≤◌, ◌≡◌, true, false, List, [], ◌∷◌, ◌++◌, arith, if◌then◌else◌, length, map,
  Option, some, ltb, leb, Bool, ◌&&◌, refl, sym, ap, ◌∙◌, none,
}
use scalp_tn_aaa.Float.{Float}
use scalp_tn_aaa.Signals.H1.{
  H1Candle, H1Issue, H1ValidationResult, hour_us, no_issues, issue_if, first_issue, valid_times,
  has_none, pair_issue, spacing_issue, last_time, age_issue, age_hours, candles_issue, few_candles,
  invalid_times, alignment_issue, series_issues, validate_h1_candles,
}

-- Whole hours, at least one and at most 96, lie between a time and the next one.
unfoldable pub IsHourly : List ℕ → Type 0
IsHourly [] = 0 ≤ 0
IsHourly (t ∷ []) = 0 ≤ 0
IsHourly (p ∷ c ∷ ts) =
    (p + hour_us ≤ c) × (c ≤ p + 96 * hour_us) × (c % hour_us ≡ p % hour_us) × IsHourly (c ∷ ts)

no_issues-append : (xs ys : List H1Issue) → no_issues (xs ++ ys) ≡ (no_issues xs && no_issues ys)
no_issues-append [] ys = refl
no_issues-append (x ∷ xs) ys = refl

no_issues-first_issue :
    (xs ys : List H1Issue) → no_issues (first_issue xs ys) ≡ (no_issues xs && no_issues ys)
no_issues-first_issue [] ys = refl
no_issues-first_issue (x ∷ xs) ys = refl

both : (a b : Bool) → (a && b) ≡ true → (a ≡ true) × (b ≡ true)
both a b h = ground arith

split :
    (xs ys : List H1Issue)
    → no_issues (xs ++ ys) ≡ true
    → (no_issues xs ≡ true) × (no_issues ys ≡ true)
split xs ys h = both (no_issues xs) (no_issues ys) (sym (no_issues-append xs ys) ∙ h)

at_least : (n m : ℕ) → ltb n m ≡ false → m ≤ n
at_least n m h = ground arith

pair_issue-none :
    (p c : ℕ)
    → no_issues (pair_issue p c) ≡ true
    → (p + hour_us ≤ c) × (c ≤ p + 96 * hour_us) × (c % hour_us ≡ p % hour_us)
unfolding pair_issue
pair_issue-none p c h = ground arith

spacing_issue-IsHourly : (ts : List ℕ) → no_issues (spacing_issue ts) ≡ true → IsHourly ts
unfolding spacing_issue IsHourly
spacing_issue-IsHourly [] h = ground arith
spacing_issue-IsHourly (t ∷ []) h = ground arith
spacing_issue-IsHourly (p ∷ c ∷ ts) h =
    let parts = (sym (no_issues-first_issue (pair_issue p c) (spacing_issue (c ∷ ts))) ∙ h) in
    let (now, later) =
      both (no_issues (pair_issue p c)) (no_issues (spacing_issue (c ∷ ts))) parts in
    let (a, b, e) = pair_issue-none p c now in (a, b, e, spacing_issue-IsHourly (c ∷ ts) later)

all_some : (os : List (Option ℕ)) → has_none os ≡ false → os ≡ map some (valid_times os)
all_some [] h = refl
all_some (none ∷ os) h = absurd (ground arith)
all_some (some t ∷ os) h = ap (λ l. some t ∷ l) (all_some os h)

issue_if-none : (b : Bool) → (i : H1Issue) → no_issues (issue_if b i) ≡ true → b ≡ false
issue_if-none true i h = absurd (ground arith)
issue_if-none false i h = refl

module _ {F : Type 0} ⦃fl : Float F⦄ where
  age_issue-none :
      (age : ℕ → F)
      → (now t : ℕ) → no_issues (age_issue age now (some t)) ≡ true
      → t + hour_us ≤ now + 2_000_000
  unfolding age_issue
  age_issue-none age now t h = ground arith

  age_issue-closed :
      (age : ℕ → F)
      → (now : ℕ) → (o : Option ℕ) → no_issues (age_issue age now o) ≡ true
      → (t : ℕ) → o ≡ some t
      → t + hour_us ≤ now + 2_000_000
  age_issue-closed age now o h t e =
      age_issue-none age now t (subst (λ o'. no_issues (age_issue age now o') ≡ true) e h)

  checked :
      (r s : H1ValidationResult F)
      → (a b : Bool) → (if a && b then r else s).valid ≡ true
      → s.valid ≡ a
      → a ≡ true
  checked r s true b h e = refl
  checked r s false b h e = sym e ∙ h

  validate_h1_candles-clean :
      (sum : List F → F)
      → (min_candles now : ℕ) → (candles : List (H1Candle F))
      → (validate_h1_candles sum min_candles now candles).valid ≡ true
      → no_issues (series_issues min_candles now candles) ≡ true
  unfolding validate_h1_candles
  validate_h1_candles-clean sum min_candles now candles h =
      checked _ _ (no_issues (series_issues min_candles now candles)) (leb 200 (length candles)) h
        refl

  -- An H1 series that is let pass has at least `min_candles` candles, every timestamp of it was read,
  -- each of its times lies whole hours after the one before, at least one and at most 96, and the last
  -- candle closed at most two seconds after the present time.
  pub valid_series-IsHourly :
      (sum : List F → F)
      → (min_candles now : ℕ) → (candles : List (H1Candle F))
      → (validate_h1_candles sum min_candles now candles).valid ≡ true
      → (min_candles ≤ length candles)
        × ((ts : List ℕ) × (map (λ c. c.time) candles ≡ map some ts)
            × IsHourly ts
            × ((t : ℕ) → last_time ts ≡ some t → t + hour_us ≤ now + 2_000_000))
  unfolding series_issues
  valid_series-IsHourly sum min_candles now candles h =
      let times = map (λ c. c.time) candles in
      let ts = valid_times times in
      let few = issue_if (ltb (length candles) min_candles) few_candles in
      let bad = issue_if (has_none times) invalid_times in
      let gap = spacing_issue ts in
      let old = age_issue (age_hours now) now (last_time ts) in
      let off = alignment_issue ts in
      let (upto5, _) =
        split (few ++ bad ++ gap ++ old ++ off) (candles_issue candles)
          (validate_h1_candles-clean sum min_candles now candles h) in
      let (upto4, _) = split (few ++ bad ++ gap ++ old) off upto5 in
      let (upto3, not_old) = split (few ++ bad ++ gap) old upto4 in
      let (upto2, no_gap) = split (few ++ bad) gap upto3 in
      let (enough, not_bad) = split few bad upto2 in
      let times_read = all_some times (issue_if-none _ invalid_times not_bad) in
      (
        at_least (length candles) min_candles (issue_if-none _ few_candles enough),
        (
          ts,
          times_read,
          spacing_issue-IsHourly ts no_gap,
          age_issue-closed (age_hours now) now (last_time ts) not_old,
        ),
      )
