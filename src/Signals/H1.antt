-- ===== src/Signals/H1.antt =====
-- live_trading/signals/h1_validator.py: the guard on the completed H1 candles. A time is the number of
-- microseconds since 1970 that Python reads from a timestamp, `none` where that fails; an issue is a
-- constructor, and each is found once at most, so that nothing is left for `dict.fromkeys` to drop.
pub mod Spacing
use scalp_tn_aaa.Base.{
  ℕ, zero, suc, ◌+◌, ◌-◌, ◌*◌, ◌/◌, ◌%◌, Bool, true, false, not, ◌&&◌, ◌||◌, Option, none, some,
  List, [], ◌∷◌, ◌++◌, map, if◌then◌else◌, length, ltb, leb, take, drop, ◌==◌,
}
use scalp_tn_aaa.Float.{Float, nought, gt, ge, max, min}
use scalp_tn_aaa.Risk.Trailing.{number_of}
use scalp_tn_aaa.Signals.Quality.{ema_steps, last_or}

pub record H1Candle (F : Type 0) : Type 0 where
  pub time : Option ℕ
  pub open_price : F
  pub high : F
  pub low : F
  pub close : F
  pub volume : F

pub data H1Issue : Type 0 where
  few_candles invalid_times : H1Issue
  not_increasing sub_hour gap_exceeded not_whole_hours : H1Issue
  in_future still_open too_old not_aligned : H1Issue
  non_finite non_positive negative_volume outside_bounds high_below_low : H1Issue
  ema_non_finite ema_collapsed : H1Issue

pub data EmaAlignment : Type 0 where
  bullish_emas bearish_emas mixed_emas unknown_emas : EmaAlignment

pub record H1ValidationResult (F : Type 0) : Type 0 where
  pub valid : Bool
  pub issues : List H1Issue
  pub candle_count : ℕ
  pub latest_time : Option ℕ
  pub ema50 : F
  pub ema100 : F
  pub ema200 : F
  pub ema_alignment : EmaAlignment

abbrev pub hour_us : ℕ
hour_us = 3_600_000_000

abbrev pub no_issues : List H1Issue → Bool
no_issues [] = true
no_issues (_ ∷ _) = false

abbrev pub issue_if : Bool → H1Issue → List H1Issue
issue_if b i = if b then i ∷ [] else []

-- `break` after the first issue of a loop.
abbrev pub first_issue : List H1Issue → List H1Issue → List H1Issue
first_issue [] later = later
first_issue (i ∷ is) later = i ∷ is

abbrev pub valid_times : List (Option ℕ) → List ℕ
valid_times [] = []
valid_times (none ∷ ts) = valid_times ts
valid_times (some t ∷ ts) = t ∷ valid_times ts

abbrev pub has_none : List (Option ℕ) → Bool
has_none [] = false
has_none (none ∷ ts) = true
has_none (some t ∷ ts) = has_none ts

unfoldable pub pair_issue : ℕ → ℕ → List H1Issue
pair_issue previous current =
    let delta = current - previous in
    if leb current previous
    then not_increasing ∷ []
    else if ltb delta hour_us
    then sub_hour ∷ []
    else if ltb (96 * hour_us) delta
    then gap_exceeded ∷ []
    else issue_if (not ((delta % hour_us) == 0)) not_whole_hours

unfoldable pub spacing_issue : List ℕ → List H1Issue
spacing_issue [] = []
spacing_issue (t ∷ []) = []
spacing_issue (p ∷ c ∷ ts) = first_issue (pair_issue p c) (spacing_issue (c ∷ ts))

abbrev pub last_time : List ℕ → Option ℕ
last_time [] = none
last_time (t ∷ []) = some t
last_time (t ∷ u ∷ ts) = last_time (u ∷ ts)

-- Monday is 0; 1970 began on a Thursday.
abbrev pub weekday : ℕ → ℕ
weekday now = (now / (24 * hour_us) + 3) % 7

unfoldable pub alignment_issue : List ℕ → List H1Issue
alignment_issue [] = []
alignment_issue (t ∷ ts) = if (t % hour_us) == 0 then alignment_issue ts else not_aligned ∷ []

module _ {F : Type 0} ⦃fl : Float F⦄ where
  abbrev pub hours_of : ℕ → F
  hours_of us = fl.div (fl.div (number_of us) (number_of 1_000_000)) (number_of 3600)

  abbrev pub age_hours : ℕ → ℕ → F
  age_hours now latest =
      if leb latest now then hours_of (now - latest) else fl.neg (hours_of (latest - now))

  unfoldable pub age_issue : (ℕ → F) → ℕ → Option ℕ → List H1Issue
  age_issue age now none = []
  age_issue age now (some latest) =
      if fl.lt (age latest) (fl.neg (fl.lit 5 100))
      then in_future ∷ []
      else if ltb (now + 2_000_000) (latest + hour_us)
      then still_open ∷ []
      else issue_if (gt (age latest) (number_of 4) && ltb (weekday now) 5) too_old

  abbrev pub candle_issue : H1Candle F → List H1Issue
  candle_issue c =
      if not (
        fl.is_finite c.open_price
        && fl.is_finite c.high
        && fl.is_finite c.low
        && fl.is_finite c.close
        && fl.is_finite c.volume)
      then non_finite ∷ []
      else if fl.le (min (min (min c.open_price c.high) c.low) c.close) nought
      then non_positive ∷ []
      else if fl.lt c.volume nought
      then negative_volume ∷ []
      else if fl.lt c.high (max c.open_price c.close) || gt c.low (min c.open_price c.close)
      then outside_bounds ∷ []
      else issue_if (fl.lt c.high c.low) high_below_low

  unfoldable pub candles_issue : List (H1Candle F) → List H1Issue
  candles_issue [] = []
  candles_issue (c ∷ cs) = first_issue (candle_issue c) (candles_issue cs)

  abbrev pub calc_ema : (List F → F) → List F → ℕ → F
  calc_ema sum closes period =
      if ltb (length closes) period
      then last_or nought closes
      else fl.round 4 (
          ema_steps (fl.div (number_of 2) (number_of (period + 1)))
            (fl.div (sum (take period closes)) (number_of period)) (drop period closes))

  abbrev pub alignment_of : F → F → F → EmaAlignment
  alignment_of e50 e100 e200 =
      if gt e50 e100 && gt e100 e200
      then bullish_emas
      else if fl.lt e50 e100 && fl.lt e100 e200
      then bearish_emas
      else mixed_emas

  abbrev pub ema_issue : F → F → F → List H1Issue
  ema_issue e50 e100 e200 =
      if not (fl.is_finite e50 && fl.is_finite e100 && fl.is_finite e200)
      then ema_non_finite ∷ []
      else issue_if
          (fl.le (fl.sub (max (max e50 e100) e200) (min (min e50 e100) e200)) (fl.lit 1 10_000))
          ema_collapsed

  -- What is found before the EMAs.
  unfoldable pub series_issues : ℕ → ℕ → List (H1Candle F) → List H1Issue
  series_issues min_candles now candles =
      let times = map (λ c. c.time) candles in
      issue_if (ltb (length candles) min_candles) few_candles
      ++ issue_if (has_none times) invalid_times
      ++ spacing_issue (valid_times times)
      ++ age_issue (age_hours now) now (last_time (valid_times times))
      ++ alignment_issue (valid_times times)
      ++ candles_issue candles

  unfoldable pub validate_h1_candles :
      (List F → F) → ℕ → ℕ → List (H1Candle F) → H1ValidationResult F
  validate_h1_candles sum min_candles now candles =
      let closes = map (λ c. c.close) candles in
      let latest = last_time (valid_times (map (λ c. c.time) candles)) in
      let e50 = calc_ema sum closes 50 in
      let e100 = calc_ema sum closes 100 in
      let e200 = calc_ema sum closes 200 in
      let found = series_issues min_candles now candles in
      let with_emas = ema_issue e50 e100 e200 in
      if no_issues found && leb 200 (length candles)
      then record {
        valid = no_issues with_emas;
        issues = with_emas;
        candle_count = length candles;
        latest_time = latest;
        ema50 = e50;
        ema100 = e100;
        ema200 = e200;
        ema_alignment = alignment_of e50 e100 e200;
      }
      else record {
        valid = no_issues found;
        issues = found;
        candle_count = length candles;
        latest_time = latest;
        ema50 = nought;
        ema100 = nought;
        ema200 = nought;
        ema_alignment = unknown_emas;
      }
