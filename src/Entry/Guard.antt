-- ===== src/Entry/Guard.antt =====
-- live_trading/trading/entry_guard.py. A result carries the branch that was taken in place of its
-- message.
pub mod Laws
use scalp_tn_aaa.Base.{Bool, true, false, not, ◌&&◌, ◌||◌, List, [], ◌∷◌, any, if◌then◌else◌}
use scalp_tn_aaa.Base.Text.{Text, codes, text_eq, upper, strip}
use scalp_tn_aaa.Float.{Float, gt, nought, max}
use scalp_tn_aaa.Entry.Policy.{is_side, normalized}

abbrev pub strong_trend_regimes : List Text
strong_trend_regimes =
    codes "STRONG_TREND_BULL" ∷ codes "STRONG_TREND_BEAR" ∷ codes "HIGH_VOLATILITY" ∷ []

abbrev pub weak_trend_regimes : List Text
weak_trend_regimes = codes "WEAK_TREND_BULL" ∷ codes "WEAK_TREND_BEAR" ∷ []

-- `text in texts`
abbrev pub is_in : Text → List Text → Bool
is_in s = any (text_eq s)

pub data GuardReason : Type 0 where
  valid : GuardReason
  invalid_direction non_finite invalid_data stale : GuardReason

pub record GuardResult (F : Type 0) : Type 0 where
  pub allowed : Bool
  pub reason : GuardReason
  pub distance : F
  pub max_distance : F
  pub distance_atr : F

module _ {F : Type 0} ⦃fl : Float F⦄ where
  unfoldable pub staleness_limit_for_regime : Text → F → F → F → F
  staleness_limit_for_regime regime strong_trend_limit weak_trend_limit range_limit =
      let normalized_regime = upper (strip regime) in
      if is_in normalized_regime strong_trend_regimes
      then strong_trend_limit
      else if is_in normalized_regime weak_trend_regimes
      then weak_trend_limit
      else range_limit

  -- `x <= 0`
  abbrev pub not_positive : F → Bool
  not_positive x = fl.le x nought

  abbrev pub refuse : GuardReason → F → F → F → GuardResult F
  refuse reason distance max_distance distance_atr = record {
    allowed = false;
    reason = reason;
    distance = distance;
    max_distance = max_distance;
    distance_atr = distance_atr;
  }

  -- The comparison, on market data that passed the checks.
  unfoldable pub compare_distance : F → F → F → F → GuardResult F
  compare_distance signal_price execution_price atr max_atr_distance =
      let distance = fl.round 6 (fl.abs (fl.sub execution_price signal_price)) in
      let max_distance = fl.round 6 (fl.mul atr max_atr_distance) in
      let distance_atr = fl.round 6 (fl.div distance atr) in
      if gt distance max_distance then refuse stale distance max_distance distance_atr else record {
        allowed = true;
        reason = valid;
        distance = distance;
        max_distance = max_distance;
        distance_atr = distance_atr;
      }

  unfoldable pub validate_entry_price_distance : Text → F → F → F → F → GuardResult F
  validate_entry_price_distance direction signal_price execution_price atr max_atr_distance =
      if not (is_side (normalized direction))
      then refuse invalid_direction nought nought nought
      else if not (
          fl.is_finite signal_price
          && fl.is_finite execution_price
          && fl.is_finite atr
          && fl.is_finite max_atr_distance)
      then refuse non_finite nought nought nought
      else if not_positive signal_price
          || not_positive execution_price
          || not_positive atr
          || not_positive max_atr_distance
      then refuse invalid_data nought (max nought (fl.mul atr max_atr_distance)) nought
      else compare_distance signal_price execution_price atr max_atr_distance
