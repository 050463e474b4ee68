-- ===== src/Entry/Policy.antt =====
-- live_trading/trading/active_entry_policy.py. An attribute that may be missing is an `Option`, and
-- a result carries the branch that was taken in place of its message.
pub mod Laws
use scalp_tn_aaa.Base.{
  Bool, true, false, not, ◌&&◌, ◌||◌, Option, none, some, List, [], ◌∷◌, any, if◌then◌else◌,
  is_none,
}
use scalp_tn_aaa.Base.Text.{Text, codes, text_eq, upper, lower, strip}
use scalp_tn_aaa.Float.{Float}

abbrev pub active_entry_symbol : Text
active_entry_symbol = codes "XAUUSD"

abbrev pub active_entry_timeframe : Text
active_entry_timeframe = codes "5m"

abbrev pub buy : Text
buy = codes "BUY"

abbrev pub sell : Text
sell = codes "SELL"

abbrev pub neutral : Text
neutral = codes "NEUTRAL"

-- The keys of `REGIME_RULES` in live_trading/signals/market_regime.py.
abbrev pub regimes : List Text
regimes =
    codes "STRONG_TREND_BULL"
    ∷ codes "STRONG_TREND_BEAR"
    ∷ codes "WEAK_TREND_BULL"
    ∷ codes "WEAK_TREND_BEAR"
    ∷ codes "PULLBACK_BULL"
    ∷ codes "PULLBACK_BEAR"
    ∷ codes "RANGE"
    ∷ codes "ACCUMULATION"
    ∷ codes "DISTRIBUTION"
    ∷ codes "HIGH_VOLATILITY"
    ∷ codes "LOW_VOLATILITY"
    ∷ []

-- The Price Action result, as far as the policy reads it.
pub record PriceAction : Type 0 where
  pub pa_signal : Text
  pub valid_bull_breakout : Bool
  pub bullish_inside_breakout : Bool
  pub bullish_pullback : Bool
  pub valid_bear_breakout : Bool
  pub bearish_inside_breakout : Bool
  pub bearish_pullback : Bool

pub record EntryFilter : Type 0 where
  pub trend : Bool
  pub price_action : Bool

-- `trend` is the Trend Engine's `trend` text, and `adx` is what `float` reads from the quality
-- filter's `adx`, `none` where that raises.
pub record Decision (F : Type 0) : Type 0 where
  pub allowed : Bool
  pub regime : Text
  pub direction : Text
  pub trend : Option Text
  pub entry_filter : Option EntryFilter
  pub pa : Option PriceAction
  pub adx : Option F

pub data Verdict : Type 0 where
  permitted : Verdict
  wrong_symbol wrong_timeframe not_approved unknown_regime no_direction : Verdict
  unstructured_price_action counter_trend_entry unconfirmed : Verdict

-- `str(value).upper().strip()`
abbrev pub normalized : Text → Text
normalized s = strip (upper s)

abbrev pub text_or_empty : Option Text → Text
text_or_empty none = []
text_or_empty (some s) = s

unfoldable pub trend_direction : Option Text → Text
trend_direction trend =
    let value = normalized (text_or_empty trend) in
    if text_eq value (codes "BULLISH")
    then buy
    else if text_eq value (codes "BEARISH")
    then sell
    else neutral

unfoldable pub strong_trend_direction : Text → Text
strong_trend_direction regime =
    if text_eq regime (codes "STRONG_TREND_BULL")
    then buy
    else if text_eq regime (codes "STRONG_TREND_BEAR")
    then sell
    else neutral

-- `direction in {"BUY", "SELL"}`
abbrev pub is_side : Text → Bool
is_side direction = text_eq direction buy || text_eq direction sell

abbrev pub structural_flags : PriceAction → Text → Bool
structural_flags pa direction =
    if text_eq direction buy
    then pa.valid_bull_breakout || pa.bullish_inside_breakout || pa.bullish_pullback
    else pa.valid_bear_breakout || pa.bearish_inside_breakout || pa.bearish_pullback

unfoldable pub has_structural_confirmation : Option PriceAction → Text → Bool
has_structural_confirmation none direction = false
has_structural_confirmation (some pa) direction =
    if not (text_eq (normalized pa.pa_signal) direction)
    then false
    else structural_flags pa direction

abbrev pub filter_trend : Option EntryFilter → Bool
filter_trend none = false
filter_trend (some f) = f.trend

abbrev pub filter_price_action : Option EntryFilter → Bool
filter_price_action none = false
filter_price_action (some f) = f.price_action

-- `str(getattr(pa, "pa_signal", "")).upper()`, which is not stripped.
abbrev pub pa_direction : Option PriceAction → Text
pa_direction none = []
pa_direction (some pa) = upper pa.pa_signal

-- Why a strong regime is not confirmed.
pub data StrongTrendBlock : Type 0 where
  adx_invalid direction_mismatch no_confirmation : StrongTrendBlock

module _ {F : Type 0} ⦃fl : Float F⦄ where
  -- `STRONG_ADX_TREND_THRESHOLD`
  abbrev pub strong_adx_trend_threshold : F
  strong_adx_trend_threshold = fl.lit 45 1

  abbrev pub check_strong_trend : Decision F → Text → F → Option StrongTrendBlock
  check_strong_trend decision expected adx =
      if fl.lt adx strong_adx_trend_threshold
      then none
      else if not (text_eq (normalized decision.direction) expected)
      then some direction_mismatch
      else if text_eq (trend_direction decision.trend) expected
      then none
      else if has_structural_confirmation decision.pa expected
      then none
      else some no_confirmation

  unfoldable pub strong_trend_validation_reason : Decision F → Option StrongTrendBlock
  strong_trend_validation_reason decision =
      let expected = strong_trend_direction (normalized decision.regime) in
      if text_eq expected neutral then none else elim decision.adx [
        | none ↦ some adx_invalid
        | some adx ↦ check_strong_trend decision expected adx
      ]

  unfoldable pub pa_standalone_confirmed : Decision F → Text → Bool
  pa_standalone_confirmed decision direction =
      filter_price_action decision.entry_filter
      && text_eq direction (pa_direction decision.pa)
      && not (filter_trend decision.entry_filter)

  -- The checks of `evaluate_active_entry` once the direction is a side.
  unfoldable pub evaluate_confirmation : Decision F → Text → Verdict
  evaluate_confirmation decision direction =
      let trend = trend_direction decision.trend in
      let trend_confirmed = filter_trend decision.entry_filter in
      let standalone = pa_standalone_confirmed decision direction in
      if standalone && not (has_structural_confirmation decision.pa direction)
      then unstructured_price_action
      else if not (text_eq trend direction) && not standalone
      then counter_trend_entry
      else if is_none decision.entry_filter || not (trend_confirmed || standalone)
      then unconfirmed
      else permitted

  unfoldable pub evaluate_active_entry : Decision F → Text → Text → Verdict
  evaluate_active_entry decision symbol timeframe =
      let direction = normalized decision.direction in
      if not (text_eq (normalized symbol) active_entry_symbol)
      then wrong_symbol
      else if not (text_eq (lower (strip timeframe)) active_entry_timeframe)
      then wrong_timeframe
      else if not decision.allowed
      then not_approved
      else if not (any (text_eq (normalized decision.regime)) regimes)
      then unknown_regime
      else if not (is_side direction)
      then no_direction
      else evaluate_confirmation decision direction
