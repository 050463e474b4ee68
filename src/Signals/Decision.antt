-- ===== src/Signals/Decision.antt =====
-- live_trading/signals/decision_engine.py: the result of a decision and the guards on a candidate. The
-- engines' results are inputs, and what the result carries only to be displayed is left out: the
-- reasoning, the labels, the DXY signal and the engines' results themselves.
pub mod Run
pub mod Gates
pub mod Steps
pub mod Authorised
pub mod Reasons
pub mod Breakout
pub mod Silent
pub mod Refused
use scalp_tn_aaa.Base.{
  ℕ, Bool, true, false, not, ◌&&◌, ◌||◌, Option, none, some, List, map, if◌then◌else◌, ltb,
}
use scalp_tn_aaa.Base.Int.{ℤ, pos, negsuc}
use scalp_tn_aaa.Base.Text.{Text, codes, text_eq, upper}
use scalp_tn_aaa.Float.{Float, nought}
use scalp_tn_aaa.Entry.Policy.{
  PriceAction, Verdict, buy, sell, normalized, has_structural_confirmation,
}
use scalp_tn_aaa.Risk.Capital.{CapitalOutput}
use scalp_tn_aaa.Signals.Regime.{
  Regime, range, low_volatility, Side, bullish, bearish, neutral_side, Strength, weak, Phase,
  RegimeEntryRules, RegimeResult,
}
use scalp_tn_aaa.Signals.Mtf.{side_text}
use scalp_tn_aaa.Signals.Filter.{EntryFilterResult}
use scalp_tn_aaa.Signals.Range.{RangeContext}
use scalp_tn_aaa.Signals.Confidence.{PriceActionResult, WyckoffResult, ConfidenceComponents, Grade}
use scalp_tn_aaa.Signals.Quality.{Session, BlockReason, QualityFilterResult}

-- What stops an entry.
pub data DecisionBlock : Type 0 where
  no_unique_direction no_consensus range_unconfirmed range_too_few : DecisionBlock
  range_disabled breakout_no_trend breakout_no_price_action breakout_unstructured : DecisionBlock
  long_forbidden short_forbidden confidence_below_minimum : DecisionBlock
  quality_block : BlockReason → DecisionBlock
  false_breakout overextended buy_at_resistance sell_at_support : DecisionBlock
  unsafe_stop min_lot_over_cap marginal_rr rr_below_minimum : DecisionBlock
  policy_block : Verdict → DecisionBlock

-- The results of the indicator engines over the candles. `smc_fake` is whether
-- `detect_order_block_fake_breakout` finds one for a candidate.
pub record Engines (F : Type 0) : Type 0 where
  pub trend : Side
  pub strength : Strength
  pub trend_score : F
  pub pa : PriceActionResult F
  pub breakout_overextended : Bool
  pub wyckoff : WyckoffResult F
  pub phase : Phase
  pub divergence_signal : Side
  pub smc_fake : Text → Bool

-- The settings of live_trading/config.py that the engine reads.
pub record Settings (F : Type 0) : Type 0 where
  pub conf_hard_min : F
  pub quality_adx_min : F
  pub pa_standalone_min_score : F
  pub trend_standalone : Bool
  pub trend_standalone_min_score : F
  pub sl_min_atr_multiplier : F
  pub sl_structure_buffer_atr : F
  pub normal_confidence : F
  pub ranging_confidence : F

-- The arguments of `run_decision_engine`; those that it ignores are left out.
pub record Request (F : Type 0) : Type 0 where
  pub account_balance : F
  pub risk_percent : F
  pub min_confirmations : ℤ
  pub use_atr_high_vol : Bool
  pub range_trading_enabled : Bool
  pub range_min_confirmations : ℤ
  pub range_min_rr : F
  pub range_edge_atr_distance : F
  pub range_risk_percent : Option F
  pub range_entry_filters_enabled : Bool
  pub range_require_edge_position : Bool
  pub timeframe : Text
  pub price_action_standalone : Bool
  pub pa_standalone_min_score : F
  pub trend_standalone : Bool
  pub trend_standalone_min_score : F
  pub range_weak_min_confirmations : ℤ
  pub sl_atr : Option F
  pub sl_atr_multiplier : F
  pub low_volatility_sl_atr_add : F
  pub symbol : Text

-- The quality filter's result, as the decision keeps and changes it.
pub record QualityStage (F : Type 0) : Type 0 where
  pub allowed : Bool
  pub blocked_reasons : List DecisionBlock
  pub session_quality : Session
  pub adx : F
  pub is_severe_range : Bool
  pub is_late_entry : Bool
  pub is_low_probability : Bool
  pub is_fake_breakout : Bool
  pub is_weak_volume : Bool
  pub is_low_momentum : Bool

pub record DecisionResult (F : Type 0) : Type 0 where
  pub allowed : Bool
  pub direction : Text
  pub confidence : F
  pub components : ConfidenceComponents F
  pub grade : Grade
  pub regime : Regime
  pub regime_rules : RegimeEntryRules F
  pub quality_filter : QualityStage F
  pub blocked_reasons : List DecisionBlock
  pub trade_params : Option (CapitalOutput F)
  pub entry_filter : Option EntryFilterResult
  pub divergence : Option Side
  pub range_context : Option (RangeContext F)
  pub effective_min_confirmations : Option ℕ
  pub regime_strength : Option Strength
  pub minimum_rr : Option F

abbrev pub is_range : Regime → Bool
is_range range = true
is_range _ = false

abbrev pub is_low_volatility : Regime → Bool
is_low_volatility low_volatility = true
is_low_volatility _ = false

abbrev pub is_weak : Strength → Bool
is_weak weak = true
is_weak _ = false

-- The Trend Engine's texts.
abbrev pub trend_name : Side → Text
trend_name bullish = codes "BULLISH"
trend_name bearish = codes "BEARISH"
trend_name neutral_side = codes "NEUTRAL"

-- `min(max(1, int(value)), most)`
unfoldable pub floor_of : ℤ → ℕ → ℕ
floor_of (pos n) most = if ltb n 1 then 1 else if ltb most n then most else n
floor_of (negsuc n) most = 1

abbrev pub larger : ℕ → ℕ → ℕ
larger a b = if ltb a b then b else a

unfoldable pub effective_min_confirmations : ℤ → Regime → ℤ → ℤ → Strength → ℕ
effective_min_confirmations base regime range_min range_weak strength =
    let most = if is_range regime then 1 else 2 in
    if is_range regime
    then if is_weak strength
      then larger (floor_of range_min most) (floor_of range_weak most)
      else larger most (floor_of range_min most)
    else floor_of base most

-- The vote on the entry filter's result, in a range and outside of one.
unfoldable pub vote_block : Bool → EntryFilterResult → Option DecisionBlock
vote_block true ef =
    if not (ef.trend || ef.price_action)
    then some range_unconfirmed
    else if ltb ef.confirmation_count 1
    then some range_too_few
    else none
vote_block false ef = if ef.allowed then none else some no_consensus

unfoldable pub side_block : {F : Type 0} → Text → RegimeEntryRules F → Option DecisionBlock
side_block candidate rules =
    if text_eq candidate buy && not rules.allow_long
    then some long_forbidden
    else if text_eq candidate sell && not rules.allow_short
    then some short_forbidden
    else none

module _ {F : Type 0} where
  -- The Price Action result as the entry policy reads it.
  abbrev pub policy_pa : PriceActionResult F → PriceAction
  policy_pa pa = record {
    pa_signal = pa.pa_signal;
    valid_bull_breakout = pa.bull.valid_breakout;
    bullish_inside_breakout = pa.bull.inside_breakout;
    bullish_pullback = pa.bull.pullback;
    valid_bear_breakout = pa.bear.valid_breakout;
    bearish_inside_breakout = pa.bear.inside_breakout;
    bearish_pullback = pa.bear.pullback;
  }

  unfoldable pub range_trend_breakout_block_reason :
      Text → Side → PriceActionResult F → EntryFilterResult → Option DecisionBlock
  range_trend_breakout_block_reason direction trend pa ef =
      let side = normalized direction in
      if not ef.trend || not (text_eq (side_text trend) side)
      then some breakout_no_trend
      else if not ef.price_action || not (text_eq (upper pa.pa_signal) side)
      then some breakout_no_price_action
      else if not (has_structural_confirmation (some (policy_pa pa)) side)
      then some breakout_unstructured
      else none

  unfoldable pub entry_location_block_reason : Text → PriceActionResult F → Option DecisionBlock
  entry_location_block_reason candidate pa =
      let side = upper candidate in
      if text_eq side buy
        && pa.bear.near_level
        && not (pa.bull.valid_breakout || pa.bull.inside_breakout || pa.bull.pullback)
      then some buy_at_resistance
      else if text_eq side sell
          && pa.bull.near_level
          && not (pa.bear.valid_breakout || pa.bear.inside_breakout || pa.bear.pullback)
      then some sell_at_support
      else none

  abbrev pub pa_fake_breakout : Text → PriceActionResult F → Bool
  pa_fake_breakout candidate pa =
      (text_eq candidate buy && pa.bull.fake_breakout)
      || (text_eq candidate sell && pa.bear.fake_breakout)

  abbrev pub aligned_breakout : Text → PriceActionResult F → Bool
  aligned_breakout candidate pa =
      (text_eq candidate buy && (pa.bull.valid_breakout || pa.bull.inside_breakout))
      || (text_eq candidate sell && (pa.bear.valid_breakout || pa.bear.inside_breakout))

  unfoldable pub entry_breakout_block_reason :
      Text → PriceActionResult F → Bool → Option DecisionBlock
  entry_breakout_block_reason candidate pa breakout_overextended =
      let side = upper candidate in
      if pa_fake_breakout side pa
      then some false_breakout
      else if aligned_breakout side pa && breakout_overextended
      then some overextended
      else entry_location_block_reason side pa

module _ {F : Type 0} ⦃fl : Float F⦄ where
  unfoldable pub protective_sl_atr_multiplier : RegimeResult F → F → F → F
  protective_sl_atr_multiplier regime base low_volatility_add =
      if is_low_volatility regime.regime
      then fl.add base low_volatility_add
      else fl.mul base regime.rules.sl_atr_mult_adjust

  -- `sl_atr or regime.atr`, where 0.0 counts as absent.
  abbrev pub protective_atr : Option F → F → F
  protective_atr none atr = atr
  protective_atr (some x) atr = if fl.le x nought && fl.le nought x then atr else x

  -- The quality filter's result; `is_fake_breakout` starts as false.
  abbrev pub stage_of : QualityFilterResult F → Bool → QualityStage F
  stage_of q fake = record {
    allowed = q.allowed;
    blocked_reasons = map quality_block q.blocked_reasons;
    session_quality = q.session_quality;
    adx = q.adx;
    is_severe_range = q.is_severe_range;
    is_late_entry = q.is_late_entry;
    is_low_probability = q.is_low_probability;
    is_fake_breakout = fake;
    is_weak_volume = q.is_weak_volume;
    is_low_momentum = q.is_low_momentum;
  }

  -- The result that stands in where the filter has not run.
  abbrev pub blocked_stage : List DecisionBlock → Session → F → Bool → QualityStage F
  blocked_stage reasons session adx low_probability = record {
    allowed = false;
    blocked_reasons = reasons;
    session_quality = session;
    adx = adx;
    is_severe_range = false;
    is_late_entry = false;
    is_low_probability = low_probability;
    is_fake_breakout = false;
    is_weak_volume = false;
    is_low_momentum = false;
  }

  abbrev pub no_components : ConfidenceComponents F
  no_components = record {
    smc_score = nought;
    trend_score = nought;
    pa_score = nought;
    wyckoff_score = nought;
    liquidity_score = nought;
    volatility_score = nought;
    total = nought;
    divergence_score = nought;
    dxy_score = nought;
  }
