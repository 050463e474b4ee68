-- ===== src/Signals/Decision/Gates.antt =====
-- live_trading/signals/decision_engine.py: what the guards of an entry let pass.
use scalp_tn_aaa.Base.{
  refl, ap, ◌∙◌, ◌≡◌, Bool, true, false, ◌&&◌, ◌||◌, Option, none, some, List, arith,
}
use scalp_tn_aaa.Base.Text.{Text, upper, text_eq_iff}
use scalp_tn_aaa.Base.Results.{ok}
use scalp_tn_aaa.Float.{Float}
use scalp_tn_aaa.Entry.Policy.{buy, sell, normalized, has_structural_confirmation}
use scalp_tn_aaa.Signals.Regime.{Side}
use scalp_tn_aaa.Signals.Mtf.{side_text}
use scalp_tn_aaa.Signals.Filter.{EntryFilterResult}
use scalp_tn_aaa.Signals.Confidence.{PriceActionResult}
use scalp_tn_aaa.Signals.Range.{RangeContext}
use scalp_tn_aaa.Signals.Quality.{Ohlcv}
use scalp_tn_aaa.Signals.Decision.{
  Engines, Settings, Request, is_range, policy_pa, range_trend_breakout_block_reason,
  entry_breakout_block_reason, entry_location_block_reason,
}
use scalp_tn_aaa.Signals.Decision.Run.{Setup, range_stage}

-- The trend and the Price Action point to the same side, and a structural event stands behind it.
pub record IsBreakout {F : Type 0} (trend : Side) (pa : PriceActionResult F) (direction : Text)
    : Type 0 where
  pub trend_eq : side_text trend ≡ normalized direction
  pub pa_eq : upper pa.pa_signal ≡ normalized direction
  pub structural : has_structural_confirmation (some (policy_pa pa)) (normalized direction) ≡ true

pub unblocked-IsBreakout :
    {F : Type 0} (direction : Text) (trend : Side) (pa : PriceActionResult F)
    (ef : EntryFilterResult)
    → range_trend_breakout_block_reason direction trend pa ef ≡ none
    → IsBreakout trend pa direction
unfolding range_trend_breakout_block_reason
unblocked-IsBreakout direction trend pa ef h = record {
  trend_eq = ground (arith, text_eq_iff (side_text trend) (normalized direction));
  pa_eq = ground (arith, text_eq_iff (upper pa.pa_signal) (normalized direction));
  structural = ground arith;
}

module _ {F : Type 0} ⦃fl : Float F⦄ (sum : List F → F) (st : Settings F) (e : Engines F)
    (q : Request F) (candles : List (Ohlcv F)) where
  pub range_stage-none :
      (s : Setup F) (c : Option (RangeContext F))
      → is_range s.regime.regime ≡ true
      → range_stage sum st e q candles s ≡ ok c
      → (range_trend_breakout_block_reason s.candidate e.trend e.pa s.filter ≡ none)
        × (q.range_trading_enabled ≡ true)
  unfolding range_stage
  range_stage-none s c r h = (ground arith, ground arith)

-- The side is without a false breakout, its breakout is not overextended, and it enters at no opposite
-- level without a structural event.
pub record IsClean {F : Type 0} (pa : PriceActionResult F) (overextended : Bool) (side : Text)
    : Type 0 where
  pub no_false_up : side ≡ buy → pa.bull.fake_breakout ≡ false
  pub no_false_down : side ≡ sell → pa.bear.fake_breakout ≡ false
  pub near_up :
      side ≡ buy → (pa.bull.valid_breakout || pa.bull.inside_breakout) && overextended ≡ false
  pub near_down :
      side ≡ sell → (pa.bear.valid_breakout || pa.bear.inside_breakout) && overextended ≡ false
  pub below_resistance :
      side ≡ buy
      → pa.bear.near_level ≡ true
      → pa.bull.valid_breakout || pa.bull.inside_breakout || pa.bull.pullback ≡ true
  pub above_support :
      side ≡ sell
      → pa.bull.near_level ≡ true
      → pa.bear.valid_breakout || pa.bear.inside_breakout || pa.bear.pullback ≡ true

upper_sides : (upper buy ≡ buy) × (upper sell ≡ sell)
unfolding upper
upper_sides = (refl, refl)

module _ {F : Type 0} (candidate : Text) (pa : PriceActionResult F) where
  free_location :
      (overextended : Bool)
      → entry_breakout_block_reason candidate pa overextended ≡ none
      → entry_location_block_reason (upper candidate) pa ≡ none
  unfolding entry_breakout_block_reason
  free_location overextended h = ground arith

  free_below :
      entry_location_block_reason candidate pa ≡ none
      → upper candidate ≡ buy
      → pa.bear.near_level ≡ true
      → pa.bull.valid_breakout || pa.bull.inside_breakout || pa.bull.pullback ≡ true
  unfolding entry_location_block_reason
  free_below h eq near = ground (arith, text_eq_iff (upper candidate) buy)

  free_above :
      entry_location_block_reason candidate pa ≡ none
      → upper candidate ≡ sell
      → pa.bull.near_level ≡ true
      → pa.bear.valid_breakout || pa.bear.inside_breakout || pa.bear.pullback ≡ true
  unfolding entry_location_block_reason
  free_above h eq near =
      ground (arith, text_eq_iff (upper candidate) sell, text_eq_iff (upper candidate) buy)

pub unblocked-IsClean :
    {F : Type 0} (candidate : Text) (pa : PriceActionResult F) (overextended : Bool)
    → entry_breakout_block_reason candidate pa overextended ≡ none
    → IsClean pa overextended (upper candidate)
unfolding entry_breakout_block_reason
unblocked-IsClean candidate pa overextended h =
    let side = upper candidate in
    let free = free_location candidate pa overextended h in
    record {
      no_false_up = λ eq. ground (arith, text_eq_iff side buy);
      no_false_down = λ eq. ground (arith, text_eq_iff side sell);
      near_up = λ eq. ground (arith, text_eq_iff side buy);
      near_down = λ eq. ground (arith, text_eq_iff side sell);
      below_resistance = λ eq near. free_below side pa free (ap upper eq ∙ upper_sides.0) near;
      above_support = λ eq near. free_above side pa free (ap upper eq ∙ upper_sides.1) near;
    }
