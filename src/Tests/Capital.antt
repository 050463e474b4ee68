-- ===== src/Tests/Capital.antt =====
-- The size and the stop of one purchase of gold.
use scalp_tn_aaa.Base.{ℕ, ◌*◌, ◌≡◌, refl, true, none, some, inr}
use scalp_tn_aaa.Base.Int.{ℤ, pos, ◌-ℤ◌, ◌+ℤ◌}
use scalp_tn_aaa.Base.Text.{codes, text_eq, upper, strip}
use scalp_tn_aaa.Float.{max, min}
use scalp_tn_aaa.Float.Fixed.{
  fixed, fixed-IsOrdered, fixed-IsMonotone, fixed-IsSigned, fixed-IsFloored,
}
use scalp_tn_aaa.Entry.Policy.{normalized}
use scalp_tn_aaa.Risk.Capital.{
  CapitalInput, calc_smart_stop, structural_plan, levels, safe_atr, min_mult, max_mult, clamp,
  calc_trade_parameters, sl_distance, budget_for, nearest_level,
}
use scalp_tn_aaa.Risk.Capital.Lots.{IsSized, calc_trade_parameters-IsSized}
use scalp_tn_aaa.Risk.Capital.Envelope.{IsSizable, IsInEnvelope, valid_stop-IsInEnvelope}

abbrev usd : ℕ → ℤ
usd n = pos (n * 1_000_000_000)

-- An order block below 1995, an ATR of 4, and 1 % of 5000 at risk.
abbrev purchase : CapitalInput ℤ
purchase = record {
  direction = codes "BUY";
  entry_price = usd 2000;
  atr = usd 4;
  account_balance = usd 5000;
  risk_percent = usd 1;
  take_profit_rr = usd 2;
  take_profit_level = none;
  order_block_top = none;
  order_block_bottom = some (usd 1995);
  swing_high = none;
  swing_low = some (usd 1980);
  resistance_level = none;
  support_level = none;
  sl_atr_multiplier = usd 3;
  sl_min_atr_multiplier = pos 1_500_000_000;
  structure_buffer_atr = pos 200_000_000;
}

nearest_of_purchase :
    nearest_level (normalized (codes "BUY")) (levels purchase (usd 2000) (normalized (codes "BUY")))
    ≡ some (usd 1995)
unfolding levels text_eq upper strip max
nearest_of_purchase = refl

purchase-IsSizable : IsSizable purchase (usd 2000) (usd 4) (normalized (codes "BUY"))
unfolding safe_atr min_mult max_mult clamp max min ◌-ℤ◌ ◌+ℤ◌
purchase-IsSizable = record {
  atr_number = refl;
  min_number = refl;
  max_number = refl;
  raw_number = inr (usd 1995, nearest_of_purchase, refl);
  positive_epsilon = refl;
  least_mult = refl;
}

-- The stop is at 1994, since the noise floor of 6 is above the distance of 5.80.
purchase_plan :
    let plan = calc_smart_stop (codes "BUY") (usd 2000) (usd 4) purchase in
    (plan.valid ≡ true) × (plan.stop_loss ≡ usd 1994)
unfolding calc_smart_stop structural_plan levels safe_atr min_mult max_mult clamp max min text_eq
    upper strip ◌-ℤ◌ ◌+ℤ◌
purchase_plan = (refl, refl)

valid_stop-IsInEnvelope_example :
    IsInEnvelope purchase
      (usd 2000)
      (usd 4)
      (normalized (codes "BUY"))
      (calc_smart_stop (codes "BUY") (usd 2000) (usd 4) purchase).stop_loss
valid_stop-IsInEnvelope_example =
    valid_stop-IsInEnvelope fixed-IsOrdered fixed-IsMonotone fixed-IsSigned (codes "BUY") (usd 2000)
      (usd 4) purchase purchase-IsSizable purchase_plan.0

calc_trade_parameters-IsSized_example :
    IsSized
      (sl_distance purchase)
      (budget_for purchase.account_balance purchase.risk_percent)
      (calc_trade_parameters purchase)
calc_trade_parameters-IsSized_example =
    calc_trade_parameters-IsSized fixed-IsOrdered fixed-IsMonotone fixed-IsFloored refl purchase
