-- ===== src/Risk/Aggregate/Sizing.antt =====
-- `size_order_for_aggregate_risk` of live_trading/risk/aggregate_risk.py. Python's `Decimal` is a
-- parameter, the logs are left out, and the loop over the volume steps has fuel.
pub mod Ladder
pub mod Safety
pub mod Largest
pub mod Ends
use scalp_tn_aaa.Base.{
  ℕ, zero, suc, Bool, ◌&&◌, ◌||◌, Option, none, some, List, if◌then◌else◌, is_none,
}
use scalp_tn_aaa.Base.Int.{ℤ, pos_part}
use scalp_tn_aaa.Base.Text.{Text, codes}
use scalp_tn_aaa.Base.Results.{Result, ok, err, ◌>>=◌, ◌>>◌, raise_if}
use scalp_tn_aaa.Float.{Float, nought, min}
use scalp_tn_aaa.Float.Values.{Value, float_of}
use scalp_tn_aaa.Risk.Aggregate.{
  RiskError, SymbolRiskSpec, OpenPosition, number_field, risk_per_lot, aggregate_open_risk, divide,
  zero_division, not_a_float, blocked_no_remaining_budget, blocked_minimum_lot,
  blocked_volume_constraint, blocked_aggregate_budget, endless_loop,
}

-- What the sizing does with decimals.
pub record Decimals (F D : Type 0) : Type 0 where
  -- `Decimal(str(x))`
  pub decimal : F → D
  -- `float(d)`
  pub to_float : D → F
  pub add : D → D → D
  pub sub : D → D → D
  -- `n * d`
  pub times : ℤ → D → D
  -- `int((a / b).to_integral_value(rounding=ROUND_FLOOR))`
  pub floor_quotient : D → D → ℤ
  pub gt : D → D → Bool

-- The arguments of the call, but for `spec`.
pub record Order (F : Type 0) : Type 0 where
  pub positions : List (OpenPosition F)
  pub direction : Text
  pub entry_price : Value F
  pub stop_loss : Value F
  pub account_balance : Value F
  pub per_trade_risk_percent : Value F
  pub aggregate_risk_percent : Value F

pub record AggregateRiskSizing (F : Type 0) : Type 0 where
  pub lot_size : F
  pub existing_risk : F
  pub new_risk : F
  pub aggregate_risk : F
  pub aggregate_limit : F
  pub trade_limit : F
  pub risk_budget : F
  pub position_count : ℕ

-- What the first half of the call computes.
pub record Budget (F : Type 0) : Type 0 where
  pub existing_risk : F
  pub count : ℕ
  pub aggregate_limit : F
  pub trade_limit : F
  pub risk_budget : F

module _ {F D : Type 0} ⦃fl : Float F⦄ (dec : Decimals F D) where
  -- The volume that lies `n` steps above the minimum.
  abbrev pub rung : D → D → ℤ → D
  rung minimum step n = dec.add minimum (dec.times n step)

  -- The condition of the `while`.
  abbrev pub is_over : F → F → D → D → Bool
  is_over budget per_lot minimum volume =
      fl.lt budget (fl.mul per_lot (dec.to_float volume)) && dec.gt volume minimum

  -- The `while`, with at most `fuel` turns.
  unfoldable pub shrink : ℕ → F → F → D → D → D → Option D
  shrink zero budget per_lot minimum step volume =
      if is_over budget per_lot minimum volume then none else some volume
  shrink (suc fuel) budget per_lot minimum step volume =
      let rest = shrink fuel budget per_lot minimum step (dec.sub volume step) in
      if is_over budget per_lot minimum volume then rest else some volume

  abbrev pub shrunk : Option D → Result RiskError D
  shrunk none = err endless_loop
  shrunk (some volume) = ok volume

  -- The checks behind the loop, and the result.
  unfoldable pub finish_order : Budget F → F → F → Result RiskError (AggregateRiskSizing F)
  finish_order b per_lot volume = do
    let new_risk = fl.mul per_lot volume
    raise_if (fl.lt b.risk_budget new_risk) blocked_minimum_lot
    raise_if (fl.lt b.aggregate_limit (fl.add b.existing_risk new_risk)) blocked_aggregate_budget
    ok record {
      lot_size = volume;
      existing_risk = fl.round 8 b.existing_risk;
      new_risk = fl.round 8 new_risk;
      aggregate_risk = fl.round 8 (fl.add b.existing_risk new_risk);
      aggregate_limit = fl.round 8 b.aggregate_limit;
      trade_limit = fl.round 8 b.trade_limit;
      risk_budget = fl.round 8 b.risk_budget;
      position_count = b.count;
    }

  -- `step_count`
  abbrev pub step_count : SymbolRiskSpec F → F → ℤ
  step_count spec raw =
      dec.floor_quotient (dec.sub (dec.decimal raw) (dec.decimal spec.volume_min))
        (dec.decimal spec.volume_step)

  -- From the first volume down to the one that fits.
  unfoldable pub size_volume :
      SymbolRiskSpec F → Budget F → F → F → Result RiskError (AggregateRiskSizing F)
  size_volume spec b per_lot raw = do
    let minimum = dec.decimal spec.volume_min
    let step = dec.decimal spec.volume_step
    let n = step_count spec raw
    let first = rung minimum step n
    raise_if
        (fl.lt (dec.to_float first) spec.volume_min || fl.lt spec.volume_max (dec.to_float first))
        blocked_volume_constraint
    volume ← shrunk (shrink (pos_part n) b.risk_budget per_lot minimum step first)
    finish_order b per_lot (dec.to_float volume)

  -- The volume that the budget pays for, or the broker's maximum.
  unfoldable pub raw_volume : SymbolRiskSpec F → Budget F → F → Result RiskError F
  raw_volume spec b per_lot = do
    quotient ← divide b.risk_budget per_lot
    let raw = min quotient spec.volume_max
    raise_if (fl.lt raw spec.volume_min) blocked_minimum_lot
    raise_if (fl.le spec.volume_step nought && fl.le nought spec.volume_step) zero_division
    ok raw

  module _ (parse : Text → Option F) (sum : List F → F) where
    unfoldable pub budget_of : Order F → SymbolRiskSpec F → Result RiskError (Budget F)
    budget_of o spec = do
      balance ← number_field parse o.account_balance (codes "Account balance")
      trade ← number_field parse o.per_trade_risk_percent (codes "Per-trade risk percent")
      aggregate ← number_field parse o.aggregate_risk_percent (codes "Aggregate risk percent")
      open_risk ← aggregate_open_risk parse sum o.positions spec
      let aggregate_limit = fl.div (fl.mul balance aggregate) (fl.lit 100 1)
      let trade_limit = fl.div (fl.mul balance trade) (fl.lit 100 1)
      let risk_budget = min trade_limit (fl.sub aggregate_limit open_risk.0)
      raise_if (fl.le risk_budget nought) blocked_no_remaining_budget
      ok record {
        existing_risk = open_risk.0;
        count = open_risk.1;
        aggregate_limit = aggregate_limit;
        trade_limit = trade_limit;
        risk_budget = risk_budget;
      }

    unfoldable pub size_order_for_aggregate_risk :
        Order F → SymbolRiskSpec F → Result RiskError (AggregateRiskSizing F)
    size_order_for_aggregate_risk o spec = do
      b ← budget_of o spec
      raise_if (is_none (float_of parse o.entry_price)) not_a_float
      raise_if (is_none (float_of parse o.stop_loss)) not_a_float
      per_lot ← risk_per_lot parse o.direction o.entry_price o.stop_loss spec
      raw ← raw_volume spec b per_lot
      size_volume spec b per_lot raw
