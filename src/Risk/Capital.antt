-- ===== src/Risk/Capital.antt =====
-- live_trading/risk/capital_manager.py. An argument is a float or absent, and the reason of a stop
-- plan is left out, since its mode tells the branch.
pub mod Envelope
pub mod Lots
use scalp_tn_aaa.Base.{
  Bool, true, false, not, ◌&&◌, ◌||◌, Option, none, some, List, [], ◌∷◌, if◌then◌else◌,
}
use scalp_tn_aaa.Base.Text.{Text, text_eq}
use scalp_tn_aaa.Float.{Float, gt, ge, nought, max, min}
use scalp_tn_aaa.Entry.Policy.{buy, sell, normalized}

pub record CapitalInput (F : Type 0) : Type 0 where
  pub direction : Text
  pub entry_price : F
  pub atr : F
  pub account_balance : F
  pub risk_percent : F
  pub take_profit_rr : F
  pub take_profit_level : Option F
  pub order_block_top : Option F
  pub order_block_bottom : Option F
  pub swing_high : Option F
  pub swing_low : Option F
  pub resistance_level : Option F
  pub support_level : Option F
  pub sl_atr_multiplier : F
  pub sl_min_atr_multiplier : F
  pub structure_buffer_atr : F

pub data StopMode : Type 0 where
  structure_too_far structural structural_min_floor atr_fallback : StopMode

pub record SmartStopPlan (F : Type 0) : Type 0 where
  pub stop_loss : F
  pub valid : Bool
  pub mode : StopMode
  pub structural_level : Option F
  pub distance_atr : F

pub record LotSize (F : Type 0) : Type 0 where
  pub lot_size : F
  pub risk_amount : F
  pub risk_budget : F
  pub exceeded : Bool

pub record CapitalOutput (F : Type 0) : Type 0 where
  pub entry_price : F
  pub stop_loss : F
  pub take_profit : F
  pub risk_reward_ratio : F
  pub trailing_stop_distance : F
  pub trailing_activation_at : F
  pub break_even_at : F
  pub break_even_sl : F
  pub lot_size : F
  pub risk_amount : F
  pub sl_distance_usd : F
  pub sl_distance_pips : F
  pub risk_budget : F
  pub risk_percent : F
  pub min_lot_risk_exceeded : Bool
  pub stop_loss_mode : StopMode
  pub stop_loss_valid : Bool
  pub structural_level : Option F

-- The directional levels that are there.
abbrev pub given {ℓ} : {A : Type ℓ} → Option A → List A → List A
given none xs = xs
given (some x) xs = x ∷ xs

abbrev pub map_some : {A B : Type 0} → (A → B) → Option A → Option B
map_some f none = none
map_some f (some a) = some (f a)

module _ {F : Type 0} ⦃fl : Float F⦄ where
  abbrev pub max_sl_atr_mult : F
  max_sl_atr_mult = fl.lit 35 10

  abbrev pub min_lot : F
  min_lot = fl.lit 1 100

  abbrev pub max_lot : F
  max_lot = fl.lit 50 1

  abbrev pub epsilon : F
  epsilon = fl.lit 1 1_000_000_000

  unfoldable pub clamp : F → F → F → F
  clamp val lo hi = max lo (min hi val)

  abbrev pub finite_level : Option F → F → Text → Option F
  finite_level none entry direction = none
  finite_level (some level) entry direction =
      if not (fl.is_finite level) || fl.le level nought
      then none
      else if text_eq direction buy && fl.lt level entry
      then some level
      else if text_eq direction sell && gt level entry
      then some level
      else none

  abbrev pub max_of : F → List F → F
  max_of best [] = best
  max_of best (x ∷ xs) = max_of (max best x) xs

  abbrev pub min_of : F → List F → F
  min_of best [] = best
  min_of best (x ∷ xs) = min_of (min best x) xs

  -- The levels, then the nearest one.
  unfoldable pub levels : CapitalInput F → F → Text → List F
  levels inp entry direction =
      if text_eq direction buy
      then given (finite_level inp.order_block_bottom entry direction) (
          given (finite_level inp.swing_low entry direction)
            (given (finite_level inp.support_level entry direction) []))
      else given (finite_level inp.order_block_top entry direction) (
          given (finite_level inp.swing_high entry direction)
            (given (finite_level inp.resistance_level entry direction) []))

  abbrev pub nearest_level : Text → List F → Option F
  nearest_level direction [] = none
  nearest_level direction (x ∷ xs) =
      some (if text_eq direction buy then max_of x xs else min_of x xs)

  unfoldable pub safe_atr : F → F
  safe_atr atr = max atr epsilon

  unfoldable pub min_mult : CapitalInput F → F
  min_mult inp = clamp inp.sl_min_atr_multiplier (fl.lit 75 100) max_sl_atr_mult

  unfoldable pub max_mult : CapitalInput F → F
  max_mult inp = clamp inp.sl_atr_multiplier (min_mult inp) max_sl_atr_mult

  abbrev pub min_distance : CapitalInput F → F → F
  min_distance inp atr = fl.mul (safe_atr atr) (min_mult inp)

  abbrev pub max_distance : CapitalInput F → F → F
  max_distance inp atr = fl.mul (safe_atr atr) (max_mult inp)

  abbrev pub buffer : CapitalInput F → F → F
  buffer inp atr = fl.mul (safe_atr atr) (max nought inp.structure_buffer_atr)

  abbrev pub raw_distance : CapitalInput F → F → F → F → F
  raw_distance inp entry atr level = fl.add (fl.abs (fl.sub entry level)) (buffer inp atr)

  abbrev pub stop_at : Text → F → F → F
  stop_at direction entry distance =
      fl.round 2 (if text_eq direction buy then fl.sub entry distance else fl.add entry distance)

  abbrev pub plan_at : Text → F → F → Bool → StopMode → Option F → F → SmartStopPlan F
  plan_at direction entry atr valid mode level distance = record {
    stop_loss = stop_at direction entry distance;
    valid = valid;
    mode = mode;
    structural_level = level;
    distance_atr = fl.round 4 (fl.div distance (safe_atr atr));
  }

  -- The plan behind a structural level.
  unfoldable pub structural_plan : CapitalInput F → Text → F → F → F → SmartStopPlan F
  structural_plan inp direction entry atr level =
      let raw = raw_distance inp entry atr level in
      if gt raw (fl.add (max_distance inp atr) epsilon)
      then plan_at direction entry atr false structure_too_far (some (fl.round 2 level))
          (max_distance inp atr)
      else plan_at direction entry atr true
          (if ge raw (min_distance inp atr) then structural else structural_min_floor)
          (some (fl.round 2 level)) (max raw (min_distance inp atr))

  abbrev pub plan_for : CapitalInput F → Text → F → F → Option F → SmartStopPlan F
  plan_for inp direction entry atr none =
      plan_at direction entry atr true atr_fallback none (max_distance inp atr)
  plan_for inp direction entry atr (some level) = structural_plan inp direction entry atr level

  unfoldable pub calc_smart_stop : Text → F → F → CapitalInput F → SmartStopPlan F
  calc_smart_stop direction entry atr inp =
      let side = normalized direction in
      plan_for inp side entry atr (nearest_level side (levels inp entry side))

  -- `LOT_DOLLAR_PER_UNIT`, and the factors 100.
  abbrev pub lot_dollar_per_unit : F
  lot_dollar_per_unit = fl.lit 100 1

  -- What `math.floor` is called on: the steps that the budget pays for.
  abbrev pub raw_steps : F → F → F
  raw_steps sl_dist_usd risk_budget =
      let raw_lot = fl.div risk_budget (fl.mul sl_dist_usd lot_dollar_per_unit) in
      fl.add (fl.div raw_lot min_lot) epsilon

  -- `none` where `math.floor` raises.
  abbrev pub stepped_lot : F → F → Option F
  stepped_lot sl_dist_usd risk_budget =
      map_some (λ steps. fl.mul steps min_lot) (fl.floor (raw_steps sl_dist_usd risk_budget))

  abbrev pub budget_for : F → F → F
  budget_for balance risk_pct = max nought (fl.div (fl.mul balance risk_pct) (fl.lit 100 1))

  abbrev pub lot_for : F → F → F → LotSize F
  lot_for sl_dist_usd risk_budget stepped =
      let lot = fl.round 4 (clamp stepped min_lot max_lot) in
      let actual = fl.round 2 (fl.mul (fl.mul lot sl_dist_usd) lot_dollar_per_unit) in
      record {
        lot_size = lot;
        risk_amount = actual;
        risk_budget = fl.round 2 risk_budget;
        exceeded = gt actual (fl.add risk_budget (fl.lit 1 100));
      }

  unfoldable pub calc_lot_size : F → F → F → Option (LotSize F)
  calc_lot_size sl_dist_usd balance risk_pct =
      let risk_budget = budget_for balance risk_pct in
      if fl.le sl_dist_usd nought
      then some (record {
        lot_size = min_lot;
        risk_amount = nought;
        risk_budget = fl.round 2 risk_budget;
        exceeded = true;
      })
      else map_some (lot_for sl_dist_usd risk_budget) (stepped_lot sl_dist_usd risk_budget)

  -- `entry + d` for a buy, `entry - d` for any other direction.
  abbrev pub ahead : Text → F → F → F
  ahead direction entry d = if text_eq direction buy then fl.add entry d else fl.sub entry d

  abbrev pub target_level : CapitalInput F → Option F
  target_level inp = elim inp.take_profit_level [
    | none ↦ none
    | some level ↦
        if (text_eq inp.direction buy && gt level inp.entry_price)
          || (text_eq inp.direction sell && fl.lt level inp.entry_price)
        then some level
        else none
  ]

  -- The take-profit price and its distance.
  abbrev pub target : CapitalInput F → F → Option F → F × F
  target inp sl_dist none =
      let d = fl.mul sl_dist inp.take_profit_rr in
      (fl.round 2 (ahead inp.direction inp.entry_price d), d)
  target inp sl_dist (some level) =
      (fl.round 2 level, fl.abs (fl.sub (fl.round 2 level) inp.entry_price))

  -- The distance of the stop from the entry.
  abbrev pub sl_distance : CapitalInput F → F
  sl_distance inp =
      let plan = calc_smart_stop inp.direction inp.entry_price inp.atr inp in
      fl.round 2 (fl.abs (fl.sub inp.entry_price plan.stop_loss))

  abbrev pub parameters_with : CapitalInput F → LotSize F → CapitalOutput F
  parameters_with inp lot =
      let entry = inp.entry_price in
      let plan = calc_smart_stop inp.direction entry inp.atr inp in
      let sl_dist = sl_distance inp in
      let (tp, tp_dist) = target inp sl_dist (target_level inp) in
      let be_at = fl.round 2 (ahead inp.direction entry (fl.mul sl_dist (fl.lit 1 1))) in
      record {
        entry_price = fl.round 2 entry;
        stop_loss = plan.stop_loss;
        take_profit = tp;
        risk_reward_ratio =
            if gt sl_dist nought then fl.round 2 (fl.div tp_dist sl_dist) else nought;
        trailing_stop_distance = fl.round 2 (fl.mul sl_dist (fl.lit 5 10));
        trailing_activation_at = be_at;
        break_even_at = be_at;
        break_even_sl = entry;
        lot_size = lot.lot_size;
        risk_amount = lot.risk_amount;
        sl_distance_usd = sl_dist;
        sl_distance_pips = fl.round 2 (fl.mul sl_dist (fl.lit 100 1));
        risk_budget = lot.risk_budget;
        risk_percent = fl.round 2 inp.risk_percent;
        min_lot_risk_exceeded = lot.exceeded;
        stop_loss_mode = plan.mode;
        stop_loss_valid = plan.valid;
        structural_level = plan.structural_level;
      }

  -- `none` where the size of the lot raises.
  unfoldable pub calc_trade_parameters : CapitalInput F → Option (CapitalOutput F)
  calc_trade_parameters inp =
      map_some (parameters_with inp)
        (calc_lot_size (sl_distance inp) inp.account_balance inp.risk_percent)
