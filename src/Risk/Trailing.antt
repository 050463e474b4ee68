-- ===== src/Risk/Trailing.antt =====
-- live_trading/risk/adaptive_trailing_stop.py: the R-based stages of the trailing stop. The
-- exhaustion signals, which the decision only reports, are left out. An argument that is `None` or
-- that `float` rejects is `none`; the extremes are numbers or absent.
pub mod Stages
pub mod Ticket
pub mod Ratchet
use scalp_tn_aaa.Base.{
  ℕ, zero, suc, ◌-◌, Bool, true, false, not, ◌&&◌, ◌||◌, Option, none, some, List, [], ◌∷◌,
  if◌then◌else◌, length, take, leb,
}
use scalp_tn_aaa.Base.Text.{Text, text_eq, upper}
use scalp_tn_aaa.Float.{Float, gt, ge, nought, max, min}
use scalp_tn_aaa.Entry.Policy.{buy}

-- The fields of `AdaptiveTrailingConfig` that the stages read.
pub record TrailConfig (F : Type 0) : Type 0 where
  pub atr_period : ℕ
  pub chandelier_atr_multiplier : F
  pub min_step_price : F

pub record Candle (F : Type 0) : Type 0 where
  pub high : F
  pub low : F
  pub close : F

pub data Stage : Type 0 where
  waiting_for_1r breakeven chandelier : Stage

-- The arguments of `compute_adaptive_trail`.
pub record TrailInput (F : Type 0) : Type 0 where
  pub direction : Text
  pub current_price : F
  pub entry_price : Option F
  pub initial_sl : Option F
  pub risk_distance : Option F
  pub current_sl : Option F
  pub highest_price_since_entry : Option F
  pub lowest_price_since_entry : Option F
  pub breakeven_armed : Bool

-- What the stages choose.
pub record Trail (F : Type 0) : Type 0 where
  pub stage : Stage
  pub multiplier : F
  pub distance : F
  pub candidate : Option F

pub record TrailDecision (F : Type 0) : Type 0 where
  pub stage : Stage
  pub multiplier : F
  pub atr : F
  pub distance : F
  pub candidate_sl : Option F
  pub floating_profit_price : F
  pub floating_profit_atr_multiple : F
  pub floating_profit_r_multiple : F
  pub risk_distance : F
  pub highest_price_since_entry : Option F
  pub lowest_price_since_entry : Option F
  pub breakeven_armed : Bool
  pub tightening_eligible : Bool

abbrev pub is_buy : Text → Bool
is_buy direction = text_eq (upper direction) buy

abbrev pub is_chandelier : Stage → Bool
is_chandelier chandelier = true
is_chandelier _ = false

abbrev pub at_least_one : ℕ → ℕ
at_least_one zero = 1
at_least_one (suc n) = suc n

module _ {F : Type 0} ⦃fl : Float F⦄ where
  abbrev pub number_of : ℕ → F
  number_of n = fl.lit n 1

  abbrev pub true_range : Candle F → Candle F → F
  true_range previous current =
      max (max (fl.sub current.high current.low) (fl.abs (fl.sub current.high previous.close)))
        (fl.abs (fl.sub current.low previous.close))

  abbrev pub true_ranges : List (Candle F) → List F
  true_ranges [] = []
  true_ranges (a ∷ []) = []
  true_ranges (a ∷ b ∷ cs) = true_range a b ∷ true_ranges (b ∷ cs)

  -- Wilder's smoothing over the ranges behind the first `n`.
  abbrev pub smoothed : ℕ → ℕ → F → List F → F
  smoothed period n value [] = value
  smoothed period (suc n) value (r ∷ rs) = smoothed period n value rs
  smoothed period zero value (r ∷ rs) =
      smoothed period zero
        (fl.div (fl.add (fl.mul value (number_of (period - 1))) r) (number_of period)) rs

  -- `sum` is Python's, for floats.
  abbrev pub atr_of_ranges : (List F → F) → ℕ → List F → F
  atr_of_ranges sum period [] = nought
  atr_of_ranges sum period (r ∷ rs) =
      let size = length (take period (r ∷ rs)) in
      let seed = fl.div (sum (take size (r ∷ rs))) (number_of size) in
      fl.round 8 (max nought (smoothed period size seed (r ∷ rs)))

  unfoldable pub atr : (List F → F) → List (Candle F) → ℕ → F
  atr sum candles period = atr_of_ranges sum (at_least_one period) (true_ranges candles)

  abbrev pub favorable_move : Bool → F → F → F
  favorable_move is_long price entry = if is_long then fl.sub price entry else fl.sub entry price

  abbrev pub floating_profit : Bool → F → Option F → F
  floating_profit is_long price none = nought
  floating_profit is_long price (some entry) =
      fl.round 8 (max nought (favorable_move is_long price entry))

  abbrev pub stop_risk : Option F → Option F → F
  stop_risk (some entry) (some initial_sl) =
      let candidate = fl.abs (fl.sub entry initial_sl) in
      if gt initial_sl nought && gt candidate nought then candidate else nought
  stop_risk _ _ = nought

  abbrev pub or_saved_risk : F → Option F → F
  or_saved_risk risk none = risk
  or_saved_risk risk (some saved) = if fl.le risk nought then fl.abs saved else risk

  unfoldable pub normalized_risk : TrailInput F → F
  normalized_risk i = or_saved_risk (stop_risk i.entry_price i.initial_sl) i.risk_distance

  abbrev pub ratio : F → F → F
  ratio a b = if gt b nought then fl.div a b else nought

  abbrev pub high_since_entry : F → Option F → Option F → Option F
  high_since_entry price none highest = none
  high_since_entry price (some entry) none = some (max entry price)
  high_since_entry price (some entry) (some highest) = some (max (max entry highest) price)

  abbrev pub low_since_entry : F → Option F → Option F → Option F
  low_since_entry price none lowest = none
  low_since_entry price (some entry) none = some (min entry price)
  low_since_entry price (some entry) (some lowest) = some (min (min entry lowest) price)

  -- One unit of initial risk has been earned, now or before.
  unfoldable pub armed : TrailInput F → Bool
  armed i =
      let risk = normalized_risk i in
      i.breakeven_armed
      || (gt risk nought
          && ge (floating_profit (is_buy i.direction) i.current_price i.entry_price) risk)

  abbrev pub at_or_beyond_breakeven : Bool → F → Option F → Bool
  at_or_beyond_breakeven is_long entry none = false
  at_or_beyond_breakeven is_long entry (some sl) = if is_long then ge sl entry else fl.le sl entry

  abbrev pub waiting : Trail F
  waiting = record {
    stage = waiting_for_1r;
    multiplier = nought;
    distance = nought;
    candidate = none;
  }

  abbrev pub breakeven_trail : F → F → Trail F
  breakeven_trail price entry = record {
    stage = breakeven;
    multiplier = nought;
    distance = fl.round 8 (fl.abs (fl.sub price entry));
    candidate = some (fl.round 8 entry);
  }

  abbrev pub chandelier_trail : F → F → F → Trail F
  chandelier_trail multiplier distance candidate = record {
    stage = chandelier;
    multiplier = multiplier;
    distance = fl.round 8 distance;
    candidate = some candidate;
  }

  abbrev pub no_extreme : F → Trail F
  no_extreme multiplier = record {
    stage = chandelier;
    multiplier = multiplier;
    distance = nought;
    candidate = none;
  }

  -- The stop behind the best price since entry.
  abbrev pub chandelier_stop : Bool → F → F → Option F → Option F → Trail F
  chandelier_stop true multiplier current_atr (some high) low =
      let candidate = fl.round 8 (fl.sub high (fl.mul multiplier current_atr)) in
      chandelier_trail multiplier (fl.sub high candidate) candidate
  chandelier_stop true multiplier current_atr none low = no_extreme multiplier
  chandelier_stop false multiplier current_atr high (some low) =
      let candidate = fl.round 8 (fl.add low (fl.mul multiplier current_atr)) in
      chandelier_trail multiplier (fl.sub candidate low) candidate
  chandelier_stop false multiplier current_atr high none = no_extreme multiplier

  abbrev pub armed_trail : TrailConfig F → F → TrailInput F → F → Trail F
  armed_trail cfg current_atr i entry =
      if not (at_or_beyond_breakeven (is_buy i.direction) entry i.current_sl)
      then breakeven_trail i.current_price entry
      else if gt current_atr nought
      then chandelier_stop (is_buy i.direction) cfg.chandelier_atr_multiplier current_atr
          (high_since_entry i.current_price i.entry_price i.highest_price_since_entry)
          (low_since_entry i.current_price i.entry_price i.lowest_price_since_entry)
      else waiting

  unfoldable pub choose_trail : TrailConfig F → F → TrailInput F → Trail F
  choose_trail cfg current_atr i =
      if armed i
      then elim i.entry_price [ none ↦ waiting | some entry ↦ armed_trail cfg current_atr i entry ]
      else waiting

  abbrev pub rounded : Option F → Option F
  rounded none = none
  rounded (some x) = some (fl.round 8 x)

  unfoldable pub trail_decision : TrailConfig F → F → TrailInput F → TrailDecision F
  trail_decision cfg current_atr i =
      let trail = choose_trail cfg current_atr i in
      let profit = floating_profit (is_buy i.direction) i.current_price i.entry_price in
      let risk = normalized_risk i in
      record {
        stage = trail.stage;
        multiplier = trail.multiplier;
        atr = current_atr;
        distance = fl.round 8 trail.distance;
        candidate_sl = trail.candidate;
        floating_profit_price = profit;
        floating_profit_atr_multiple = fl.round 8 (ratio profit current_atr);
        floating_profit_r_multiple = fl.round 8 (ratio profit risk);
        risk_distance = fl.round 8 risk;
        highest_price_since_entry =
            rounded (high_since_entry i.current_price i.entry_price i.highest_price_since_entry);
        lowest_price_since_entry =
            rounded (low_since_entry i.current_price i.entry_price i.lowest_price_since_entry);
        breakeven_armed = armed i;
        tightening_eligible = is_chandelier trail.stage;
      }

  unfoldable pub compute_adaptive_trail :
      (List F → F) → TrailConfig F → List (Candle F) → TrailInput F → TrailDecision F
  compute_adaptive_trail sum cfg candles i = trail_decision cfg (atr sum candles cfg.atr_period) i

  unfoldable pub should_apply : Text → F → Option F → F → Bool
  should_apply direction current_sl none min_step_price = false
  should_apply direction current_sl (some candidate_sl) min_step_price =
      if is_buy direction
      then ge (fl.sub candidate_sl current_sl) min_step_price
      else ge (fl.sub current_sl candidate_sl) min_step_price
