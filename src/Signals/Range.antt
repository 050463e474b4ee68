-- ===== src/Signals/Range.antt =====
-- live_trading/signals/range_strategy.py: the range playbook over closed candles. A reason is a
-- constructor, `smc` is ignored by the function and left out, and `sum` is Python's, for floats.
pub mod Edges
use scalp_tn_aaa.Base.{
  ℕ, ◌+◌, ◌-◌, Bool, true, false, not, ◌&&◌, ◌||◌, Option, none, some, List, [], ◌∷◌, map,
  if◌then◌else◌, length, ltb, leb, take, drop, last, last_at, head?,
}
use scalp_tn_aaa.Base.Text.{Text, text_eq}
use scalp_tn_aaa.Float.{Float, nought, gt, ge}
use scalp_tn_aaa.Entry.Policy.{buy, neutral, is_side}
use scalp_tn_aaa.Risk.Trailing.{Candle, true_ranges, number_of}
use scalp_tn_aaa.Signals.Confidence.{
  PaFlags, PriceActionResult, least_of, greatest_of, without_last,
}

pub data RangeLocation : Type 0 where
  at_support at_resistance middle unknown_location : RangeLocation

pub data RangeReason : Type 0 where
  insufficient_candles too_few_confirmations filters_disabled wrong_edge no_sweep : RangeReason
  no_reversal range_accepted : RangeReason
  -- What the decision engine writes over the reason.
  breakout_blocked breakout_accepted : RangeReason

pub record RangeContext (F : Type 0) : Type 0 where
  pub valid : Bool
  pub direction : Text
  pub support : F
  pub resistance : F
  pub atr : F
  pub edge_distance : F
  pub location : RangeLocation
  pub liquidity_sweep : Bool
  pub reversal_candle : Bool
  pub confirmation_count : ℕ
  pub reason : RangeReason

-- The arguments besides the candles and the Price Action result.
pub record RangeRequest (F : Type 0) : Type 0 where
  pub direction : Text
  pub confirmation_count : ℕ
  pub min_confirmations : ℕ
  pub lookback : ℕ
  pub edge_atr_distance : F
  pub strict_filters : Bool
  pub require_edge_position : Bool

abbrev pub is_edge_of : Text → RangeLocation → Bool
is_edge_of direction at_support = text_eq direction buy
is_edge_of direction at_resistance = not (text_eq direction buy)
is_edge_of direction _ = false

abbrev pub locate : Bool → Bool → Text → RangeLocation
locate near_support near_resistance direction =
    if near_support && not near_resistance
    then at_support
    else if near_resistance && not near_support
    then at_resistance
    else if near_support && near_resistance
    then if text_eq direction buy then at_support else at_resistance
    else middle

abbrev pub is_accepted : RangeReason → Bool
is_accepted filters_disabled = true
is_accepted range_accepted = true
is_accepted _ = false

abbrev pub has_reversal : PaFlags → Bool
has_reversal f = f.engulf || f.pin_bar || f.strong

module _ {F : Type 0} where
  -- The reason, from the location, the sweep and the reversal.
  unfoldable pub range_reason : RangeRequest F → RangeLocation → Bool → Bool → RangeReason
  range_reason r location sweep reversal =
      if ltb r.confirmation_count r.min_confirmations
      then too_few_confirmations
      else if not r.strict_filters
      then filters_disabled
      else if r.require_edge_position && not (is_edge_of r.direction location)
      then wrong_edge
      else if not sweep
      then no_sweep
      else if not reversal
      then no_reversal
      else range_accepted

  unfoldable pub reversal_of : PriceActionResult F → Text → Bool
  reversal_of pa direction =
      if text_eq direction buy then has_reversal pa.bull else has_reversal pa.bear

module _ {F : Type 0} ⦃fl : Float F⦄ where
  abbrev pub lowest : List (Candle F) → F
  lowest [] = nought
  lowest (c ∷ cs) = least_of c.low (map (λ x. x.low) cs)

  abbrev pub highest : List (Candle F) → F
  highest [] = nought
  highest (c ∷ cs) = greatest_of c.high (map (λ x. x.high) cs)

  unfoldable pub range_atr : (List F → F) → List (Candle F) → F
  range_atr sum candles =
      let window = last 14 (true_ranges candles) in
      if ltb (length candles) 2 then nought else fl.div (sum window) (number_of (length window))

  -- A wick beyond the levels before it, and a close on their inner side.
  abbrev pub is_swept : Text → List (Candle F) → Option (Candle F) → Bool
  is_swept direction history none = false
  is_swept direction [] (some c) = false
  is_swept direction (h ∷ hs) (some c) =
      if text_eq direction buy
      then fl.lt c.low (lowest (h ∷ hs)) && gt c.close (lowest (h ∷ hs))
      else gt c.high (highest (h ∷ hs)) && fl.lt c.close (highest (h ∷ hs))

  abbrev pub sweep_at : Text → List (Candle F) → ℕ → Bool
  sweep_at direction candles i =
      is_swept direction (last 20 (take i candles)) (head? (drop i candles))

  -- The bars from `max(1, len(candles) - 2)` on, with `last_bar` the last one.
  unfoldable pub latest_sweep : List (Candle F) → Text → Bool
  latest_sweep candles direction =
      let n = length candles in
      (ltb 2 n && sweep_at direction candles (n - 2))
      || (ltb 1 n && sweep_at direction candles (n - 1))

  abbrev pub neutral_context : ℕ → RangeContext F
  neutral_context count = record {
    valid = false;
    direction = neutral;
    support = nought;
    resistance = nought;
    atr = nought;
    edge_distance = nought;
    location = unknown_location;
    liquidity_sweep = false;
    reversal_candle = false;
    confirmation_count = count;
    reason = insufficient_candles;
  }

  abbrev pub location_of : RangeRequest F → F → F → F → Candle F → RangeLocation
  location_of r support resistance edge signal =
      locate (fl.le signal.low (fl.add support edge)) (ge signal.high (fl.sub resistance edge))
        r.direction

  -- The context at a signal candle, from the candles and the levels before it.
  unfoldable pub context_at :
      F → List (Candle F) → PriceActionResult F → RangeRequest F → F → F → Candle F → RangeContext F
  context_at atr candles pa r support resistance signal =
      let edge = fl.mul atr r.edge_atr_distance in
      let location = location_of r support resistance edge signal in
      let sweep = latest_sweep candles r.direction in
      let reversal = reversal_of pa r.direction in
      let reason = range_reason r location sweep reversal in
      record {
        valid = is_accepted reason;
        direction = if is_accepted reason then r.direction else neutral;
        support = fl.round 2 support;
        resistance = fl.round 2 resistance;
        atr = fl.round 5 atr;
        edge_distance = fl.round 5 edge;
        location = location;
        liquidity_sweep = sweep;
        reversal_candle = reversal;
        confirmation_count = r.confirmation_count;
        reason = reason;
      }

  abbrev pub context_or_neutral :
      F
      → List (Candle F)
      → PriceActionResult F
      → RangeRequest F
      → Option (Candle F)
      → RangeContext F
  context_or_neutral atr candles pa r none = neutral_context r.confirmation_count
  context_or_neutral atr candles pa r (some signal) =
      let history = without_last (last (r.lookback + 1) candles) in
      if fl.le atr nought || fl.le (highest history) (lowest history)
      then neutral_context r.confirmation_count
      else context_at atr candles pa r (lowest history) (highest history) signal

  unfoldable pub evaluate_range_entry :
      (List F → F) → List (Candle F) → PriceActionResult F → RangeRequest F → RangeContext F
  evaluate_range_entry sum candles pa r =
      if not (is_side r.direction) || ltb (length candles) (r.lookback + 1)
      then neutral_context r.confirmation_count
      else context_or_neutral (range_atr sum candles) candles pa r (last_at 1 candles)
