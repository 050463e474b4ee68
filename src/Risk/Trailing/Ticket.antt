-- ===== src/Risk/Trailing/Ticket.antt =====
-- `update_ticket` of live_trading/trading/live_loop.py: the baseline of one position with its live
-- stop, at one quote; `modify_position` of live_trading/mt5/executor.py sends the stop. The status
-- for the panel and the logs are left out.
use scalp_tn_aaa.Base.{Bool, true, false, ◌&&◌, Option, none, some, List, [], ◌∷◌, if◌then◌else◌}
use scalp_tn_aaa.Base.Text.{Text, upper}
use scalp_tn_aaa.Float.{Float, nought, max, min}
use scalp_tn_aaa.Risk.Trailing.{
  TrailConfig, Candle, Stage, breakeven, TrailInput, TrailDecision, is_buy, compute_adaptive_trail,
  should_apply,
}

pub record Ticket (F : Type 0) : Type 0 where
  pub direction : Text
  pub entry : F
  pub initial_sl : Option F
  pub risk_distance : Option F
  pub highest_price_since_entry : Option F
  pub lowest_price_since_entry : Option F
  pub breakeven_armed : Bool
  pub sl : F

-- A quote with the closed candles; `accepted` is the broker's answer to a modification.
pub record Tick (F : Type 0) : Type 0 where
  pub bid : F
  pub ask : F
  pub candles : List (Candle F)
  pub accepted : Bool

abbrev pub is_breakeven : Stage → Bool
is_breakeven breakeven = true
is_breakeven _ = false

module _ {F : Type 0} ⦃fl : Float F⦄ where
  abbrev pub or_entry : Option F → F → F
  or_entry none entry = entry
  or_entry (some x) entry = x

  abbrev pub price_of : Tick F → Ticket F → F
  price_of tick t = if is_buy (upper t.direction) then tick.bid else tick.ask

  -- The extreme on the favourable side takes the quote in; the other one is left.
  abbrev pub observe : F → Ticket F → Ticket F
  observe price t =
      if is_buy (upper t.direction)
      then record t {
        highest_price_since_entry =
            some (max (max (or_entry t.highest_price_since_entry t.entry) t.entry) price);
      }
      else record t {
        lowest_price_since_entry =
            some (min (min (or_entry t.lowest_price_since_entry t.entry) t.entry) price);
      }

  abbrev pub input_of : F → Ticket F → TrailInput F
  input_of price t = record {
    direction = upper t.direction;
    current_price = price;
    entry_price = some t.entry;
    initial_sl = t.initial_sl;
    risk_distance = t.risk_distance;
    current_sl = some t.sl;
    highest_price_since_entry = t.highest_price_since_entry;
    lowest_price_since_entry = t.lowest_price_since_entry;
    breakeven_armed = t.breakeven_armed;
  }

  unfoldable pub decision_at : (List F → F) → TrailConfig F → Tick F → Ticket F → TrailDecision F
  decision_at sum cfg tick t =
      let price = price_of tick t in
      compute_adaptive_trail sum cfg tick.candles (input_of price (observe price t))

  abbrev pub apply_step : TrailConfig F → Stage → F
  apply_step cfg stage = if is_breakeven stage then nought else cfg.min_step_price

  -- The stop in the request of `modify_position`.
  abbrev pub sent_stop : F → F
  sent_stop sl = fl.round 2 sl

  abbrev pub new_stop : Option F → F → F
  new_stop none sl = sl
  new_stop (some candidate) sl = sent_stop candidate

  -- The live stop, after a modification that the broker accepted.
  unfoldable pub move_stop : TrailConfig F → Bool → Text → TrailDecision F → F → F
  move_stop cfg accepted direction decision sl =
      if should_apply direction sl decision.candidate_sl (apply_step cfg decision.stage) && accepted
      then new_stop decision.candidate_sl sl
      else sl

  unfoldable pub update_ticket : (List F → F) → TrailConfig F → Tick F → Ticket F → Ticket F
  update_ticket sum cfg tick t =
      let decision = decision_at sum cfg tick t in
      record t {
        highest_price_since_entry = decision.highest_price_since_entry;
        lowest_price_since_entry = decision.lowest_price_since_entry;
        breakeven_armed = decision.breakeven_armed;
        sl = move_stop cfg tick.accepted (upper t.direction) decision t.sl;
      }

  -- The quotes of a position, one after another.
  unfoldable pub run_ticks : (List F → F) → TrailConfig F → List (Tick F) → Ticket F → Ticket F
  run_ticks sum cfg [] t = t
  run_ticks sum cfg (tick ∷ ticks) t = run_ticks sum cfg ticks (update_ticket sum cfg tick t)
