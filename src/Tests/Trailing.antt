-- ===== src/Tests/Trailing.antt =====
-- The trailing stop of two gold positions.
use scalp_tn_aaa.Base.{ℕ, ◌*◌, ◌≡◌, refl, true, false, none, some, List, [], ◌∷◌, arith}
use scalp_tn_aaa.Base.Int.{ℤ, pos, ◌-ℤ◌, ◌+ℤ◌}
use scalp_tn_aaa.Base.Text.{codes, text_eq, upper}
use scalp_tn_aaa.Float.{max, min}
use scalp_tn_aaa.Float.Fixed.{
  fixed, fixed-IsOrdered, fixed-IsSigned, fixed-IsMonotone, fixed-IsRounded,
}
use scalp_tn_aaa.Risk.Trailing.{
  TrailConfig, Candle, is_buy, armed, atr, compute_adaptive_trail, trail_decision, choose_trail,
  normalized_risk, should_apply,
}
use scalp_tn_aaa.Risk.Trailing.Ticket.{
  Ticket, Tick, update_ticket, run_ticks, decision_at, move_stop,
}
use scalp_tn_aaa.Risk.Trailing.Ratchet.{NoWorse, stop_never_retreats}

abbrev usd : ℕ → ℤ
usd n = pos (n * 1_000_000_000)

-- Sums of the decimals.
abbrev sum : List ℤ → ℤ
sum [] = usd 0
sum (x ∷ xs) = x +ℤ sum xs

abbrev config : TrailConfig ℤ
config = record {
  atr_period = 14;
  chandelier_atr_multiplier = usd 2;
  min_step_price = pos 50_000_000;
}

-- Bought at 2000 with a stop at 1990.
abbrev long_ticket : Ticket ℤ
long_ticket = record {
  direction = codes "BUY";
  entry = usd 2000;
  initial_sl = some (usd 1990);
  risk_distance = none;
  highest_price_since_entry = none;
  lowest_price_since_entry = none;
  breakeven_armed = false;
  sl = usd 1990;
}

-- Sold at 2000, and no stop.
abbrev bare_short : Ticket ℤ
bare_short = record long_ticket {
  direction = codes "SELL";
  initial_sl = none;
  risk_distance = some (usd 5);
  sl = usd 0;
}

abbrev two_candles : List (Candle ℤ)
two_candles =
    record { high = usd 2003; low = usd 1999; close = usd 2002 }
    ∷ record { high = usd 2006; low = usd 2001; close = usd 2005 }
    ∷ []

abbrev quote_at : ℕ → Tick ℤ
quote_at n = record { bid = usd n; ask = usd n; candles = two_candles; accepted = true }

-- Below one unit of risk the stop stays, and with one it goes to the entry.
long_run :
    ((run_ticks sum config (quote_at 2009 ∷ []) long_ticket).breakeven_armed ≡ false)
    × ((run_ticks sum config (quote_at 2009 ∷ quote_at 2010 ∷ []) long_ticket).sl ≡ usd 2000)
    × ((run_ticks sum config (quote_at 2010 ∷ quote_at 2020 ∷ []) long_ticket).sl ≡ usd 2010)
unfolding run_ticks update_ticket decision_at move_stop compute_adaptive_trail trail_decision
    choose_trail armed normalized_risk atr should_apply text_eq upper ◌-ℤ◌ ◌+ℤ◌ max min
long_run = (refl, refl, refl)

stop_never_retreats_example :
    NoWorse
      (is_buy (upper long_ticket.direction))
      (usd 1990)
      (run_ticks sum config (quote_at 2010 ∷ quote_at 2004 ∷ []) long_ticket).sl
stop_never_retreats_example =
    stop_never_retreats fixed-IsOrdered fixed-IsSigned fixed-IsMonotone fixed-IsRounded config refl
      sum (quote_at 2010 ∷ quote_at 2004 ∷ []) long_ticket refl refl

bare_short-is_short : is_buy (upper bare_short.direction) ≡ false
unfolding text_eq upper
bare_short-is_short = refl

bare_short_candidate :
    (decision_at sum config (quote_at 1979) bare_short).candidate_sl ≡ some (usd 1989)
unfolding decision_at compute_adaptive_trail trail_decision choose_trail armed normalized_risk atr
    text_eq upper ◌-ℤ◌ ◌+ℤ◌ max min
bare_short_candidate = refl

bare_short_above :
    (c : ℤ)
    → (decision_at sum config (quote_at 1979) bare_short).candidate_sl ≡ some c
    → fixed.lt (usd 0) c ≡ true
bare_short_above c e = ground (arith, bare_short_candidate)
