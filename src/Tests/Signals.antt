-- ===== src/Tests/Signals.antt =====
-- A bullish setup, from the regime to the filter and the score.
use scalp_tn_aaa.Base.{
  ℕ, zero, suc, ◌+◌, ◌*◌, ◌≤◌, ◌<◌, ◌≡◌, ◌⊎◌, ◌↔◌, refl, true, false, not, ◌&&◌, some, List, [],
  ◌∷◌, ◌++◌, length, last_at, map, if◌then◌else◌,
}
use scalp_tn_aaa.Base.Int.{ℤ, pos, ◌+ℤ◌}
use scalp_tn_aaa.Base.Text.{codes, text_eq, upper}
use scalp_tn_aaa.Float.{max, min}
use scalp_tn_aaa.Float.Fixed.{fixed, fixed-IsOrdered, fixed-IsMonotone, fixed-IsSigned}
use scalp_tn_aaa.Entry.Policy.{
  Decision, PriceAction, permitted, unstructured_price_action, buy, sell, evaluate_confirmation,
  has_structural_confirmation,
}
use scalp_tn_aaa.Signals.Filter.{
  FilterInput, apply_entry_filter, authorize, select_independent_direction, vote, trend_vote,
}
use scalp_tn_aaa.Signals.Filter.Confirmed.{filter_then_policy}
use scalp_tn_aaa.Signals.Regime.{
  RegimeInput, bullish, bearish, strong, accumulating, strong_trend_bull, regime_key,
  detect_market_regime, evidence_of, regime_rules,
}
use scalp_tn_aaa.Signals.Regime.Sides.{SpeaksFor, IsStrongMove, is_strong_regime, one_sided_regime}
use scalp_tn_aaa.Signals.Quality.{
  Ohlcv, QualityConfig, hour_of, adx_or_calc, severe, late, apply_quality_filter,
}
use scalp_tn_aaa.Signals.Quality.Allowed.{apply_quality_filter_iff}
use scalp_tn_aaa.Signals.H1.{
  H1Candle, hour_us, last_time, validate_h1_candles, series_issues, spacing_issue, pair_issue,
  age_issue, alignment_issue, candles_issue,
}
use scalp_tn_aaa.Signals.H1.Spacing.{IsHourly, valid_series-IsHourly}
use scalp_tn_aaa.Signals.Mtf.{
  MtfBias, mtf_allows_trade, percent, combined_bias, mtf_allows_trade_iff,
}
use scalp_tn_aaa.Signals.Confidence.{ConfidenceInput, PaFlags, calc_confidence}
use scalp_tn_aaa.Signals.Confidence.Bounds.{IsScaled, calc_confidence-IsScaled}

abbrev usd : ℕ → ℤ
usd n = pos (n * 1_000_000_000)

abbrev total : List ℤ → ℤ
total [] = pos 0
total (x ∷ xs) = x +ℤ total xs

-- Price Action buys with a score of 0.40 while the trend is neutral.
abbrev alone : FilterInput ℤ
alone = record {
  smc_signal = codes "SELL";
  ema_trend = codes "NEUTRAL";
  pa_signal = codes "BUY";
  wyckoff_signal = codes "SELL";
  min_confirmations = pos 2;
  price_action_standalone = true;
  trend_score = some (usd 10);
  trend_standalone = true;
  trend_standalone_min_score = usd 55;
  pa_score = some (pos 400_000_000);
  pa_standalone_min_score = pos 160_000_000;
}

abbrev pa_min : ℤ
pa_min = pos 160_000_000

abbrev bullish_pa : PriceAction
bullish_pa = record {
  pa_signal = codes "BUY";
  valid_bull_breakout = true;
  bullish_inside_breakout = false;
  bullish_pullback = false;
  valid_bear_breakout = false;
  bearish_inside_breakout = false;
  bearish_pullback = false;
}

abbrev decided : Decision ℤ
decided = record {
  allowed = true;
  regime = codes "RANGE";
  direction = codes "BUY";
  trend = some (codes "NEUTRAL");
  entry_filter = some (record { trend = false; price_action = true });
  pa = some bullish_pa;
  adx = some (usd 18);
}

alone_result :
    let r = apply_entry_filter pa_min alone in
    (r.allowed ≡ true) × (r.trend ≡ false) × (r.price_action ≡ true)
unfolding apply_entry_filter authorize select_independent_direction vote trend_vote text_eq max min
alone_result = (refl, refl, refl)

alone_flags :
    let r = apply_entry_filter pa_min alone in
    decided.entry_filter ≡ some (record { trend = r.trend; price_action = r.price_action })
unfolding apply_entry_filter authorize select_independent_direction vote trend_vote text_eq max min
alone_flags = refl

filter_then_policy_example :
    let r = apply_entry_filter pa_min alone in
    evaluate_confirmation decided r.direction ≡ (
      if not r.trend && not (has_structural_confirmation (some bullish_pa) r.direction)
      then unstructured_price_action
      else permitted)
filter_then_policy_example =
    filter_then_policy pa_min alone decided bullish_pa alone_result.0 refl refl refl alone_flags

-- Too few candles for an ADX: Wyckoff decides.
abbrev few : RegimeInput ℤ
few = record {
  candles = record { high = usd 2; low = usd 1; close = usd 2 } ∷ [];
  trend = bullish;
  strength = strong;
  phase = accumulating;
  use_atr_high_vol = true;
}

one_sided_regime_example :
    let r = detect_market_regime total (usd 40) (usd 40) few in
    ((r.rules.allow_short ≡ true) ⊎ SpeaksFor bullish (evidence_of total few))
    × ((r.rules.allow_long ≡ true) ⊎ SpeaksFor bearish (evidence_of total few))
    × ((is_strong_regime r.regime ≡ false) ⊎ IsStrongMove (evidence_of total few))
one_sided_regime_example = one_sided_regime total (usd 40) (usd 40) few

abbrev in_regime : Decision ℤ
in_regime = record decided {
  regime = regime_key (detect_market_regime total (usd 40) (usd 40) few).regime;
}

abbrev falling : MtfBias ℤ
falling = combined_bias bearish strong (usd 70)

mtf_allows_trade_iff_example : (mtf_allows_trade (some falling) (codes "buy") (usd 55) ≡ false) ↔ (
    (b : MtfBias ℤ) × (some falling ≡ some b)
    × (((upper (codes "buy") ≡ buy) × (b.trend ≡ bearish))
        ⊎ ((upper (codes "buy") ≡ sell) × (b.trend ≡ bullish)))
    × (fixed.le (percent (usd 55)) (fixed.round 1 (percent (fixed.abs b.trend_score))) ≡ true))
mtf_allows_trade_iff_example = mtf_allows_trade_iff (some falling) (codes "buy") (usd 55)

abbrev engulfing : PaFlags
engulfing = record {
  engulf = true;
  pin_bar = false;
  strong = false;
  inside_breakout = false;
  valid_breakout = true;
  pullback = false;
  near_zone = true;
  near_level = false;
  fake_breakout = false;
}

abbrev scored : ConfidenceInput ℤ
scored = record {
  wyckoff = record {
    spring = true;
    upthrust = false;
    volume_confirmed = true;
    wyckoff_signal = codes "BUY";
    wyckoff_score = usd 1;
  };
  pa = record {
    bull = engulfing;
    bear = engulfing;
    pa_signal = codes "BUY";
    pa_score = pos 400_000_000;
  };
  trend = bullish;
  strength = strong;
  regime = record {
    regime = strong_trend_bull;
    rules = regime_rules (usd 40) (usd 40) strong_trend_bull;
    atr = usd 4;
    atr_mean = usd 4;
    atr_ratio = usd 1;
    adx = usd 32;
  };
  session = codes "PRIME";
  candidate = codes "BUY";
  divergence_signal = bearish;
  price_action_standalone = true;
  candles = [];
}

calc_confidence-IsScaled_example : IsScaled (calc_confidence (usd 35) scored)
calc_confidence-IsScaled_example =
    calc_confidence-IsScaled fixed-IsOrdered fixed-IsMonotone fixed-IsSigned (usd 35) scored

abbrev bar : ℕ → Ohlcv ℤ
bar k = record {
  hour = some 9;
  open_price = usd (100 + k);
  high = usd (103 + k);
  low = usd (99 + k);
  close = usd (102 + k);
  volume = usd 50;
}

-- `n` candles of a slow rise.
abbrev rise : ℕ → List (Ohlcv ℤ)
rise zero = []
rise (suc n) = rise n ++ (bar n ∷ [])

abbrev quality : QualityConfig ℤ
quality = record { quality_adx_min = usd 12; conf_hard_min = usd 35 }

apply_quality_filter_iff_example :
    ((apply_quality_filter total quality (rise 30) (usd 60) (some (usd 25))).allowed ≡ true) ↔ (
      (30 ≤ length (rise 30))
      × ((h : ℕ) × (hour_of (last_at 1 (rise 30)) ≡ some h) × (h < 24))
      × (severe total (rise 30) (adx_or_calc total (rise 30) (some (usd 25))) ≡ false)
      × (late total (rise 30) ≡ false)
      × (fixed.lt (adx_or_calc total (rise 30) (some (usd 25))) quality.quality_adx_min ≡ false)
      × (fixed.lt (usd 60) quality.conf_hard_min ≡ false))
apply_quality_filter_iff_example =
    apply_quality_filter_iff total quality (rise 30) (usd 60) (some (usd 25))

abbrev h1_bar : ℕ → H1Candle ℤ
h1_bar hours = record {
  time = some (hours * hour_us);
  open_price = usd 100;
  high = usd 103;
  low = usd 99;
  close = usd 102;
  volume = usd 50;
}

-- Three candles with a weekend between them.
abbrev h1_bars : List (H1Candle ℤ)
h1_bars = h1_bar 1_000_000 ∷ h1_bar 1_000_001 ∷ h1_bar 1_000_051 ∷ []

abbrev h1_now : ℕ
h1_now = 1_000_052 * hour_us

h1_bars_valid : (validate_h1_candles total 3 h1_now h1_bars).valid ≡ true
unfolding validate_h1_candles series_issues spacing_issue pair_issue age_issue alignment_issue
    candles_issue min max
h1_bars_valid = refl

valid_series-IsHourly_example :
    (3 ≤ length h1_bars)
    × ((ts : List ℕ) × (map (λ c. c.time) h1_bars ≡ map some ts)
        × IsHourly ts
        × ((t : ℕ) → last_time ts ≡ some t → t + hour_us ≤ h1_now + 2_000_000))
valid_series-IsHourly_example = valid_series-IsHourly total 3 h1_now h1_bars h1_bars_valid
