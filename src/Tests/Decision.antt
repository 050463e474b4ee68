-- ===== src/Tests/Decision.antt =====
-- A rising market and a flat one, through the decision engine.
use scalp_tn_aaa.Base.{
  ℕ, zero, suc, ◌+◌, ◌*◌, ◌%◌, ◌≡◌, ◌↔◌, refl, true, false, Option, some, none, is_some, List, [],
  ◌∷◌, ◌++◌, if◌then◌else◌, ◌==◌,
}
use scalp_tn_aaa.Base.Int.{ℤ, pos, ◌+ℤ◌}
use scalp_tn_aaa.Base.Text.{codes}
use scalp_tn_aaa.Float.Fixed.{fixed}
use scalp_tn_aaa.Signals.Regime.{bullish, neutral_side, strong, accumulating, neutral_phase}
use scalp_tn_aaa.Signals.Confidence.{PaFlags}
use scalp_tn_aaa.Signals.Quality.{Ohlcv}
use scalp_tn_aaa.Signals.Decision.{DecisionResult, is_range, Engines, Settings, Request}
use scalp_tn_aaa.Signals.Decision.Run.{run_decision_engine, undirected}
use scalp_tn_aaa.Signals.Decision.Authorised.{IsAuthorised, allowed_decision-IsAuthorised}
use scalp_tn_aaa.Signals.Decision.Reasons.{allowed_iff_unopposed}
use scalp_tn_aaa.Risk.Capital.{map_some}
use scalp_tn_aaa.Signals.Decision.Silent.{unmarked, with_smc, smc_is_diagnostic}
use scalp_tn_aaa.Signals.Decision.Run
use scalp_tn_aaa.Signals.Decision
use scalp_tn_aaa.Signals.Regime
use scalp_tn_aaa.Signals.Confidence
use scalp_tn_aaa.Signals.Quality
use scalp_tn_aaa.Signals.Range
use scalp_tn_aaa.Signals.Filter
use scalp_tn_aaa.Signals.Mtf
use scalp_tn_aaa.Entry.Policy
use scalp_tn_aaa.Risk.Capital
use scalp_tn_aaa.Base.Text
use scalp_tn_aaa.Base.Int
use scalp_tn_aaa.Float

abbrev usd : ℕ → ℤ
usd n = pos (n * 1_000_000_000)

abbrev total : List ℤ → ℤ
total [] = pos 0
total (x ∷ xs) = x +ℤ total xs

abbrev rising_bar : ℕ → Ohlcv ℤ
rising_bar k = record {
  hour = some 9;
  open_price = usd (1000 + k + k % 2);
  high = usd (1004 + k);
  low = usd (999 + k);
  close = usd (1003 + k);
  volume = usd 50;
}

-- Sideways, with a closed breakout at the end.
abbrev flat_bar : ℕ → Ohlcv ℤ
flat_bar k = record {
  hour = some 9;
  open_price = usd (1001 + k % 2);
  high = usd (if k == 30 then 1007 else 1004 + k % 2);
  low = usd (999 + k % 2);
  close = usd (if k == 30 then 1006 else 1003 + k % 3);
  volume = usd 50;
}

abbrev candles : (ℕ → Ohlcv ℤ) → ℕ → List (Ohlcv ℤ)
candles bar zero = []
candles bar (suc n) = candles bar n ++ (bar n ∷ [])

abbrev flags : PaFlags
flags = record {
  engulf = true;
  pin_bar = false;
  strong = true;
  inside_breakout = false;
  valid_breakout = true;
  pullback = false;
  near_zone = true;
  near_level = false;
  fake_breakout = false;
}

abbrev quiet : PaFlags
quiet = record {
  engulf = false;
  pin_bar = false;
  strong = false;
  inside_breakout = false;
  valid_breakout = false;
  pullback = false;
  near_zone = false;
  near_level = false;
  fake_breakout = false;
}

abbrev engines : Engines ℤ
engines = record {
  trend = bullish;
  strength = strong;
  trend_score = usd 80;
  pa = record { bull = flags; bear = quiet; pa_signal = codes "BUY"; pa_score = pos 800_000_000 };
  breakout_overextended = false;
  wyckoff = record {
    spring = true;
    upthrust = false;
    volume_confirmed = true;
    wyckoff_signal = codes "BUY";
    wyckoff_score = usd 1;
  };
  phase = neutral_phase;
  divergence_signal = bullish;
  smc_fake = λ _. true;
}

abbrev settings : Settings ℤ
settings = record {
  conf_hard_min = usd 35;
  quality_adx_min = usd 1;
  pa_standalone_min_score = pos 160_000_000;
  trend_standalone = true;
  trend_standalone_min_score = usd 55;
  sl_min_atr_multiplier = usd 1;
  sl_structure_buffer_atr = pos 200_000_000;
  normal_confidence = usd 40;
  ranging_confidence = usd 40;
}

abbrev request : Request ℤ
request = record {
  account_balance = usd 100_000;
  risk_percent = usd 1;
  min_confirmations = pos 2;
  use_atr_high_vol = false;
  range_trading_enabled = true;
  range_min_confirmations = pos 1;
  range_min_rr = pos 1_500_000_000;
  range_edge_atr_distance = pos 250_000_000;
  range_risk_percent = none;
  range_entry_filters_enabled = true;
  range_require_edge_position = false;
  timeframe = codes "5m";
  price_action_standalone = true;
  pa_standalone_min_score = pos 160_000_000;
  trend_standalone = true;
  trend_standalone_min_score = usd 55;
  range_weak_min_confirmations = pos 1;
  sl_atr = none;
  sl_atr_multiplier = usd 2;
  low_volatility_sl_atr_add = pos 500_000_000;
  symbol = codes "XAUUSD";
}

abbrev rise : List (Ohlcv ℤ)
rise = candles rising_bar 31

abbrev sideways : List (Ohlcv ℤ)
sideways = candles flat_bar 31

abbrev decide_on : List (Ohlcv ℤ) → Option (DecisionResult ℤ)
decide_on cs = run_decision_engine total settings engines request cs

-- The result of a run that raises nothing.
abbrev value_of : {A : Type 0} → A → Option A → A
value_of a none = a
value_of a (some x) = x

value_of-some : {A : Type 0} (a : A) (o : Option A) → is_some o ≡ true → o ≡ some (value_of a o)
value_of-some a none h = absurd (cc)
value_of-some a (some x) h = refl

abbrev decided : List (Ohlcv ℤ) → DecisionResult ℤ
decided cs = value_of (undirected total settings engines request cs) (decide_on cs)

both_allowed :
    ((is_some (decide_on rise) ≡ true) × ((decided rise).allowed ≡ true))
    × ((is_some (decide_on sideways) ≡ true)
        × ((decided sideways).allowed ≡ true)
        × (is_range (decided sideways).regime ≡ true))
unfolding run_decision_engine Text.text_eq Run.candidate_direction
    Filter.select_independent_direction Filter.vote Mtf.side_text Run.result_of Run.decide_entry
    Decision.vote_block Run.setup_of Regime.detect_market_regime Regime.classify Regime.evidence_of
    Regime.calc_atr_values ◌+ℤ◌ Float.max Int.◌-ℤ◌ Regime.calc_adx_details Text.is_space Text.lower
    Text.lower_code Text.strip Text.strip_left Text.upper Text.upper_code
    Policy.evaluate_active_entry Policy.evaluate_confirmation Policy.has_structural_confirmation
    Policy.pa_standalone_confirmed Policy.trend_direction Float.min Capital.calc_lot_size
    Capital.calc_smart_stop Capital.calc_trade_parameters Capital.clamp Capital.levels
    Capital.max_mult Capital.min_mult Capital.safe_atr Capital.structural_plan
    Confidence.calc_confidence Confidence.calc_liquidity_score Confidence.calc_pa_score
    Confidence.calc_volatility_score Confidence.calc_wyckoff_score Confidence.cap
    Confidence.pa_component Confidence.raw_total Run.apply_policy Run.policy_decision Run.price
    Run.range_stage Run.score Run.trade_of Decision.effective_min_confirmations
    Decision.entry_breakout_block_reason Decision.entry_location_block_reason Decision.floor_of
    Decision.protective_sl_atr_multiplier Decision.range_trend_breakout_block_reason
    Decision.side_block Filter.apply_entry_filter Filter.authorize Filter.trend_vote
    Quality.adx_or_calc Quality.apply_quality_filter Quality.get_session_quality Quality.judge
    Quality.late Quality.session_of_hour Quality.severe Quality.weak_volume Range.context_at
    Range.evaluate_range_entry Range.latest_sweep Range.range_atr Range.range_reason
    Range.reversal_of Regime.detect_pullback Regime.regime_key Regime.regime_rules
both_allowed = ((refl, refl), (refl, refl, refl))

rise_eq : decide_on rise ≡ some (decided rise)
rise_eq = value_of-some _ (decide_on rise) both_allowed.0.0

allowed_decision-IsAuthorised_example :
    IsAuthorised total settings engines request rise (decided rise)
allowed_decision-IsAuthorised_example =
    allowed_decision-IsAuthorised total settings engines request rise rise_eq both_allowed.0.1

allowed_iff_unopposed_example :
    ((decided rise).allowed ≡ true) ↔ ((decided rise).blocked_reasons ≡ [])
allowed_iff_unopposed_example = allowed_iff_unopposed total settings engines request rise rise_eq

smc_is_diagnostic_example :
    map_some unmarked
      (run_decision_engine total settings (with_smc engines (λ _. false)) request rise)
    ≡ map_some unmarked (decide_on rise)
smc_is_diagnostic_example = smc_is_diagnostic total settings engines (λ _. false) request rise
