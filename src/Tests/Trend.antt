-- ===== src/Tests/Trend.antt =====
-- A steady rise of 210 candles, through the Trend Engine.
use scalp_tn_aaa.Base.{ℕ, zero, suc, ◌+◌, ◌≡◌, refl, some, List, [], ◌∷◌}
use scalp_tn_aaa.Base.Int.{ℤ, pos, ◌+ℤ◌, ◌-ℤ◌}
use scalp_tn_aaa.Float.{max, min}
use scalp_tn_aaa.Float.Fixed.{fixed, fixed-IsOrdered, fixed-IsSigned, fixed-IsMonotone}
use scalp_tn_aaa.Signals.Quality.{Ohlcv}
use scalp_tn_aaa.Signals.Regime.{bullish}
use scalp_tn_aaa.Signals.Trend.{last_close, signed_component, calc_dmi, ema_series}
use scalp_tn_aaa.Signals.Trend.Judge.{
  analyze_trend, readings_of, judge_trend, trend_of, bullish_core, bullish_pullback,
  bullish_structure, trend_score,
}
use scalp_tn_aaa.Signals.Indicators.{is_valid_ohlcv, calc_atr, calc_rsi}
use scalp_tn_aaa.Signals.Trend.Backed.{IsBullish, IsBacked, analyze_trend-IsBacked}

abbrev usd : ℕ → ℤ
usd n = fixed.lit n 1

abbrev total : List ℤ → ℤ
total [] = pos 0
total (x ∷ xs) = x +ℤ total xs

abbrev bar : ℕ → Ohlcv ℤ
bar k = record {
  hour = some 9;
  open_price = usd (1000 + k);
  high = usd (1004 + k);
  low = usd (999 + k);
  close = usd (1003 + k);
  volume = usd 50;
}

abbrev bars : ℕ → ℕ → List (Ohlcv ℤ)
bars k zero = []
bars k (suc n) = bar k ∷ bars (k + 1) n

rise_is_bullish : (analyze_trend total (bars 0 210)).trend ≡ bullish
unfolding analyze_trend is_valid_ohlcv readings_of judge_trend trend_of bullish_core
    bullish_pullback bullish_structure trend_score signed_component calc_atr calc_rsi calc_dmi
    ema_series max min ◌+ℤ◌ ◌-ℤ◌
rise_is_bullish = refl

analyze_trend-IsBacked_example :
    IsBullish (last_close (bars 0 210)) (analyze_trend total (bars 0 210))
unfolding IsBacked
analyze_trend-IsBacked_example =
    (analyze_trend-IsBacked fixed-IsOrdered fixed-IsSigned fixed-IsMonotone total (bars 0 210)).0
      rise_is_bullish
