-- ===== src/Signals/Trend/Judge.antt =====
-- live_trading/signals/trend_engine.py: `analyze_trend`.
use scalp_tn_aaa.Base.{
  ℕ, Bool, false, not, ◌&&◌, ◌||◌, Option, none, some, List, map, if◌then◌else◌, length, ltb,
  last_at,
}
use scalp_tn_aaa.Float.{Float, nought, gt, ge, max, min}
use scalp_tn_aaa.Signals.Quality.{Ohlcv, every, last_or}
use scalp_tn_aaa.Signals.H1.{calc_ema}
use scalp_tn_aaa.Signals.Regime.{
  Side, bullish, bearish, neutral_side, Strength, strong, moderate, weak, is_strong,
}
use scalp_tn_aaa.Signals.Trend.{
  TrendState, trending, pulling_back, developing, transition, ranging, TrendResult, Readings,
  is_neutral, neutral_result, signed_component, ema_series, calc_dmi,
}
use scalp_tn_aaa.Signals.Indicators.{is_valid_ohlcv, calc_atr, calc_rsi}

module _ {F : Type 0} ⦃fl : Float F⦄ where
  abbrev pub value_or_nought : Option F → F
  value_or_nought none = nought
  value_or_nought (some x) = x

  -- The score from -100 to 100.
  unfoldable pub trend_score : Readings F → F
  trend_score r =
      let total =
        fl.add
          (fl.add
            (fl.add
              (fl.add
                (fl.add
                  (fl.add
                    (signed_component (fl.sub r.price r.ema50) (fl.mul r.atr (fl.lit 125 100))
                      (fl.lit 15 1))
                    (signed_component (fl.sub r.ema20 r.ema50) (fl.mul r.atr (fl.lit 1 1))
                      (fl.lit 10 1)))
                  (signed_component (fl.sub r.ema50 r.ema100) (fl.mul r.atr (fl.lit 15 10))
                    (fl.lit 25 1)))
                (signed_component (fl.sub r.ema100 r.ema200) (fl.mul r.atr (fl.lit 2 1))
                  (fl.lit 20 1)))
              (signed_component r.slope50 (fl.lit 75 100) (fl.lit 15 1)))
            (signed_component r.slope100 (fl.lit 5 10) (fl.lit 10 1)))
          (signed_component (fl.sub r.rsi (fl.lit 50 1)) (fl.lit 20 1) (fl.lit 5 1)) in
      fl.round 1 (max (fl.neg (fl.lit 100 1)) (min (fl.lit 100 1) total))

  unfoldable pub quality_of : F → F → F
  quality_of score adx = fl.round 1 (
      min (fl.lit 100 1) (
        fl.add (fl.mul (fl.abs score) (fl.lit 8 10))
          (fl.mul (max nought (fl.sub adx (fl.lit 15 1))) (fl.lit 15 10))))

  unfoldable pub bullish_structure : Readings F → Bool
  bullish_structure r = gt r.ema50 r.ema100 && gt r.ema100 r.ema200

  unfoldable pub bearish_structure : Readings F → Bool
  bearish_structure r = fl.lt r.ema50 r.ema100 && fl.lt r.ema100 r.ema200

  unfoldable pub bullish_core : Readings F → Bool
  bullish_core r = gt r.price r.ema50 && bullish_structure r

  unfoldable pub bearish_core : Readings F → Bool
  bearish_core r = fl.lt r.price r.ema50 && bearish_structure r

  unfoldable pub bullish_pullback : Readings F → F → Bool
  bullish_pullback r score =
      bullish_structure r
      && gt r.slope50 nought
      && gt r.slope100 nought
      && ge r.price (fl.sub r.ema100 (fl.mul (fl.lit 125 100) r.atr))
      && fl.le r.price (fl.add r.ema50 (fl.mul (fl.lit 75 100) r.atr))
      && ge score (fl.lit 8 1)
      && gt r.plus_di r.minus_di

  unfoldable pub bearish_pullback : Readings F → F → Bool
  bearish_pullback r score =
      bearish_structure r
      && fl.lt r.slope50 nought
      && fl.lt r.slope100 nought
      && fl.le r.price (fl.add r.ema100 (fl.mul (fl.lit 125 100) r.atr))
      && ge r.price (fl.sub r.ema50 (fl.mul (fl.lit 75 100) r.atr))
      && fl.le score (fl.neg (fl.lit 8 1))
      && gt r.minus_di r.plus_di

  -- The trend, and whether it is in a pullback.
  unfoldable pub trend_of : Readings F → F → Side × Bool
  trend_of r score =
      if bullish_core r && ge score (fl.lit 25 1) || bullish_pullback r score
      then (bullish, not (bullish_core r))
      else if bearish_core r && fl.le score (fl.neg (fl.lit 25 1)) || bearish_pullback r score
      then (bearish, not (bearish_core r))
      else (neutral_side, false)

  unfoldable pub strength_of : Side → F → F → Strength
  strength_of trend direction_score adx =
      if not (is_neutral trend) && ge direction_score (fl.lit 55 1) && ge adx (fl.lit 25 1)
      then strong
      else if not (is_neutral trend) && ge direction_score (fl.lit 30 1) && ge adx (fl.lit 18 1)
      then moderate
      else weak

  unfoldable pub state_of : Side → Bool → Strength → F → TrendState
  state_of trend is_pullback strength score =
      if not (is_neutral trend)
      then if is_pullback then pulling_back else if is_strong strength then trending else developing
      else if ge (fl.abs score) (fl.lit 20 1)
      then transition
      else ranging

  unfoldable pub judge_trend : Readings F → TrendResult F
  judge_trend r =
      let score = trend_score r in
      let (trend, is_pullback) = trend_of r score in
      let strength = strength_of trend (fl.abs score) r.adx in
      record {
        ema50 = r.ema50;
        ema100 = r.ema100;
        ema200 = r.ema200;
        trend = trend;
        strength = strength;
        ema20 = r.ema20;
        adx = r.adx;
        slope50 = fl.round 3 r.slope50;
        slope100 = fl.round 3 r.slope100;
        rsi = r.rsi;
        score = score;
        quality = quality_of score r.adx;
        state = state_of trend is_pullback strength score;
        pullback = is_pullback;
        plus_di = r.plus_di;
        minus_di = r.minus_di;
      }

  -- `series[-n]`; the series of 210 candles have more than eleven values.
  abbrev pub from_end : ℕ → List F → F
  from_end n xs = value_or_nought (last_at n xs)

  abbrev pub slope : List F → F → F
  slope series atr = fl.div (fl.sub (from_end 1 series) (from_end 11 series)) atr

  unfoldable pub readings_of : (List F → F) → List (Ohlcv F) → Readings F
  readings_of sum candles =
      let closes = map (λ c. c.close) candles in
      let atr = max (calc_atr sum candles 14) (fl.lit 1 1_000_000) in
      let (adx, plus_di, minus_di) = calc_dmi sum candles 14 in
      record {
        price = last_or nought closes;
        atr = atr;
        ema20 = calc_ema sum closes 20;
        ema50 = calc_ema sum closes 50;
        ema100 = calc_ema sum closes 100;
        ema200 = calc_ema sum closes 200;
        slope50 = slope (ema_series sum closes 50) atr;
        slope100 = slope (ema_series sum closes 100) atr;
        rsi = calc_rsi sum closes 14;
        adx = adx;
        plus_di = plus_di;
        minus_di = minus_di;
      }

  unfoldable pub analyze_trend : (List F → F) → List (Ohlcv F) → TrendResult F
  analyze_trend sum candles =
      if ltb (length candles) 210 || not (every is_valid_ohlcv candles)
      then neutral_result candles
      else judge_trend (readings_of sum candles)
