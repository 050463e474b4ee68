-- ===== src/Signals/Trend.antt =====
-- live_trading/signals/trend_engine.py: the result of the Trend Engine and what it reads from the
-- candles; its judgement is in Trend/Judge.antt. `sum` is Python's, for floats.
pub mod Judge
pub mod Backed
use scalp_tn_aaa.Base.{
  ℕ, zero, suc, ◌+◌, ◌-◌, ◌*◌, Bool, true, false, not, ◌&&◌, ◌||◌, Option, none, some, List, [],
  ◌∷◌, ◌++◌, map, if◌then◌else◌, length, ltb, take, drop, last, last_at,
}
use scalp_tn_aaa.Float.{Float, nought, gt, ge, max, min}
use scalp_tn_aaa.Risk.Trailing.{true_ranges, smoothed, number_of}
use scalp_tn_aaa.Signals.Quality.{Ohlcv, candle_of, every, last_or}
use scalp_tn_aaa.Signals.H1.{calc_ema}
use scalp_tn_aaa.Signals.Regime.{
  Side, bullish, bearish, neutral_side, Strength, strong, moderate, weak, is_strong, Movement,
  moves, advance_all, first_sums,
}

pub data TrendState : Type 0 where
  trending pulling_back developing transition ranging : TrendState

pub record TrendResult (F : Type 0) : Type 0 where
  pub ema50 : F
  pub ema100 : F
  pub ema200 : F
  pub trend : Side
  pub strength : Strength
  pub ema20 : F
  pub adx : F
  pub slope50 : F
  pub slope100 : F
  pub rsi : F
  pub score : F
  pub quality : F
  pub state : TrendState
  pub pullback : Bool
  pub plus_di : F
  pub minus_di : F

-- The locals of `analyze_trend` that its judgement reads.
pub record Readings (F : Type 0) : Type 0 where
  pub price : F
  pub atr : F
  pub ema20 : F
  pub ema50 : F
  pub ema100 : F
  pub ema200 : F
  pub slope50 : F
  pub slope100 : F
  pub rsi : F
  pub adx : F
  pub plus_di : F
  pub minus_di : F

abbrev pub is_neutral : Side → Bool
is_neutral neutral_side = true
is_neutral _ = false

abbrev pub repeat : {A : Type 0} → ℕ → A → List A
repeat zero x = []
repeat (suc n) x = x ∷ repeat n x

module _ {F : Type 0} ⦃fl : Float F⦄ where
  abbrev pub ema_scan : F → F → List F → List F
  ema_scan k ema [] = []
  ema_scan k ema (p ∷ ps) =
      let next = fl.add (fl.mul p k) (fl.mul ema (fl.sub (fl.lit 1 1) k)) in
      next ∷ ema_scan k next ps

  unfoldable pub ema_series : (List F → F) → List F → ℕ → List F
  ema_series sum closes period =
      let seed = fl.div (sum (take period closes)) (number_of period) in
      if ltb (length closes) period
      then repeat (length closes) (last_or nought closes)
      else repeat period seed
        ++ ema_scan (fl.div (fl.lit 2 1) (number_of (period + 1))) seed (drop period closes)

  unfoldable pub signed_component : F → F → F → F
  signed_component value scale weight =
      if not (fl.is_finite value && fl.is_finite scale && fl.is_finite weight) || fl.le scale nought
      then nought
      else fl.mul (max (fl.neg (fl.lit 1 1)) (min (fl.lit 1 1) (fl.div value scale))) weight

  -- ADX, +DI and -DI.
  abbrev pub dmi_of : (List F → F) → ℕ → Movement F → F × F × F
  dmi_of sum period m = if ltb (length m.dx_arr) period then (fl.lit 20 1, nought, nought) else (
    fl.round 2 (fl.div (sum (last period m.dx_arr)) (number_of period)),
    fl.round 2 m.di_p,
    fl.round 2 m.di_m,
  )

  unfoldable pub calc_dmi : (List F → F) → List (Ohlcv F) → ℕ → F × F × F
  calc_dmi sum candles period =
      let vs = moves (map candle_of candles) in
      if ltb (length candles) (period * 2)
      then (fl.lit 20 1, nought, nought)
      else dmi_of sum period (advance_all period (first_sums sum period vs) (drop period vs))

  abbrev pub last_close : List (Ohlcv F) → F
  last_close candles = last_or nought (map (λ c. c.close) candles)

  unfoldable pub neutral_result : List (Ohlcv F) → TrendResult F
  neutral_result candles =
      let candidate = last_close candles in
      let close = if fl.is_finite candidate && gt candidate nought then candidate else nought in
      record {
        ema50 = close;
        ema100 = close;
        ema200 = close;
        trend = neutral_side;
        strength = weak;
        ema20 = close;
        adx = nought;
        slope50 = nought;
        slope100 = nought;
        rsi = fl.lit 50 1;
        score = nought;
        quality = nought;
        state = ranging;
        pullback = false;
        plus_di = nought;
        minus_di = nought;
      }
