-- ===== src/Signals/Indicators.antt =====
-- live_trading/signals/gold_engine.py: the test of a candle, the ATR and the RSI. The fields of a
-- candle are the floats that `float` reads from them; `sum` is Python's, for floats.
use scalp_tn_aaa.Base.{
  ℕ, zero, ◌+◌, Bool, ◌&&◌, List, [], ◌∷◌, map, if◌then◌else◌, length, ltb, take, drop,
}
use scalp_tn_aaa.Float.{Float, nought, gt, ge, max, min}
use scalp_tn_aaa.Risk.Trailing.{true_ranges, smoothed, number_of}
use scalp_tn_aaa.Signals.Quality.{Ohlcv, candle_of}

module _ {F : Type 0} ⦃fl : Float F⦄ where
  -- `is_valid_ohlcv`
  unfoldable pub is_valid_ohlcv : Ohlcv F → Bool
  is_valid_ohlcv c =
      fl.is_finite c.open_price
      && fl.is_finite c.high
      && fl.is_finite c.low
      && fl.is_finite c.close
      && fl.is_finite c.volume
      && gt (min (min (min c.open_price c.high) c.low) c.close) nought
      && ge c.volume nought
      && ge c.high (max c.open_price c.close)
      && fl.le c.low (min c.open_price c.close)
      && ge c.high c.low

  abbrev pub atr_of : (List F → F) → ℕ → List F → F
  atr_of sum period [] = nought
  atr_of sum period (r ∷ rs) =
      let size = length (r ∷ rs) in
      if ltb size period
      then fl.div (sum (r ∷ rs)) (number_of size)
      else fl.round 4 (
          smoothed period zero (fl.div (sum (take period (r ∷ rs))) (number_of period))
            (drop period (r ∷ rs)))

  unfoldable pub calc_atr : (List F → F) → List (Ohlcv F) → ℕ → F
  calc_atr sum candles period = atr_of sum period (true_ranges (map candle_of candles))

  abbrev pub changes : List F → List F
  changes [] = []
  changes (a ∷ []) = []
  changes (a ∷ b ∷ cs) = fl.sub b a ∷ changes (b ∷ cs)

  abbrev pub wilder : (List F → F) → ℕ → List F → F
  wilder sum period xs =
      smoothed period zero (fl.div (sum (take period xs)) (number_of period)) (drop period xs)

  abbrev pub rsi_of : F → F → F
  rsi_of avg_gain avg_loss =
      if fl.le avg_loss nought && fl.le nought avg_loss
      then fl.lit 100 1
      else fl.round 2 (
          fl.sub (fl.lit 100 1)
            (fl.div (fl.lit 100 1) (fl.add (fl.lit 1 1) (fl.div avg_gain avg_loss))))

  unfoldable pub calc_rsi : (List F → F) → List F → ℕ → F
  calc_rsi sum closes period =
      if ltb (length closes) (period + 1)
      then fl.lit 50 1
      else rsi_of (wilder sum period (map (λ d. max d nought) (changes closes)))
          (wilder sum period (map (λ d. max (fl.neg d) nought) (changes closes)))
