-- ===== src/Signals/Trend/Backed.antt =====
-- live_trading/signals/trend_engine.py: what stands behind a trend.
use scalp_tn_aaa.Base.{
  refl, ◌≡◌, ◌≢◌, Bool, true, false, not, ◌||◌, List, arith, if◌then◌else◌, ltb, length,
}
use scalp_tn_aaa.Float.{Float, ◌≼◌, IsOrdered, IsSigned, IsMonotone}
use scalp_tn_aaa.Signals.Quality.{Ohlcv, every}
use scalp_tn_aaa.Signals.Regime.{bullish, bearish, neutral_side, strong, weak}
use scalp_tn_aaa.Signals.Trend.{
  trending, pulling_back, developing, TrendResult, Readings, last_close, neutral_result,
}
use scalp_tn_aaa.Signals.Trend.Judge.{
  trend_score, bullish_structure, bearish_structure, bullish_core, bearish_core, bullish_pullback,
  bearish_pullback, trend_of, strength_of, state_of, judge_trend, readings_of, analyze_trend,
}
use scalp_tn_aaa.Signals.Indicators.{is_valid_ohlcv}

module _ {F : Type 0} ⦃fl : Float F⦄ where
  -- Behind a bullish trend: the EMAs are stacked, the score is 8 at least, and either the price is over
  -- the EMA50, or it has pulled back and +DI is over -DI.
  unfoldable pub IsBullish : F → TrendResult F → Type 0
  IsBullish price r =
      (fl.lt r.ema100 r.ema50 ≡ true)
      × (fl.lt r.ema200 r.ema100 ≡ true)
      × (fl.lit 8 1 ≼ r.score)
      × (r.pullback ≡ false → fl.lt r.ema50 price ≡ true)
      × (r.pullback ≡ true → fl.lt r.minus_di r.plus_di ≡ true)

  unfoldable pub IsBearish : F → TrendResult F → Type 0
  IsBearish price r =
      (fl.lt r.ema50 r.ema100 ≡ true)
      × (fl.lt r.ema100 r.ema200 ≡ true)
      × (r.score ≼ fl.neg (fl.lit 8 1))
      × (r.pullback ≡ false → fl.lt price r.ema50 ≡ true)
      × (r.pullback ≡ true → fl.lt r.plus_di r.minus_di ≡ true)

  -- What the other fields say of no trend.
  unfoldable pub IsIdle : TrendResult F → Type 0
  IsIdle r =
      (r.strength ≡ weak)
      × (r.pullback ≡ false)
      × (r.state ≢ trending)
      × (r.state ≢ pulling_back)
      × (r.state ≢ developing)

  unfoldable pub IsBacked : F → TrendResult F → Type 0
  IsBacked price r =
      (r.trend ≡ bullish → IsBullish price r)
      × (r.trend ≡ bearish → IsBearish price r)
      × (r.trend ≡ neutral_side → IsIdle r)
      × (r.state ≡ trending → (r.strength ≡ strong) × (r.pullback ≡ false))

module _ {F : Type 0} ⦃fl : Float F⦄ (laws : IsOrdered F) (signed : IsSigned F)
    (mono : IsMonotone F) where
  judge_trend-IsBullish :
      (r : Readings F) → (judge_trend r).trend ≡ bullish → IsBullish r.price (judge_trend r)
  unfolding judge_trend trend_of bullish_core bullish_pullback bullish_structure IsBullish
  judge_trend-IsBullish r h =
      let le = signed.lit_mono 8 25 1 (omega arith) in
      let far = laws.le_trans (fl.lit 8 1) (fl.lit 25 1) (trend_score r) le in
      (ground arith, ground arith, ground (arith, far), (λ e. ground arith), (λ e. ground arith))

  judge_trend-IsBearish :
      (r : Readings F) → (judge_trend r).trend ≡ bearish → IsBearish r.price (judge_trend r)
  unfolding judge_trend trend_of bearish_core bearish_pullback bearish_structure IsBearish
  judge_trend-IsBearish r h =
      let le = mono.neg_anti (fl.lit 8 1) (fl.lit 25 1) (signed.lit_mono 8 25 1 (omega arith)) in
      let far : trend_score r ≼ fl.neg (fl.lit 25 1) → trend_score r ≼ fl.neg (fl.lit 8 1) =
        λ x. laws.le_trans (trend_score r) (fl.neg (fl.lit 25 1)) (fl.neg (fl.lit 8 1)) x le in
      (ground arith, ground arith, ground (arith, far), (λ e. ground arith), (λ e. ground arith))

  judge_trend-IsIdle :
      (r : Readings F) → (judge_trend r).trend ≡ neutral_side → IsIdle (judge_trend r)
  unfolding judge_trend trend_of strength_of state_of IsIdle
  judge_trend-IsIdle r h =
      (ground arith, ground arith, (λ e. ground arith), (λ e. ground arith), (λ e. ground arith))

  judge_trend-trending :
      (r : Readings F)
      → (judge_trend r).state ≡ trending
      → ((judge_trend r).strength ≡ strong) × ((judge_trend r).pullback ≡ false)
  unfolding judge_trend state_of
  judge_trend-trending r h = (ground arith, ground arith)

  neutral_result-IsBacked :
      (price : F) (candles : List (Ohlcv F)) → IsBacked price (neutral_result candles)
  unfolding neutral_result IsBacked IsIdle
  neutral_result-IsBacked price candles = (
    (λ h. absurd (ground arith)),
    (λ h. absurd (ground arith)),
    (λ h. (refl, refl, (λ e. ground arith), (λ e. ground arith), (λ e. ground arith))),
    (λ h. absurd (ground arith)),
  )

  judge_trend-IsBacked : (r : Readings F) → IsBacked r.price (judge_trend r)
  unfolding IsBacked
  judge_trend-IsBacked r = (
    judge_trend-IsBullish r,
    judge_trend-IsBearish r,
    judge_trend-IsIdle r,
    judge_trend-trending r,
  )

  if-IsBacked :
      (price : F) (b : Bool) (x y : TrendResult F)
      → IsBacked price x
      → IsBacked price y
      → IsBacked price (if b then x else y)
  if-IsBacked price true x y p q = p
  if-IsBacked price false x y p q = q

  -- Whatever the candles are: a bullish trend has the EMAs 50, 100 and 200 stacked upwards and a
  -- score of at least 8, with the last close over the EMA50 unless it is a pullback, in which +DI
  -- is over -DI; a bearish trend has the mirror image of this; no trend is weak, no pullback, and
  -- in none of a trend's states; and the state TRENDING is that of a strong trend outside a
  -- pullback.
  pub analyze_trend-IsBacked :
      (sum : List F → F) (candles : List (Ohlcv F))
      → IsBacked (last_close candles) (analyze_trend sum candles)
  unfolding analyze_trend readings_of
  analyze_trend-IsBacked sum candles =
      let few = ltb (length candles) 210 in
      let price = last_close candles in
      let quiet = neutral_result-IsBacked price candles in
      if-IsBacked price (few || not (every is_valid_ohlcv candles)) (neutral_result candles)
        (judge_trend (readings_of sum candles)) quiet
        (judge_trend-IsBacked (readings_of sum candles))
