-- ===== src/Signals/Regime.antt =====
-- live_trading/signals/market_regime.py: the regime detector and the entry rules of each regime. The
-- descriptions and the log are left out; `sum` is Python's, for floats.
pub mod Sides
use scalp_tn_aaa.Base.{
  ℕ, zero, suc, ◌+◌, ◌-◌, ◌*◌, Bool, true, false, not, ◌&&◌, Option, none, some, List, [], ◌∷◌,
  ◌++◌, if◌then◌else◌, length, take, ltb, leb, map, drop, last, last_at,
}
use scalp_tn_aaa.Base.Text.{Text, codes}
use scalp_tn_aaa.Float.{Float, nought, gt, ge, max}
use scalp_tn_aaa.Risk.Trailing.{Candle, true_range, true_ranges, number_of}
use scalp_tn_aaa.Entry.Policy.{strong_adx_trend_threshold}

pub data Regime : Type 0 where
  strong_trend_bull strong_trend_bear weak_trend_bull weak_trend_bear : Regime
  pullback_bull pullback_bear : Regime
  range accumulation distribution high_volatility low_volatility : Regime

-- The key of `REGIME_RULES`.
unfoldable pub regime_key : Regime → Text
regime_key strong_trend_bull = codes "STRONG_TREND_BULL"
regime_key strong_trend_bear = codes "STRONG_TREND_BEAR"
regime_key weak_trend_bull = codes "WEAK_TREND_BULL"
regime_key weak_trend_bear = codes "WEAK_TREND_BEAR"
regime_key pullback_bull = codes "PULLBACK_BULL"
regime_key pullback_bear = codes "PULLBACK_BEAR"
regime_key range = codes "RANGE"
regime_key accumulation = codes "ACCUMULATION"
regime_key distribution = codes "DISTRIBUTION"
regime_key high_volatility = codes "HIGH_VOLATILITY"
regime_key low_volatility = codes "LOW_VOLATILITY"

-- "BULLISH", "BEARISH" or "NEUTRAL", of the trend and of the directional movement.
pub data Side : Type 0 where
  bullish bearish neutral_side : Side

pub data Strength : Type 0 where
  strong moderate weak : Strength

pub data Phase : Type 0 where
  accumulating distributing neutral_phase : Phase

pub record RegimeEntryRules (F : Type 0) : Type 0 where
  pub min_confidence : F
  pub min_rr : F
  pub allow_long : Bool
  pub allow_short : Bool
  pub sl_atr_mult_adjust : F

pub record RegimeResult (F : Type 0) : Type 0 where
  pub regime : Regime
  pub rules : RegimeEntryRules F
  pub atr : F
  pub atr_mean : F
  pub atr_ratio : F
  pub adx : F

-- One step of the directional movement.
pub record Move (F : Type 0) : Type 0 where
  pub tr : F
  pub plus : F
  pub minus : F

-- Wilder's running sums with the last indices, and the strengths so far.
pub record Movement (F : Type 0) : Type 0 where
  pub s_tr : F
  pub s_dp : F
  pub s_dm : F
  pub di_p : F
  pub di_m : F
  pub dx_arr : List F

pub record AdxDetails (F : Type 0) : Type 0 where
  pub adx : F
  pub direction : Side
  pub di_plus : F
  pub di_minus : F

-- What the cascade of `detect_market_regime` reads.
pub record Evidence (F : Type 0) : Type 0 where
  pub use_atr_high_vol : Bool
  pub ratio : F
  pub adx : F
  pub adx_direction : Side
  pub trend : Side
  pub strength : Strength
  pub pull : Option Side
  pub phase : Phase

-- The engines' results, as far as the detector reads them.
pub record RegimeInput (F : Type 0) : Type 0 where
  pub candles : List (Candle F)
  pub trend : Side
  pub strength : Strength
  pub phase : Phase
  pub use_atr_high_vol : Bool

abbrev pub is_strong : Strength → Bool
is_strong strong = true
is_strong _ = false

-- `min` of two lengths.
abbrev pub shorter : ℕ → ℕ → ℕ
shorter a b = if ltb b a then b else a

-- `adx_direction if adx_direction != "NEUTRAL" else trend.trend`
abbrev pub strong_direction : Side → Side → Side
strong_direction neutral_side trend = trend
strong_direction bullish trend = bullish
strong_direction bearish trend = bearish

abbrev pub classify_phase : Phase → Regime
classify_phase accumulating = accumulation
classify_phase distributing = distribution
classify_phase neutral_phase = range

-- The developing trend, then the phase.
abbrev pub classify_weak : Bool → Side → Phase → Regime
classify_weak true bullish phase = weak_trend_bull
classify_weak true bearish phase = weak_trend_bear
classify_weak true neutral_side phase = classify_phase phase
classify_weak false trend phase = classify_phase phase

-- The pullback, then the rest.
abbrev pub classify_pullback : Option Side → Bool → Side → Phase → Regime
classify_pullback (some bullish) true trend phase = pullback_bull
classify_pullback (some bearish) true trend phase = pullback_bear
classify_pullback pull moving trend phase = classify_weak moving trend phase

abbrev pub classify_strong : Side → Regime → Regime
classify_strong bullish rest = strong_trend_bull
classify_strong bearish rest = strong_trend_bear
classify_strong neutral_side rest = rest

module _ {F : Type 0} ⦃fl : Float F⦄ where
  abbrev pub rules_of : F → F → Bool → Bool → F → RegimeEntryRules F
  rules_of confidence rr long short adjust = record {
    min_confidence = confidence;
    min_rr = rr;
    allow_long = long;
    allow_short = short;
    sl_atr_mult_adjust = adjust;
  }

  -- `REGIME_RULES`, with the settings NORMAL_MIN_CONFIDENCE and RANGE_MIN_CONFIDENCE.
  unfoldable pub regime_rules : F → F → Regime → RegimeEntryRules F
  regime_rules normal ranging strong_trend_bull =
      rules_of normal (fl.lit 15 10) true false (fl.lit 1 1)
  regime_rules normal ranging strong_trend_bear =
      rules_of normal (fl.lit 15 10) false true (fl.lit 1 1)
  regime_rules normal ranging weak_trend_bull =
      rules_of normal (fl.lit 15 10) true false (fl.lit 9 10)
  regime_rules normal ranging weak_trend_bear =
      rules_of normal (fl.lit 15 10) false true (fl.lit 9 10)
  regime_rules normal ranging pullback_bull =
      rules_of normal (fl.lit 18 10) true false (fl.lit 95 100)
  regime_rules normal ranging pullback_bear =
      rules_of normal (fl.lit 18 10) false true (fl.lit 95 100)
  regime_rules normal ranging range = rules_of ranging (fl.lit 2 1) true true (fl.lit 8 10)
  regime_rules normal ranging accumulation = rules_of normal (fl.lit 18 10) true false (fl.lit 1 1)
  regime_rules normal ranging distribution = rules_of normal (fl.lit 18 10) false true (fl.lit 1 1)
  regime_rules normal ranging high_volatility =
      rules_of normal (fl.lit 2 1) true true (fl.lit 13 10)
  regime_rules normal ranging low_volatility =
      rules_of normal (fl.lit 15 10) true true (fl.lit 7 10)

  abbrev pub mean_of_last : (List F → F) → ℕ → List F → F
  mean_of_last sum n trs = fl.div (sum (last n trs)) (number_of (shorter n (length trs)))

  abbrev pub atr_values : (List F → F) → ℕ → List F → F × F × F
  atr_values sum period [] = (nought, nought, fl.lit 1 1)
  atr_values sum period (r ∷ rs) =
      let atr = mean_of_last sum 5 (r ∷ rs) in
      let atr_mean = mean_of_last sum period (r ∷ rs) in
      (atr, atr_mean, if gt atr_mean nought then fl.round 3 (fl.div atr atr_mean) else fl.lit 1 1)

  unfoldable pub calc_atr_values : (List F → F) → List (Candle F) → ℕ → F × F × F
  calc_atr_values sum candles period = atr_values sum period (true_ranges candles)

  abbrev pub move : Candle F → Candle F → Move F
  move p c =
      let up = fl.sub c.high p.high in
      let dn = fl.sub p.low c.low in
      record {
        tr = true_range p c;
        plus = if gt up dn && gt up nought then up else nought;
        minus = if gt dn up && gt dn nought then dn else nought;
      }

  abbrev pub moves : List (Candle F) → List (Move F)
  moves [] = []
  moves (a ∷ []) = []
  moves (a ∷ b ∷ cs) = move a b ∷ moves (b ∷ cs)

  abbrev pub share : F → F → F
  share part whole = if gt whole nought then fl.div (fl.mul (fl.lit 100 1) part) whole else nought

  abbrev pub smooth : ℕ → F → F → F
  smooth period s x = fl.add (fl.sub s (fl.div s (number_of period))) x

  abbrev pub advance : ℕ → Movement F → Move F → Movement F
  advance period m v =
      let s_tr = smooth period m.s_tr v.tr in
      let s_dp = smooth period m.s_dp v.plus in
      let s_dm = smooth period m.s_dm v.minus in
      let di_p = share s_dp s_tr in
      let di_m = share s_dm s_tr in
      record {
        s_tr = s_tr;
        s_dp = s_dp;
        s_dm = s_dm;
        di_p = di_p;
        di_m = di_m;
        dx_arr = m.dx_arr ++ (share (fl.abs (fl.sub di_p di_m)) (fl.add di_p di_m) ∷ []);
      }

  abbrev pub advance_all : ℕ → Movement F → List (Move F) → Movement F
  advance_all period m [] = m
  advance_all period m (v ∷ vs) = advance_all period (advance period m v) vs

  abbrev pub first_sums : (List F → F) → ℕ → List (Move F) → Movement F
  first_sums sum period vs = record {
    s_tr = sum (map (λ v. v.tr) (take period vs));
    s_dp = sum (map (λ v. v.plus) (take period vs));
    s_dm = sum (map (λ v. v.minus) (take period vs));
    di_p = nought;
    di_m = nought;
    dx_arr = [];
  }

  abbrev pub no_adx : F → F → AdxDetails F
  no_adx di_p di_m = record {
    adx = fl.lit 20 1;
    direction = neutral_side;
    di_plus = di_p;
    di_minus = di_m;
  }

  abbrev pub side_of : F → F → Side
  side_of di_p di_m =
      if gt di_p di_m then bullish else if gt di_m di_p then bearish else neutral_side

  abbrev pub adx_of : (List F → F) → ℕ → Movement F → AdxDetails F
  adx_of sum period m = if ltb (length m.dx_arr) period then no_adx m.di_p m.di_m else record {
    adx = fl.round 2 (fl.div (sum (last period m.dx_arr)) (number_of period));
    direction = side_of m.di_p m.di_m;
    di_plus = m.di_p;
    di_minus = m.di_m;
  }

  unfoldable pub calc_adx_details : (List F → F) → List (Candle F) → ℕ → AdxDetails F
  calc_adx_details sum candles period =
      let vs = moves candles in
      if ltb (length candles) (period * 2)
      then no_adx nought nought
      else adx_of sum period (advance_all period (first_sums sum period vs) (drop period vs))

  abbrev pub pullback : Side → F → F → Option Side
  pullback bullish now prev =
      if fl.lt now (fl.mul prev (fl.lit 9997 10_000)) then some bullish else none
  pullback bearish now prev =
      if gt now (fl.mul prev (fl.lit 10_003 10_000)) then some bearish else none
  pullback neutral_side now prev = none

  abbrev pub pullback_at : Side → Option (Candle F) → Option (Candle F) → Option Side
  pullback_at trend (some now) (some prev) = pullback trend now.close prev.close
  pullback_at trend _ _ = none

  -- `_detect_pullback`; `some bullish` is "BULL".
  unfoldable pub detect_pullback : List (Candle F) → Side → Option Side
  detect_pullback candles trend =
      if ltb (length candles) 10
      then none
      else pullback_at trend (last_at 1 candles) (last_at 6 candles)

  unfoldable pub classify : Evidence F → Regime
  classify e =
      let rest = classify_pullback e.pull (ge e.adx (fl.lit 20 1)) e.trend e.phase in
      let aligned =
        if ge e.adx (fl.lit 30 1) && is_strong e.strength
        then classify_strong e.trend rest
        else rest in
      if e.use_atr_high_vol && gt e.ratio (fl.lit 18 10)
      then high_volatility
      else if fl.lt e.ratio (fl.lit 60 100) && fl.lt e.adx (fl.lit 20 1)
      then low_volatility
      else if ge e.adx strong_adx_trend_threshold
      then classify_strong (strong_direction e.adx_direction e.trend) aligned
      else aligned

  unfoldable pub evidence_of : (List F → F) → RegimeInput F → Evidence F
  evidence_of sum i =
      let details = calc_adx_details sum i.candles 14 in
      record {
        use_atr_high_vol = i.use_atr_high_vol;
        ratio = (calc_atr_values sum i.candles 20).2;
        adx = details.adx;
        adx_direction = details.direction;
        trend = i.trend;
        strength = i.strength;
        pull = detect_pullback i.candles i.trend;
        phase = i.phase;
      }

  unfoldable pub detect_market_regime : (List F → F) → F → F → RegimeInput F → RegimeResult F
  detect_market_regime sum normal ranging i =
      let (atr, atr_mean, ratio) = calc_atr_values sum i.candles 20 in
      let regime = classify (evidence_of sum i) in
      record {
        regime = regime;
        rules = regime_rules normal ranging regime;
        atr = atr;
        atr_mean = atr_mean;
        atr_ratio = ratio;
        adx = (calc_adx_details sum i.candles 14).adx;
      }
