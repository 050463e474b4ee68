-- ===== src/Signals/Confidence.antt =====
-- live_trading/signals/confidence_engine.py: the weighted score of an entry. The reasons are left out,
-- and so are the arguments that do not enter a score, the SMC result and the DXY signal.
pub mod Bounds
use scalp_tn_aaa.Base.{
  ℕ, zero, suc, ◌+◌, ◌-◌, Bool, true, false, not, ◌&&◌, ◌||◌, Option, none, some, List, [], ◌∷◌,
  if◌then◌else◌, length, ltb, leb, take, last, last_at, is_some,
}
use scalp_tn_aaa.Base.Text.{Text, text_eq, codes}
use scalp_tn_aaa.Float.{Float, nought, gt, ge, max, min}
use scalp_tn_aaa.Entry.Policy.{buy, sell, is_side}
use scalp_tn_aaa.Risk.Trailing.{Candle}
use scalp_tn_aaa.Signals.Regime.{
  Side, bullish, bearish, neutral_side, Strength, is_strong, Phase, RegimeResult,
}

-- The flags of the Price Action result that one direction reads.
pub record PaFlags : Type 0 where
  pub engulf : Bool
  pub pin_bar : Bool
  pub strong : Bool
  pub inside_breakout : Bool
  pub valid_breakout : Bool
  pub pullback : Bool
  pub near_zone : Bool
  pub near_level : Bool
  pub fake_breakout : Bool

-- The bullish flags, with the demand zone and the support, and the bearish ones, with the supply zone
-- and the resistance.
pub record PriceActionResult (F : Type 0) : Type 0 where
  pub bull : PaFlags
  pub bear : PaFlags
  pub pa_signal : Text
  pub pa_score : F

pub record WyckoffResult (F : Type 0) : Type 0 where
  pub spring : Bool
  pub upthrust : Bool
  pub volume_confirmed : Bool
  pub wyckoff_signal : Text
  pub wyckoff_score : F

pub record ConfidenceInput (F : Type 0) : Type 0 where
  pub wyckoff : WyckoffResult F
  pub pa : PriceActionResult F
  pub trend : Side
  pub strength : Strength
  pub regime : RegimeResult F
  pub session : Text
  pub candidate : Text
  pub divergence_signal : Side
  pub price_action_standalone : Bool
  pub candles : List (Candle F)

pub record ConfidenceComponents (F : Type 0) : Type 0 where
  pub smc_score : F
  pub trend_score : F
  pub pa_score : F
  pub wyckoff_score : F
  pub liquidity_score : F
  pub volatility_score : F
  pub total : F
  pub divergence_score : F
  pub dxy_score : F

pub data Grade : Type 0 where
  prime high marginal rejected : Grade

pub record ConfidenceResult (F : Type 0) : Type 0 where
  pub confidence : F
  pub components : ConfidenceComponents F
  pub grade : Grade

-- "BULLISH" for a purchase, "BEARISH" for any other candidate.
abbrev pub target_side : Text → Side
target_side candidate = if text_eq candidate buy then bullish else bearish

abbrev pub is_same_side : Side → Side → Bool
is_same_side bullish bullish = true
is_same_side bearish bearish = true
is_same_side neutral_side neutral_side = true
is_same_side _ _ = false

abbrev pub is_neutral_side : Side → Bool
is_neutral_side neutral_side = true
is_neutral_side _ = false

-- `xs[:-1]`
abbrev pub without_last {ℓ} : {A : Type ℓ} → List A → List A
without_last [] = []
without_last (x ∷ []) = []
without_last (x ∷ y ∷ xs) = x ∷ without_last (y ∷ xs)

module _ {F : Type 0} ⦃fl : Float F⦄ where
  -- `_cap`
  unfoldable pub cap : F → F → F
  cap val max_val = max nought (min max_val val)

  -- `pts += n / d`, under a test.
  abbrev pub bonus : Bool → ℕ → ℕ → F → F
  bonus test n d pts = if test then fl.add pts (fl.lit n d) else pts

  abbrev pub calc_trend_score : Side → Strength → Text → F
  calc_trend_score trend strength candidate =
      if is_same_side trend (target_side candidate)
      then if is_strong strength then fl.lit 20 1 else fl.lit 14 1
      else if is_neutral_side trend
      then fl.lit 7 1
      else nought

  abbrev pub candle_points : PaFlags → F
  candle_points f =
      if f.engulf
      then fl.add nought (fl.lit 4 1)
      else if f.pin_bar
      then fl.add nought (fl.lit 3 1)
      else if f.strong
      then fl.add nought (fl.lit 2 1)
      else nought

  abbrev pub flag_points : PaFlags → F
  flag_points f =
      let pts = candle_points f in
      let pts = bonus f.inside_breakout 3 1 pts in
      let pts = bonus f.valid_breakout 2 1 pts in
      let pts = bonus f.pullback 1 1 pts in
      let pts = bonus (f.near_zone || f.near_level) 1 1 pts in
      if f.fake_breakout then fl.sub pts (fl.lit 6 1) else pts

  unfoldable pub calc_pa_score : PriceActionResult F → Text → F
  calc_pa_score pa candidate =
      cap (flag_points (if text_eq candidate buy then pa.bull else pa.bear)) (fl.lit 20 1)

  unfoldable pub calc_wyckoff_score : WyckoffResult F → Text → F
  calc_wyckoff_score w candidate =
      let pts = fl.mul w.wyckoff_score (fl.lit 8 1) in
      let pts = bonus (text_eq candidate buy && w.spring) 4 1 pts in
      let pts = bonus (text_eq candidate sell && w.upthrust) 4 1 pts in
      let pts = bonus w.volume_confirmed 3 1 pts in
      if not (text_eq w.wyckoff_signal candidate) then nought else cap pts (fl.lit 15 1)

  -- `min` and `max` over an iterator, from its first element.
  abbrev pub least_of : F → List F → F
  least_of m [] = m
  least_of m (x ∷ xs) = least_of (if fl.lt x m then x else m) xs

  abbrev pub greatest_of : F → List F → F
  greatest_of m [] = m
  greatest_of m (x ∷ xs) = greatest_of (if fl.lt m x then x else m) xs

  abbrev pub lows : List (Candle F) → List F
  lows [] = []
  lows (c ∷ cs) = c.low ∷ lows cs

  abbrev pub highs : List (Candle F) → List F
  highs [] = []
  highs (c ∷ cs) = c.high ∷ highs cs

  abbrev pub count_near : F → F → List F → ℕ
  count_near reference tolerance [] = 0
  count_near reference tolerance (x ∷ xs) =
      let rest = count_near reference tolerance xs in
      if fl.le (fl.abs (fl.sub x reference)) tolerance then suc rest else rest

  -- The points for a sweep of the earlier extreme, and for an extreme that was tested twice.
  abbrev pub liquidity_points : Text → Candle F → List (Candle F) → Candle F → F
  liquidity_points candidate first rest signal =
      let prior_low = least_of first.low (lows rest) in
      let prior_high = greatest_of first.high (highs rest) in
      let swept =
        if text_eq candidate buy && fl.lt signal.low prior_low && gt signal.close prior_low
        then true
        else text_eq candidate sell && gt signal.high prior_high && fl.lt signal.close prior_high in
      let reference = if text_eq candidate buy then prior_low else prior_high in
      let tolerance = max (fl.lit 5 100) (fl.mul (fl.abs reference) (fl.lit 5 10_000)) in
      let levels = if text_eq candidate buy then lows (first ∷ rest) else highs (first ∷ rest) in
      bonus (leb 2 (count_near reference tolerance levels)) 15 10 (bonus swept 35 10 nought)

  abbrev pub liquidity_of : Text → List (Candle F) → Option (Candle F) → F
  liquidity_of candidate (first ∷ rest) (some signal) =
      cap (liquidity_points candidate first rest signal) (fl.lit 5 1)
  liquidity_of candidate _ _ = nought

  unfoldable pub calc_liquidity_score : List (Candle F) → Text → F
  calc_liquidity_score candles candidate =
      if ltb (length candles) 3 || not (is_side candidate)
      then nought
      else liquidity_of candidate (without_last (last 21 candles)) (last_at 1 candles)

  unfoldable pub calc_volatility_score : RegimeResult F → Text → F
  calc_volatility_score regime session =
      let pts =
        if text_eq session (codes "PRIME")
        then fl.add nought (fl.lit 25 10)
        else bonus (text_eq session (codes "MODERATE")) 1 1 nought in
      let pts =
        if ge regime.adx (fl.lit 30 1)
        then fl.add pts (fl.lit 15 10)
        else bonus (ge regime.adx (fl.lit 20 1)) 75 100 pts in
      let pts =
        if fl.le (fl.lit 8 10) regime.atr_ratio && fl.le regime.atr_ratio (fl.lit 15 10)
        then fl.add pts (fl.lit 1 1)
        else bonus (gt regime.atr_ratio (fl.lit 15 10)) 5 10 pts in
      cap pts (fl.lit 5 1)

  abbrev pub calc_divergence_score : Side → Text → F
  calc_divergence_score divergence candidate =
      if is_neutral_side divergence
      then nought
      else if is_same_side divergence (target_side candidate)
      then fl.lit 10 1
      else fl.neg (fl.lit 5 1)

  -- The Price Action score, raised where the engine decides alone.
  unfoldable pub pa_component : ConfidenceInput F → F
  pa_component i =
      let pa_s = calc_pa_score i.pa i.candidate in
      if i.price_action_standalone && text_eq i.pa.pa_signal i.candidate
      then max pa_s (min (fl.lit 35 1) (fl.add (fl.lit 28 1) (fl.mul i.pa.pa_score (fl.lit 20 1))))
      else pa_s

  abbrev pub assign_grade : F → F → F → Grade
  assign_grade conf_hard_min confidence min_conf =
      if ge confidence (fl.lit 90 1)
      then prime
      else if ge confidence min_conf
      then high
      else if ge confidence conf_hard_min
      then marginal
      else rejected

  -- The sum of the scores, from the left.
  unfoldable pub raw_total : ConfidenceInput F → F
  raw_total i =
      let t = fl.add nought (calc_trend_score i.trend i.strength i.candidate) in
      let t = fl.add t (pa_component i) in
      let t = fl.add t (calc_wyckoff_score i.wyckoff i.candidate) in
      let t = fl.add t (calc_liquidity_score i.candles i.candidate) in
      let t = fl.add t (calc_volatility_score i.regime i.session) in
      let t = fl.add t (calc_divergence_score i.divergence_signal i.candidate) in fl.add t nought

  -- `conf_hard_min` is the setting CONF_HARD_MIN.
  unfoldable pub calc_confidence : F → ConfidenceInput F → ConfidenceResult F
  calc_confidence conf_hard_min i =
      let total = fl.round 1 (min (fl.lit 100 1) (max nought (raw_total i))) in
      record {
        confidence = total;
        components = record {
          smc_score = nought;
          trend_score = calc_trend_score i.trend i.strength i.candidate;
          pa_score = pa_component i;
          wyckoff_score = calc_wyckoff_score i.wyckoff i.candidate;
          liquidity_score = calc_liquidity_score i.candles i.candidate;
          volatility_score = calc_volatility_score i.regime i.session;
          total = total;
          divergence_score = max nought (calc_divergence_score i.divergence_signal i.candidate);
          dxy_score = nought;
        };
        grade = assign_grade conf_hard_min total i.regime.rules.min_confidence;
      }
