-- ===== src/Signals/Quality.antt =====
-- live_trading/signals/quality_filter.py: the last gate of a setup. The candle's timestamp is the hour
-- in UTC that Python's `datetime` reads from it, `none` where that fails; a reason is a constructor,
-- and the arguments that the function ignores are left out. `sum` is Python's, for floats.
pub mod Allowed
use scalp_tn_aaa.Base.{
  ℕ, zero, suc, ◌+◌, Bool, true, false, not, ◌&&◌, ◌||◌, Option, none, some, List, [], ◌∷◌, ◌++◌,
  map, arith, if◌then◌else◌, length, ltb, leb, take, drop, last, last_at, is_none,
}
use scalp_tn_aaa.Float.{Float, nought, gt, ge}
use scalp_tn_aaa.Risk.Trailing.{Candle, true_range, true_ranges, number_of}
use scalp_tn_aaa.Signals.Regime.{calc_adx_details}
use scalp_tn_aaa.Signals.Confidence.{least_of, greatest_of, without_last}

pub record Ohlcv (F : Type 0) : Type 0 where
  pub hour : Option ℕ
  pub open_price : F
  pub high : F
  pub low : F
  pub close : F
  pub volume : F

pub data Session : Type 0 where
  prime_session moderate_session blocked_session : Session

pub data BlockReason : Type 0 where
  few_candles bad_timestamp severe_range late_entry low_momentum low_confidence : BlockReason

pub record QualityFilterResult (F : Type 0) : Type 0 where
  pub allowed : Bool
  pub blocked_reasons : List BlockReason
  pub session_quality : Session
  pub adx : F
  pub is_severe_range : Bool
  pub is_late_entry : Bool
  pub is_low_probability : Bool
  pub is_weak_volume : Bool
  pub is_low_momentum : Bool

-- The settings QUALITY_ADX_MIN and CONF_HARD_MIN.
pub record QualityConfig (F : Type 0) : Type 0 where
  pub quality_adx_min : F
  pub conf_hard_min : F

-- `ALLOWED_SESSIONS`
unfoldable pub session_of_hour : ℕ → Session
session_of_hour hour =
    if ltb hour 7
    then moderate_session
    else if ltb hour 17
    then prime_session
    else if ltb hour 24
    then moderate_session
    else blocked_session

unfoldable pub get_session_quality : Option ℕ → Session
get_session_quality none = blocked_session
get_session_quality (some hour) = session_of_hour hour

abbrev pub is_blocked_session : Session → Bool
is_blocked_session blocked_session = true
is_blocked_session _ = false

-- `reasons.append(r)`, under a test.
abbrev pub reason_if : Bool → BlockReason → List BlockReason
reason_if b r = if b then r ∷ [] else []

abbrev pub no_reasons : List BlockReason → Bool
no_reasons [] = true
no_reasons (_ ∷ _) = false

module _ {F : Type 0} ⦃fl : Float F⦄ where
  abbrev pub candle_of : Ohlcv F → Candle F
  candle_of c = record { high = c.high; low = c.low; close = c.close }

  abbrev pub every : (Ohlcv F → Bool) → List (Ohlcv F) → Bool
  every p [] = true
  every p (c ∷ cs) = p c && every p cs

  -- `closes[-1]` of a list that is not empty.
  abbrev pub last_or : F → List F → F
  last_or x [] = x
  last_or x (y ∷ ys) = last_or y ys

  abbrev pub ema_steps : F → F → List F → F
  ema_steps k ema [] = ema
  ema_steps k ema (p ∷ ps) =
      ema_steps k (fl.add (fl.mul p k) (fl.mul ema (fl.sub (fl.lit 1 1) k))) ps

  abbrev pub calc_ema50 : (List F → F) → List F → F
  calc_ema50 sum closes =
      if ltb (length closes) 50
      then last_or nought closes
      else ema_steps (fl.div (fl.lit 2 1) (fl.lit 51 1))
          (fl.div (sum (take 50 closes)) (fl.lit 50 1)) (drop 50 closes)

  abbrev pub is_volatility_compressed : (List F → F) → List (Ohlcv F) → ℕ → F → Bool
  is_volatility_compressed sum candles lookback threshold =
      let trs = true_ranges (map candle_of candles) in
      let mean_atr = fl.div (sum (without_last (last (lookback + 1) trs))) (number_of lookback) in
      if ltb (length candles) (lookback + 2)
      then false
      else gt mean_atr nought && fl.lt (last_or nought trs) (fl.mul mean_atr threshold)

  -- The spread of the highs and the lows.
  abbrev pub spread : List (Ohlcv F) → F
  spread [] = nought
  spread (c ∷ cs) =
      fl.sub (greatest_of c.high (map (λ x. x.high) cs)) (least_of c.low (map (λ x. x.low) cs))

  abbrev pub mean_range : (List F → F) → List F → F
  mean_range sum trs =
      if leb 20 (length trs)
      then fl.div (sum (last 20 trs)) (fl.lit 20 1)
      else fl.div (sum trs) (number_of (length trs))

  unfoldable pub severe : (List F → F) → List (Ohlcv F) → F → Bool
  severe sum candles adx =
      let mean_atr = mean_range sum (true_ranges (map candle_of candles)) in
      if ge adx (fl.lit 14 1)
      then false
      else if not (is_volatility_compressed sum candles 20 (fl.lit 50 100))
      then false
      else fl.lt (spread (last 15 candles)) (fl.mul mean_atr (fl.lit 25 10))

  abbrev pub bodies : List (Ohlcv F) → List F
  bodies [] = []
  bodies (c ∷ cs) = fl.abs (fl.sub c.close c.open_price) ∷ bodies cs

  abbrev pub is_shrinking : List F → Bool
  is_shrinking [] = true
  is_shrinking (a ∷ []) = true
  is_shrinking (a ∷ b ∷ xs) = fl.le b a && is_shrinking (b ∷ xs)

  -- Five candles of one colour with shrinking bodies.
  abbrev pub is_exhausted : List (Ohlcv F) → Bool
  is_exhausted recent =
      (every (λ c. gt c.close c.open_price) recent
        || every (λ c. fl.lt c.close c.open_price) recent)
      && is_shrinking (bodies recent)

  -- `LATE_EXTENSION_MULT * atr` is passed by the distance to the EMA.
  abbrev pub is_extended : F → Option (Ohlcv F) → Option (Ohlcv F) → Bool
  is_extended ema (some curr) (some prev) =
      gt (fl.abs (fl.sub curr.close ema))
        (fl.mul (fl.lit 10 1) (true_range (candle_of prev) (candle_of curr)))
  is_extended ema _ _ = false

  unfoldable pub late : (List F → F) → List (Ohlcv F) → Bool
  late sum candles =
      if is_extended (calc_ema50 sum (map (λ c. c.close) candles)) (last_at 1 candles)
        (last_at 2 candles)
      then true
      else leb 6 (length candles) && is_exhausted (last 5 candles)

  abbrev pub volume_below : F → Option (Ohlcv F) → Bool
  volume_below avg_vol none = false
  volume_below avg_vol (some c) =
      gt avg_vol nought && fl.lt c.volume (fl.mul avg_vol (fl.lit 35 100))

  unfoldable pub weak_volume : (List F → F) → List (Ohlcv F) → Bool
  weak_volume sum candles =
      let avg_vol =
        fl.div (sum (map (λ c. c.volume) (without_last (last 21 candles)))) (fl.lit 20 1) in
      if ltb (length candles) 22 then false else volume_below avg_vol (last_at 1 candles)

  abbrev pub hour_of : Option (Ohlcv F) → Option ℕ
  hour_of none = none
  hour_of (some c) = c.hour

  -- `adx if adx is not None else calc_adx(candles)`
  unfoldable pub adx_or_calc : (List F → F) → List (Ohlcv F) → Option F → F
  adx_or_calc sum candles none = (calc_adx_details sum (map candle_of candles) 14).adx
  adx_or_calc sum candles (some adx) = adx

  abbrev pub too_few : QualityFilterResult F
  too_few = record {
    allowed = false;
    blocked_reasons = few_candles ∷ [];
    session_quality = blocked_session;
    adx = nought;
    is_severe_range = false;
    is_late_entry = false;
    is_low_probability = false;
    is_weak_volume = false;
    is_low_momentum = false;
  }

  unfoldable pub judge :
      (List F → F) → QualityConfig F → List (Ohlcv F) → F → F → QualityFilterResult F
  judge sum cfg candles confidence adx =
      let session = get_session_quality (hour_of (last_at 1 candles)) in
      let sev_range = severe sum candles adx in
      let is_late = late sum candles in
      let low_mom = fl.lt adx cfg.quality_adx_min in
      let low_prob = fl.lt confidence cfg.conf_hard_min in
      let reasons =
        reason_if (is_blocked_session session) bad_timestamp
        ++ reason_if sev_range severe_range
        ++ reason_if is_late late_entry
        ++ reason_if low_mom low_momentum
        ++ reason_if low_prob low_confidence in
      record {
        allowed = no_reasons reasons;
        blocked_reasons = reasons;
        session_quality = session;
        adx = adx;
        is_severe_range = sev_range;
        is_late_entry = is_late;
        is_low_probability = low_prob;
        is_weak_volume = weak_volume sum candles;
        is_low_momentum = low_mom;
      }

  unfoldable pub apply_quality_filter :
      (List F → F) → QualityConfig F → List (Ohlcv F) → F → Option F → QualityFilterResult F
  apply_quality_filter sum cfg candles confidence adx =
      if ltb (length candles) 30
      then too_few
      else judge sum cfg candles confidence (adx_or_calc sum candles adx)
