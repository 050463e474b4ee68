-- ===== src/Signals/Regime/Sides.antt =====
-- What a regime that allows one side only rests on.
use scalp_tn_aaa.Base.{
  ◌≡◌, refl, sym, ◌∙◌, Bool, true, false, ◌&&◌, Option, none, some, List, arith, some-injective,
  if◌then◌else◌, ◌⊎◌, inl, inr,
}
use scalp_tn_aaa.Float.{Float, ge, gt}
use scalp_tn_aaa.Entry.Policy.{strong_adx_trend_threshold}
use scalp_tn_aaa.Risk.Trailing.{Candle}
use scalp_tn_aaa.Signals.Regime.{
  Regime, Side, bullish, bearish, neutral_side, Phase, accumulating, distributing, neutral_phase,
  Evidence, RegimeInput, classify, classify_pullback, classify_strong, classify_phase,
  classify_weak, evidence_of, detect_market_regime, detect_pullback, regime_rules, is_strong,
  strong_direction, strong_trend_bull, strong_trend_bear, weak_trend_bull, weak_trend_bear,
  pullback_bull, pullback_bear, range, accumulation, distribution, high_volatility, low_volatility,
}

-- The phase that speaks for a side.
abbrev pub phase_of : Side → Phase
phase_of bullish = accumulating
phase_of bearish = distributing
phase_of neutral_side = neutral_phase

abbrev pub is_strong_regime : Regime → Bool
is_strong_regime strong_trend_bull = true
is_strong_regime strong_trend_bear = true
is_strong_regime _ = false

module _ {F : Type 0} ⦃fl : Float F⦄ where
  -- The trend, the directional movement under a decisive ADX, or Wyckoff's phase speaks for the side.
  abbrev pub SpeaksFor : Side → Evidence F → Type 0
  SpeaksFor side e =
      (e.trend ≡ side)
      ⊎ ((e.adx_direction ≡ side) × (ge e.adx strong_adx_trend_threshold ≡ true))
      ⊎ (e.phase ≡ phase_of side)

  -- A decisive ADX, or a high one under a strong trend.
  abbrev pub IsStrongMove : Evidence F → Type 0
  IsStrongMove e =
      (ge e.adx strong_adx_trend_threshold ≡ true)
      ⊎ ((ge e.adx (fl.lit 30 1) ≡ true) × (is_strong e.strength ≡ true))

  -- What the regime itself says about the evidence.
  abbrev Sound : Evidence F → Regime → Type 0
  Sound e strong_trend_bull = SpeaksFor bullish e × IsStrongMove e
  Sound e strong_trend_bear = SpeaksFor bearish e × IsStrongMove e
  Sound e weak_trend_bull = SpeaksFor bullish e
  Sound e weak_trend_bear = SpeaksFor bearish e
  Sound e pullback_bull = SpeaksFor bullish e
  Sound e pullback_bear = SpeaksFor bearish e
  Sound e accumulation = SpeaksFor bullish e
  Sound e distribution = SpeaksFor bearish e
  Sound e range = Unit
  Sound e high_volatility = Unit
  Sound e low_volatility = Unit

  detect_pullback-trend :
      (cs : List (Candle F)) (trend : Side)
      → (detect_pullback cs trend ≡ none) ⊎ (detect_pullback cs trend ≡ some trend)
  unfolding detect_pullback
  detect_pullback-trend cs trend = ground arith

  evidence-pull :
      (sum : List F → F) (i : RegimeInput F)
      → let e = evidence_of sum i in (e.pull ≡ none) ⊎ (e.pull ≡ some e.trend)
  unfolding evidence_of
  evidence-pull sum i = detect_pullback-trend i.candles i.trend

  module _ (e : Evidence F) where
    classify_phase-Sound : (phase : Phase) → e.phase ≡ phase → Sound e (classify_phase phase)
    classify_phase-Sound accumulating h = inr (inr h)
    classify_phase-Sound distributing h = inr (inr h)
    classify_phase-Sound neutral_phase h = tt

    classify_weak-Sound :
        (moving : Bool) (trend : Side) (phase : Phase)
        → e.trend ≡ trend
        → e.phase ≡ phase
        → Sound e (classify_weak moving trend phase)
    classify_weak-Sound true bullish phase t p = inl t
    classify_weak-Sound true bearish phase t p = inl t
    classify_weak-Sound true neutral_side phase t p = classify_phase-Sound phase p
    classify_weak-Sound false trend phase t p = classify_phase-Sound phase p

    classify_pullback-Sound :
        (pull : Option Side) (moving : Bool) (trend : Side) (phase : Phase)
        → (pull ≡ none) ⊎ (pull ≡ some trend)
        → e.trend ≡ trend
        → e.phase ≡ phase
        → Sound e (classify_pullback pull moving trend phase)
    classify_pullback-Sound none moving trend phase h t p =
        classify_weak-Sound moving trend phase t p
    classify_pullback-Sound (some bullish) true trend phase (inl h) t p = absurd (ground arith)
    classify_pullback-Sound (some bullish) true trend phase (inr h) t p =
        inl (t ∙ sym (some-injective h))
    classify_pullback-Sound (some bearish) true trend phase (inl h) t p = absurd (ground arith)
    classify_pullback-Sound (some bearish) true trend phase (inr h) t p =
        inl (t ∙ sym (some-injective h))
    classify_pullback-Sound (some neutral_side) true trend phase h t p =
        classify_weak-Sound true trend phase t p
    classify_pullback-Sound (some bullish) false trend phase h t p =
        classify_weak-Sound false trend phase t p
    classify_pullback-Sound (some bearish) false trend phase h t p =
        classify_weak-Sound false trend phase t p
    classify_pullback-Sound (some neutral_side) false trend phase h t p =
        classify_weak-Sound false trend phase t p

    classify_strong-Sound :
        (side : Side) (rest : Regime)
        → SpeaksFor side e
        → IsStrongMove e
        → Sound e rest
        → Sound e (classify_strong side rest)
    classify_strong-Sound bullish rest h m r = (h, m)
    classify_strong-Sound bearish rest h m r = (h, m)
    classify_strong-Sound neutral_side rest h m r = r

    strong_direction-SpeaksFor :
        (d : Side)
        → e.adx_direction ≡ d
        → ge e.adx strong_adx_trend_threshold ≡ true
        → SpeaksFor (strong_direction d e.trend) e
    strong_direction-SpeaksFor bullish h k = inr (inl (h, k))
    strong_direction-SpeaksFor bearish h k = inr (inl (h, k))
    strong_direction-SpeaksFor neutral_side h k = inl refl

    if-Sound :
        (b : Bool) (x y : Regime)
        → (b ≡ true → Sound e x)
        → (b ≡ false → Sound e y)
        → Sound e (if b then x else y)
    if-Sound true x y h k = h refl
    if-Sound false x y h k = k refl

    classify-Sound : (e.pull ≡ none) ⊎ (e.pull ≡ some e.trend) → Sound e (classify e)
    unfolding classify
    classify-Sound h =
        let rest = classify_pullback e.pull (ge e.adx (fl.lit 20 1)) e.trend e.phase in
        let low =
          classify_pullback-Sound e.pull (ge e.adx (fl.lit 20 1)) e.trend e.phase h refl refl in
        let aligned =
          if-Sound (ge e.adx (fl.lit 30 1) && is_strong e.strength) (classify_strong e.trend rest)
            rest (λ k. classify_strong-Sound e.trend rest (inl refl) (inr (ground arith)) low)
            (λ _. low) in
        if-Sound (e.use_atr_high_vol && gt e.ratio (fl.lit 18 10)) high_volatility _ (λ _. tt)
          λ _.
            if-Sound (fl.lt e.ratio (fl.lit 60 100) && fl.lt e.adx (fl.lit 20 1)) low_volatility _
              (λ _. tt)
              λ _.
                if-Sound (ge e.adx strong_adx_trend_threshold)
                  (classify_strong (strong_direction e.adx_direction e.trend) _) _
                  (λ k.
                    classify_strong-Sound (strong_direction e.adx_direction e.trend) _
                      (strong_direction-SpeaksFor e.adx_direction refl k) (inl k) aligned)
                  (λ _. aligned)

    Sound-sides :
        (normal ranging : F) (r : Regime)
        → Sound e r
        → (((regime_rules normal ranging r).allow_short ≡ true) ⊎ SpeaksFor bullish e)
          × (((regime_rules normal ranging r).allow_long ≡ true) ⊎ SpeaksFor bearish e)
          × ((is_strong_regime r ≡ false) ⊎ IsStrongMove e)
    unfolding regime_rules
    Sound-sides normal ranging strong_trend_bull (h, m) = (inr h, inl refl, inr m)
    Sound-sides normal ranging strong_trend_bear (h, m) = (inl refl, inr h, inr m)
    Sound-sides normal ranging weak_trend_bull h = (inr h, inl refl, inl refl)
    Sound-sides normal ranging weak_trend_bear h = (inl refl, inr h, inl refl)
    Sound-sides normal ranging pullback_bull h = (inr h, inl refl, inl refl)
    Sound-sides normal ranging pullback_bear h = (inl refl, inr h, inl refl)
    Sound-sides normal ranging accumulation h = (inr h, inl refl, inl refl)
    Sound-sides normal ranging distribution h = (inl refl, inr h, inl refl)
    Sound-sides normal ranging range h = (inl refl, inl refl, inl refl)
    Sound-sides normal ranging high_volatility h = (inl refl, inl refl, inl refl)
    Sound-sides normal ranging low_volatility h = (inl refl, inl refl, inl refl)

  -- The rules of the detected regime shut out the short side only if the trend is bullish, or the
  -- directional movement is bullish at an ADX of 45 or more, or Wyckoff sees an accumulation; they
  -- shut out the long side only on the mirrored evidence; and the regime is a strong one only at an
  -- ADX of 45 or more, or of 30 or more with a strong trend.
  pub one_sided_regime :
      (sum : List F → F) (normal ranging : F) (i : RegimeInput F)
      → let r = detect_market_regime sum normal ranging i in
        ((r.rules.allow_short ≡ true) ⊎ SpeaksFor bullish (evidence_of sum i))
        × ((r.rules.allow_long ≡ true) ⊎ SpeaksFor bearish (evidence_of sum i))
        × ((is_strong_regime r.regime ≡ false) ⊎ IsStrongMove (evidence_of sum i))
  unfolding detect_market_regime
  one_sided_regime sum normal ranging i =
      let e = evidence_of sum i in
      Sound-sides e normal ranging (classify e) (classify-Sound e (evidence-pull sum i))
