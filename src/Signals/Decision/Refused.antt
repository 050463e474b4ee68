-- ===== src/Signals/Decision/Refused.antt =====
-- live_trading/signals/decision_engine.py: every result that is not allowed says why.
use scalp_tn_aaa.Base.{
  ◌≡◌, refl, ◌∙◌, Bool, true, false, not, Option, none, some, List, [], ◌∷◌, map, arith,
  if◌then◌else◌,
}
use scalp_tn_aaa.Base.Results.{Result, ◌>>◌, Raises, ok-Raises, raise_if-Raises, >>=-Raises}
use scalp_tn_aaa.Float.{Float}
use scalp_tn_aaa.Risk.Capital.{CapitalOutput}
use scalp_tn_aaa.Signals.Quality.{
  Ohlcv, QualityConfig, BlockReason, no_reasons, apply_quality_filter, judge,
}
use scalp_tn_aaa.Signals.Range.{RangeContext}
use scalp_tn_aaa.Signals.Decision.{
  DecisionBlock, DecisionResult, Engines, Settings, Request, quality_block,
}
use scalp_tn_aaa.Signals.Decision.Run.{
  Setup, Scored, stop_at_block, or_exception, confidence_of, unlikely, poor, range_stage, score,
  price, decide_entry,
}

abbrev pub is_empty : List DecisionBlock → Bool
is_empty [] = true
is_empty (b ∷ bs) = false

map-is_empty : (bs : List BlockReason) → is_empty (map quality_block bs) ≡ no_reasons bs
map-is_empty [] = refl
map-is_empty (b ∷ bs) = refl

module _ {F : Type 0} ⦃fl : Float F⦄ where
  abbrev pub IsRefused : DecisionResult F → Type 0
  IsRefused d = (d.allowed ≡ false) × (is_empty d.blocked_reasons ≡ false)

  -- What a run raises is a refusal, or an exception.
  abbrev pub IsStop : Option (DecisionResult F) → Type 0
  IsStop none = Unit {0}
  IsStop (some d) = IsRefused d

  or_exception-Raises :
      (o : Option (CapitalOutput F)) → Raises IsStop (or_exception {R = DecisionResult F} o)
  unfolding Raises
  or_exception-Raises none = tt
  or_exception-Raises (some a) = tt

  stop_at_block-Raises :
      {A : Type 0} (o : Option DecisionBlock) (f : DecisionBlock → DecisionResult F)
      (k : Result (Option (DecisionResult F)) A)
      → ((b : DecisionBlock) → IsRefused (f b))
      → Raises IsStop k
      → Raises IsStop (stop_at_block o f >> k)
  unfolding Raises
  stop_at_block-Raises none f k p q = q
  stop_at_block-Raises (some b) f k p q = p b

  quality_says_why :
      (sum : List F → F) (cfg : QualityConfig F) (candles : List (Ohlcv F)) (confidence : F)
      (adx : Option F)
      → let r = apply_quality_filter sum cfg candles confidence adx in
        r.allowed ≡ no_reasons r.blocked_reasons
  unfolding apply_quality_filter judge
  quality_says_why sum cfg candles confidence adx = ground arith

  blocked :
      (d : DecisionResult F)
      → d.allowed ≡ false
      → is_empty d.blocked_reasons ≡ false
      → IsStop (some d)
  blocked d h k = (h, k)

  if-Raises :
      {A : Type 0} (b : Bool) (x y : Result (Option (DecisionResult F)) A)
      → Raises IsStop x
      → Raises IsStop y
      → Raises IsStop (if b then x else y)
  unfolding Raises
  if-Raises true x y p q = p
  if-Raises false x y p q = q

  ruleset refused_rules =
      (raise_if-Raises, stop_at_block-Raises, if-Raises, ok-Raises, blocked, refl)

  module _ (sum : List F → F) (st : Settings F) (e : Engines F) (q : Request F)
      (candles : List (Ohlcv F)) where
    range_stage-Refused : (s : Setup F) → Raises IsStop (range_stage sum st e q candles s)
    unfolding range_stage
    range_stage-Refused s = search refused_rules

    score-Refused : (s : Setup F) → Raises IsStop (score sum st e q candles s)
    unfolding score
    score-Refused s =
        let conf = confidence_of sum st e q candles s in
        let cfg : QualityConfig F = record {
          quality_adx_min = st.quality_adx_min;
          conf_hard_min = st.conf_hard_min;
        } in
        let r = apply_quality_filter sum cfg candles conf.confidence (some s.regime.adx) in
        let why = quality_says_why sum cfg candles conf.confidence (some s.regime.adx) in
        raise_if-Raises IsStop (fl.lt conf.confidence st.conf_hard_min)
          (some (unlikely sum st e q candles s conf)) _ (λ _. (refl, refl))
          (raise_if-Raises IsStop (not r.allowed) (some (poor sum st e q candles s conf r)) _
            (λ h. (refl, map-is_empty r.blocked_reasons ∙ (ground (arith, why))))
            (ok-Raises IsStop _))

    price-Refused :
        (s : Setup F) (k : Scored F) (c : Option (RangeContext F))
        → Raises IsStop (price sum st e q candles s k c)
    unfolding price
    price-Refused s k c = search (refused_rules, >>=-Raises, or_exception-Raises) depth 12

    pub decide_entry-Refused : (s : Setup F) → Raises IsStop (decide_entry sum st e q candles s)
    unfolding decide_entry
    decide_entry-Refused s =
        search (refused_rules, >>=-Raises, range_stage-Refused, score-Refused, price-Refused) depth
          9
