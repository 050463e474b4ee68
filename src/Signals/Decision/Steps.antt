-- ===== src/Signals/Decision/Steps.antt =====
-- live_trading/signals/decision_engine.py: the steps that a run which raised nothing has passed.
use scalp_tn_aaa.Base.{◌≡◌, refl, sym, [], ◌∷◌, true, false, ◌||◌, Option, none, some, List, arith}
use scalp_tn_aaa.Base.Results.{Result, ok, ◌>>◌, >>=-ok, ok-injective}
use scalp_tn_aaa.Float.{Float}
use scalp_tn_aaa.Entry.Policy.{evaluate_active_entry}
use scalp_tn_aaa.Risk.Capital.{CapitalOutput}
use scalp_tn_aaa.Signals.Range.{RangeContext}
use scalp_tn_aaa.Signals.Quality.{Ohlcv, apply_quality_filter}
use scalp_tn_aaa.Signals.Decision.{
  DecisionBlock, DecisionResult, QualityStage, Engines, Settings, Request, is_range, vote_block,
  side_block, entry_breakout_block_reason, pa_fake_breakout, stage_of,
}
use scalp_tn_aaa.Signals.Decision.Run.{
  Setup, Scored, stop_at_block, or_exception, blocked_after_quality, apply_policy, policy_decision,
  range_stage, confidence_of, score, trade_of, required_rr, is_marginal, entry_result, price,
  decide_entry, make_neutral,
}

stop_at_block-ok :
    {R A : Type 0} (o : Option DecisionBlock) (f : DecisionBlock → R) (k : Result (Option R) A)
    {a : A}
    → (stop_at_block o f >> k) ≡ ok a
    → (o ≡ none) × (k ≡ ok a)
stop_at_block-ok none f k h = (refl, h)
stop_at_block-ok (some b) f k h = absurd (cc)

or_exception-ok : {R A : Type 0} (o : Option A) {a : A} → or_exception {R = R} o ≡ ok a → o ≡ some a
or_exception-ok none h = cc
or_exception-ok (some a) h = cc

module _ {F : Type 0} ⦃fl : Float F⦄ (sum : List F → F) (st : Settings F) (e : Engines F)
    (q : Request F) (candles : List (Ohlcv F)) where
  pub record Scoring (s : Setup F) (k : Scored F) : Type 0 where
    pub conf_eq : k.conf ≡ confidence_of sum st e q candles s
    pub likely : fl.lt k.conf.confidence st.conf_hard_min ≡ false
    pub good : k.quality.allowed ≡ true
    pub quality_eq :
        k.quality
        ≡ apply_quality_filter sum
            (record { quality_adx_min = st.quality_adx_min; conf_hard_min = st.conf_hard_min })
            candles
            k.conf.confidence
            (some s.regime.adx)

  score-Scoring : (s : Setup F) {k : Scored F} → score sum st e q candles s ≡ ok k → Scoring s k
  unfolding score
  score-Scoring s h = record {
    conf_eq = ground arith;
    likely = ground arith;
    good = ground arith;
    quality_eq = ground arith;
  }

  abbrev pub stage_at : Setup F → Scored F → QualityStage F
  stage_at s k = stage_of k.quality (e.smc_fake s.candidate || pa_fake_breakout s.candidate e.pa)

  pub record Pricing (s : Setup F) (k : Scored F) (c : Option (RangeContext F))
      (d : DecisionResult F) : Type 0 where
    pub clean_breakout : entry_breakout_block_reason s.candidate e.pa e.breakout_overextended ≡ none
    pub trade : CapitalOutput F
    pub trade_eq : trade_of sum st e q candles s c ≡ some trade
    pub stop_valid : trade.stop_loss_valid ≡ true
    pub affordable : trade.min_lot_risk_exceeded ≡ false
    pub not_marginal : is_marginal sum st e q candles s k trade.risk_reward_ratio ≡ false
    pub rewarding : fl.lt trade.risk_reward_ratio (required_rr sum st e q candles s) ≡ false
    pub result_eq : d ≡ entry_result sum st e q candles s k c (stage_at s k) trade

  price-Pricing :
      (s : Setup F) (k : Scored F) (c : Option (RangeContext F)) {d : DecisionResult F}
      → price sum st e q candles s k c ≡ ok d
      → Pricing s k c d
  unfolding price
  price-Pricing s k c h =
      let (clean, r0) =
        stop_at_block-ok (entry_breakout_block_reason s.candidate e.pa e.breakout_overextended)
          (blocked_after_quality sum st e q candles s k c (stage_at s k)) _ h in
      let (p, traded, r1) = >>=-ok (or_exception (trade_of sum st e q candles s c)) _ r0 in
      record {
        clean_breakout = clean;
        trade = p;
        trade_eq = or_exception-ok (trade_of sum st e q candles s c) traded;
        stop_valid = ground arith;
        affordable = ground arith;
        not_marginal = ground arith;
        rewarding = ground arith;
        result_eq = ground arith;
      }

  -- The steps of a run that raised nothing.
  pub record Passed (s : Setup F) (d : DecisionResult F) : Type 0 where
    pub context : Option (RangeContext F)
    pub k : Scored F
    pub priced : DecisionResult F
    pub voted : vote_block (is_range s.regime.regime) s.filter ≡ none
    pub range_eq : range_stage sum st e q candles s ≡ ok context
    pub side_open : side_block s.candidate s.regime.rules ≡ none
    pub scoring : Scoring s k
    pub pricing : Pricing s k context priced
    pub result_eq :
        d
        ≡ apply_policy priced
            (evaluate_active_entry (policy_decision e priced) q.symbol q.timeframe)

  pub decide_entry-Passed :
      (s : Setup F) {d : DecisionResult F} → decide_entry sum st e q candles s ≡ ok d → Passed s d
  unfolding decide_entry
  decide_entry-Passed s h =
      let neutral_at = λ (b : DecisionBlock). make_neutral s (b ∷ []) none in
      let (h0, r0) =
        stop_at_block-ok (vote_block (is_range s.regime.regime) s.filter) neutral_at _ h in
      let (context, h1, r1) = >>=-ok (range_stage sum st e q candles s) _ r0 in
      let (h2, r2) = stop_at_block-ok (side_block s.candidate s.regime.rules) neutral_at _ r1 in
      let (k, h3, r3) = >>=-ok (score sum st e q candles s) _ r2 in
      let (priced, h4, r4) = >>=-ok (price sum st e q candles s k context) _ r3 in
      record {
        context = context;
        k = k;
        priced = priced;
        voted = h0;
        range_eq = h1;
        side_open = h2;
        scoring = score-Scoring s h3;
        pricing = price-Pricing s k context h4;
        result_eq = sym (ok-injective r4);
      }
