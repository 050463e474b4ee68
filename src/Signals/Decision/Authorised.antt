-- ===== src/Signals/Decision/Authorised.antt =====
-- live_trading/signals/decision_engine.py: what an allowed decision has passed.
use mathlib.Core.Path.{subst}
use scalp_tn_aaa.Base.{
  ◌≡◌, ◌⊎◌, inl, inr, refl, sym, ap, ◌∙◌, Bool, true, false, ◌&&◌, ◌||◌, ltb, some-injective,
  Option, none, some, List, arith, if◌then◌else◌,
}
use scalp_tn_aaa.Base.Text.{Text, text_eq, text_eq_iff, upper}
use scalp_tn_aaa.Base.Results.{Result, ok, err, Raises}
use scalp_tn_aaa.Float.{Float}
use scalp_tn_aaa.Entry.Policy.{Verdict, permitted, buy, sell, neutral, evaluate_active_entry}
use scalp_tn_aaa.Risk.Capital.{CapitalOutput}
use scalp_tn_aaa.Signals.Range.{RangeContext}
use scalp_tn_aaa.Signals.Regime.{RegimeEntryRules}
use scalp_tn_aaa.Signals.Quality.{Ohlcv}
use scalp_tn_aaa.Signals.Decision.{
  DecisionResult, side_block, vote_block, is_range, Engines, Settings, Request,
}
use scalp_tn_aaa.Signals.Decision.Run.{
  Setup, range_stage, required_rr, entry_result, conf_marginal_rr, apply_policy, policy_decision,
  Scored, undirected, decide_entry, setup_of, candidate, result_of, run_decision_engine,
}
use scalp_tn_aaa.Signals.Filter.{EntryFilterResult}
use scalp_tn_aaa.Signals.Decision.Gates.{
  IsBreakout, unblocked-IsBreakout, range_stage-none, IsClean, unblocked-IsClean,
}
use scalp_tn_aaa.Signals.Decision.Steps.{stage_at, Passed, Pricing, Scoring, decide_entry-Passed}
use scalp_tn_aaa.Signals.Decision.Refused.{IsRefused, IsStop, decide_entry-Refused}

side_block-none :
    {F : Type 0} (candidate : Text) (rules : RegimeEntryRules F)
    → side_block candidate rules ≡ none
    → (candidate ≡ buy → rules.allow_long ≡ true) × (candidate ≡ sell → rules.allow_short ≡ true)
unfolding side_block
side_block-none candidate rules h = (
  (λ eq. ground (arith, text_eq_iff candidate buy)),
  (λ eq. ground (arith, text_eq_iff candidate sell, text_eq_iff candidate buy)),
)

consensus_of : (ef : EntryFilterResult) → vote_block false ef ≡ none → ef.allowed ≡ true
unfolding vote_block
consensus_of ef h = ground arith

range_vote_of :
    (ef : EntryFilterResult)
    → vote_block true ef ≡ none
    → (ef.trend || ef.price_action ≡ true) × (ltb ef.confirmation_count 1 ≡ false)
unfolding vote_block
range_vote_of ef h = (ground arith, ground arith)

module _ {F : Type 0} ⦃fl : Float F⦄ where
  result_cases :
      (P : DecisionResult F → Type 0) (r : Result (Option (DecisionResult F)) (DecisionResult F))
      {d : DecisionResult F}
      → Raises IsStop r
      → ((x : DecisionResult F) → r ≡ ok x → P x)
      → result_of r ≡ some d
      → IsRefused d ⊎ P d
  unfolding result_of Raises
  result_cases P (ok x) refused passed e = inr (subst P (some-injective e) (passed x refl))
  result_cases P (err (some x)) refused passed e =
      inl (subst (λ y. IsRefused y) (some-injective e) refused)
  result_cases P (err none) refused passed e = absurd (cc)

  either :
      (P : DecisionResult F → Type 0) (b : Bool) (x : DecisionResult F)
      (o : Option (DecisionResult F)) {d : DecisionResult F}
      → IsRefused x
      → (o ≡ some d → IsRefused d ⊎ P d)
      → (if b then some x else o) ≡ some d
      → IsRefused d ⊎ P d
  either P true x o refused rest e = inl (subst (λ y. IsRefused y) (some-injective e) refused)
  either P false x o refused rest e = rest e

  -- The policy leaves what it permits as it is.
  applied :
      (d : DecisionResult F) (v : Verdict)
      → (apply_policy d v).allowed ≡ true
      → d.allowed ≡ true
      → (v ≡ permitted) × (apply_policy d v ≡ d)
  unfolding apply_policy
  applied d permitted h k = (refl, refl)
  applied d _ h k = absurd (ground arith)

  permitted_result :
      (f : DecisionResult F → Verdict) (priced r d : DecisionResult F)
      → priced ≡ r
      → r.allowed ≡ true
      → d ≡ apply_policy priced (f priced)
      → d.allowed ≡ true
      → (f r ≡ permitted) × (d ≡ r)
  permitted_result f priced r d same k eq h =
      let final = eq ∙ ap (λ (x : DecisionResult F). apply_policy x (f x)) same in
      let allowed = sym (ap (λ (x : DecisionResult F). x.allowed) final) ∙ h in
      let (v, kept) = applied r (f r) allowed k in (v, final ∙ kept)

  module _ (sum : List F → F) (st : Settings F) (e : Engines F) (q : Request F)
      (candles : List (Ohlcv F)) where
    abbrev pub entry_at :
        Setup F → Scored F → Option (RangeContext F) → CapitalOutput F → DecisionResult F
    entry_at s k c trade =
        entry_result sum st e q candles s k c (stage_at sum st e q candles s k) trade

    abbrev pub setup : Setup F
    setup = setup_of sum st e q candles (candidate sum st e q candles)

    -- A run that gives a result is refused, or has passed every step.
    pub run_cases :
        {d : DecisionResult F}
        → run_decision_engine sum st e q candles ≡ some d
        → IsRefused d ⊎ Passed sum st e q candles setup d
    unfolding run_decision_engine
    run_cases =
        either (Passed sum st e q candles setup) (text_eq (candidate sum st e q candles) neutral)
          (undirected sum st e q candles) (result_of (decide_entry sum st e q candles setup))
          (refl, refl)
          (result_cases (Passed sum st e q candles setup) (decide_entry sum st e q candles setup)
            (decide_entry-Refused sum st e q candles setup)
            (λ d h. decide_entry-Passed sum st e q candles setup h))

    -- The gates that stand before an order.
    pub record IsAuthorised (d : DecisionResult F) : Type 0 where
      pub permitted_eq :
          evaluate_active_entry (policy_decision e d) q.symbol q.timeframe ≡ permitted
      pub long_open : d.direction ≡ buy → d.regime_rules.allow_long ≡ true
      pub short_open : d.direction ≡ sell → d.regime_rules.allow_short ≡ true
      -- The entry filter's result, and the votes that it counts.
      pub ef : EntryFilterResult
      pub ef_eq : d.entry_filter ≡ some ef
      pub consensus : is_range d.regime ≡ false → ef.allowed ≡ true
      pub range_vote :
          is_range d.regime ≡ true
          → (ef.trend || ef.price_action ≡ true) × (ltb ef.confirmation_count 1 ≡ false)
      -- In a range.
      pub range_enabled : is_range d.regime ≡ true → q.range_trading_enabled ≡ true
      pub range_breakout : is_range d.regime ≡ true → IsBreakout e.trend e.pa d.direction
      -- No false breakout, no overextended one, and no entry into a level without an event behind it.
      pub clean : IsClean e.pa e.breakout_overextended (upper d.direction)
      pub likely : fl.lt d.confidence st.conf_hard_min ≡ false
      pub good : d.quality_filter.allowed ≡ true
      pub trade : CapitalOutput F
      pub trade_eq : d.trade_params ≡ some trade
      pub stop_valid : trade.stop_loss_valid ≡ true
      pub affordable : trade.min_lot_risk_exceeded ≡ false
      pub least_rr : F
      pub least_rr_eq : d.minimum_rr ≡ some least_rr
      pub rewarding : fl.lt trade.risk_reward_ratio least_rr ≡ false
      pub not_marginal :
          (fl.lt d.confidence d.regime_rules.min_confidence
            && fl.lt trade.risk_reward_ratio conf_marginal_rr)
          ≡ false

    entry-IsAuthorised :
        (s : Setup F) (k : Scored F) (c : Option (RangeContext F)) (d : DecisionResult F)
        (p : Pricing sum st e q candles s k c d)
        → Scoring sum st e q candles s k
        → side_block s.candidate s.regime.rules ≡ none
        → evaluate_active_entry (policy_decision e (entry_at s k c p.trade)) q.symbol q.timeframe
          ≡ permitted
        → vote_block (is_range s.regime.regime) s.filter ≡ none
        → range_stage sum st e q candles s ≡ ok c
        → IsAuthorised (entry_at s k c p.trade)
    entry-IsAuthorised s k c d p scoring side v vote staged = record {
      permitted_eq = v;
      long_open = (side_block-none s.candidate s.regime.rules side).0;
      short_open = (side_block-none s.candidate s.regime.rules side).1;
      ef = s.filter;
      ef_eq = refl;
      consensus =
          λ outside. consensus_of s.filter (subst (λ b. vote_block b s.filter ≡ none) outside vote);
      range_vote =
          λ inside. range_vote_of s.filter (subst (λ b. vote_block b s.filter ≡ none) inside vote);
      range_enabled = λ inside. (range_stage-none sum st e q candles s c inside staged).1;
      range_breakout = λ inside.
          unblocked-IsBreakout s.candidate e.trend e.pa s.filter
            (range_stage-none sum st e q candles s c inside staged).0;
      clean = unblocked-IsClean s.candidate e.pa e.breakout_overextended p.clean_breakout;
      likely = scoring.likely;
      good = scoring.good;
      trade = p.trade;
      trade_eq = refl;
      stop_valid = p.stop_valid;
      affordable = p.affordable;
      least_rr = required_rr sum st e q candles s;
      least_rr_eq = refl;
      rewarding = p.rewarding;
      not_marginal = p.not_marginal;
    }

    -- An allowed result is the entry that the policy permits.
    pub allowed_result_eq :
        (s : Setup F) (d : DecisionResult F) (p : Passed sum st e q candles s d)
        → d.allowed ≡ true
        → (evaluate_active_entry
              (policy_decision e (entry_at s p.k p.context p.pricing.trade))
              q.symbol
              q.timeframe
            ≡ permitted)
          × (d ≡ entry_at s p.k p.context p.pricing.trade)
    allowed_result_eq s d p h =
        permitted_result (λ r. evaluate_active_entry (policy_decision e r) q.symbol q.timeframe)
          p.priced (entry_at s p.k p.context p.pricing.trade) d p.pricing.result_eq refl p.result_eq
          h

    -- An allowed decision has passed every gate of the run: the entry filter's vote, in a range that
    -- range trading is on and a structural event of Price Action is backed by the trend, that the
    -- regime is open to its side, that its confidence is not below the hard minimum, the quality
    -- filter, that the breakout is neither false nor overextended and the entry does not run into a
    -- level; it carries a trade whose stop is valid, whose risk the smallest lot does not exceed, and
    -- whose reward for the risk is below neither the minimum of its regime nor, where the confidence
    -- is below the regime's, the marginal 1.3; and the active entry policy permits it.
    pub allowed_decision-IsAuthorised :
        {d : DecisionResult F}
        → run_decision_engine sum st e q candles ≡ some d
        → d.allowed ≡ true
        → IsAuthorised d
    allowed_decision-IsAuthorised {d} run h = elim (run_cases run) [
      | inl refused ↦ absurd (ground arith)
      | inr p ↦
          let (v, eq) = allowed_result_eq setup d p h in
          subst (λ x. IsAuthorised x) (sym eq)
            (entry-IsAuthorised setup p.k p.context p.priced p.pricing p.scoring p.side_open v
              p.voted p.range_eq)
    ]
