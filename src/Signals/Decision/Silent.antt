-- ===== src/Signals/Decision/Silent.antt =====
-- live_trading/signals/decision_engine.py: SMC is diagnostic only.
use scalp_tn_aaa.Base.{
  ◌≡◌, ◌∙◌, sym, ap, refl, Bool, true, false, if◌then◌else◌, Option, none, some, List,
}
use scalp_tn_aaa.Base.Text.{Text, text_eq}
use scalp_tn_aaa.Base.Results.{Result, ok, err, raise_if, ◌>>=◌, ◌>>◌, ok-injective}
use scalp_tn_aaa.Float.{Float}
use scalp_tn_aaa.Entry.Policy.{Verdict, neutral, permitted, evaluate_active_entry}
use scalp_tn_aaa.Risk.Capital.{map_some}
use scalp_tn_aaa.Signals.Range.{RangeContext}
use scalp_tn_aaa.Signals.Quality.{Ohlcv}
use scalp_tn_aaa.Signals.Decision.{DecisionBlock, DecisionResult, Engines, Settings, Request}
use scalp_tn_aaa.Signals.Decision.Run.{
  Setup, Scored, stop_at_block, apply_policy, policy_decision, range_stage, score, price,
  decide_entry, setup_of, candidate, candidate_direction, result_of, undirected,
  run_decision_engine, trade_of,
}

module _ {F : Type 0} ⦃fl : Float F⦄ where
  -- A result without its mark for a false breakout.
  abbrev pub unmarked : DecisionResult F → DecisionResult F
  unmarked d = record d { quality_filter = record d.quality_filter { is_fake_breakout = false } }

  pub unmark :
      Result (Option (DecisionResult F)) (DecisionResult F)
      → Result (Option (DecisionResult F)) (DecisionResult F)
  unmark (ok d) = ok (unmarked d)
  unmark (err stopped) = err (map_some unmarked stopped)

  -- The engines with another answer of SMC.
  abbrev pub with_smc : Engines F → (Text → Bool) → Engines F
  with_smc e f = record e { smc_fake = f }

  unmark-stop :
      (o : Option DecisionBlock) (f g : DecisionBlock → DecisionResult F)
      (k l : Result (Option (DecisionResult F)) (DecisionResult F))
      → ((b : DecisionBlock) → unmarked (f b) ≡ unmarked (g b))
      → unmark k ≡ unmark l
      → unmark (stop_at_block o f >> k) ≡ unmark (stop_at_block o g >> l)
  unfolding unmark
  unmark-stop none f g k l p h = h
  unmark-stop (some b) f g k l p h = ap (λ x. err (some x)) (p b)

  unmark-raise :
      (t : Bool) (d d' : DecisionResult F)
      (k l : Result (Option (DecisionResult F)) (DecisionResult F))
      → unmarked d ≡ unmarked d'
      → unmark k ≡ unmark l
      → unmark (raise_if t (some d) >> k) ≡ unmark (raise_if t (some d') >> l)
  unfolding unmark
  unmark-raise true d d' k l p h = ap (λ x. err (some x)) p
  unmark-raise false d d' k l p h = h

  unmark-ok : (d d' : DecisionResult F) → unmarked d ≡ unmarked d' → unmark (ok d) ≡ unmark (ok d')
  unfolding unmark
  unmark-ok d d' p = ap ok p

  unmarked-result_of :
      (r : Result (Option (DecisionResult F)) (DecisionResult F))
      → map_some unmarked (result_of r) ≡ result_of (unmark r)
  unfolding unmark result_of
  unmarked-result_of (ok d) = refl
  unmarked-result_of (err stopped) = refl

  same_unmarked :
      (b : Bool) (d d' : DecisionResult F)
      (r r' : Result (Option (DecisionResult F)) (DecisionResult F))
      → unmarked d ≡ unmarked d'
      → unmark r ≡ unmark r'
      → map_some unmarked (if b then some d else result_of r)
        ≡ map_some unmarked (if b then some d' else result_of r')
  same_unmarked true d d' r r' p h = ap some p
  same_unmarked false d d' r r' p h =
      unmarked-result_of r ∙ ap result_of h ∙ sym (unmarked-result_of r')

  same_first :
      {A : Type 0} (m : Result (Option (DecisionResult F)) A)
      (f g : A → Result (Option (DecisionResult F)) (DecisionResult F))
      → ((a : A) → unmark (f a) ≡ unmark (g a))
      → unmark (m >>= f) ≡ unmark (m >>= g)
  same_first (ok a) f g h = h a
  same_first (err d) f g h = refl

  unmark-bind :
      {A : Type 0} (m m' : Result (Option (DecisionResult F)) A)
      (f g : A → Result (Option (DecisionResult F)) (DecisionResult F))
      → m ≡ m'
      → ((a : A) → unmark (f a) ≡ unmark (g a))
      → unmark (m >>= f) ≡ unmark (m' >>= g)
  unmark-bind m m' f g eq h = ap (λ x. unmark (x >>= f)) eq ∙ same_first m' f g h

  unmarked-apply_policy :
      (d : DecisionResult F) (v : Verdict)
      → unmarked (apply_policy d v) ≡ apply_policy (unmarked d) v
  unfolding apply_policy
  unmarked-apply_policy d permitted = refl
  unmarked-apply_policy d _ = refl

  -- The policy does not read the mark.
  unmarked-policy :
      (e : Engines F) (f : Text → Bool) (d d' : DecisionResult F) (symbol timeframe : Text)
      → unmarked d ≡ unmarked d'
      → unmarked (
          apply_policy d
            (evaluate_active_entry (policy_decision (with_smc e f) d) symbol timeframe))
        ≡ unmarked (apply_policy d' (evaluate_active_entry (policy_decision e d') symbol timeframe))
  unfolding policy_decision
  unmarked-policy e f d d' symbol timeframe h =
      let verdict =
        λ (x : DecisionResult F). evaluate_active_entry (policy_decision e x) symbol timeframe in
      unmarked-apply_policy d (verdict d)
      ∙ ap (λ (x : DecisionResult F). apply_policy x (verdict x)) h
      ∙ sym (unmarked-apply_policy d' (verdict d'))

  unmark-policy :
      (e : Engines F) (f : Text → Bool)
      (r r' : Result (Option (DecisionResult F)) (DecisionResult F)) (symbol timeframe : Text)
      → unmark r ≡ unmark r'
      → unmark (
          r >>= λ d. ok (
            apply_policy d
              (evaluate_active_entry (policy_decision (with_smc e f) d) symbol timeframe)))
        ≡ unmark (
            r' >>= λ d.
            ok (apply_policy d (evaluate_active_entry (policy_decision e d) symbol timeframe)))
  unfolding unmark
  unmark-policy e f (ok d) (ok d') symbol timeframe h =
      ap ok (unmarked-policy e f d d' symbol timeframe (ok-injective h))
  unmark-policy e f (ok d) (err d') symbol timeframe h = absurd (cc)
  unmark-policy e f (err d) (ok d') symbol timeframe h = absurd (cc)
  unmark-policy e f (err d) (err d') symbol timeframe h = h

  ruleset unmark_rules = (unmark-stop, unmark-raise, unmark-ok, refl)

  module _ (sum : List F → F) (st : Settings F) (e : Engines F) (f : Text → Bool) (q : Request F)
      (candles : List (Ohlcv F)) where
    setup_of-smc :
        (t : Text) → setup_of sum st (with_smc e f) q candles t ≡ setup_of sum st e q candles t
    unfolding setup_of
    setup_of-smc t = refl

    range_stage-smc :
        (s : Setup F)
        → range_stage sum st (with_smc e f) q candles s ≡ range_stage sum st e q candles s
    unfolding range_stage
    range_stage-smc s = refl

    score-smc : (s : Setup F) → score sum st (with_smc e f) q candles s ≡ score sum st e q candles s
    unfolding score
    score-smc s = refl

    price-smc :
        (s : Setup F) (k : Scored F) (c : Option (RangeContext F))
        → unmark (price sum st (with_smc e f) q candles s k c)
          ≡ unmark (price sum st e q candles s k c)
    unfolding price trade_of
    price-smc s k c = search (unmark_rules, unmark-bind) depth 12

    decide_entry-smc :
        (s : Setup F)
        → unmark (decide_entry sum st (with_smc e f) q candles s)
          ≡ unmark (decide_entry sum st e q candles s)
    unfolding decide_entry
    decide_entry-smc s =
        search (unmark_rules, unmark-bind, unmark-policy, range_stage-smc, score-smc, price-smc)
          depth 9

    -- SMC takes no part in a decision: whatever its detector of false breakouts answers, the run gives
    -- the same result, but for the mark that the quality record keeps of it, or raises as well.
    pub smc_is_diagnostic :
        map_some unmarked (run_decision_engine sum st (with_smc e f) q candles)
        ≡ map_some unmarked (run_decision_engine sum st e q candles)
    unfolding run_decision_engine candidate_direction
    smc_is_diagnostic =
        let chosen = candidate sum st e q candles in
        let direct = undirected sum st e q candles in
        same_unmarked (text_eq chosen neutral) direct direct
          (decide_entry sum st (with_smc e f) q candles
            (setup_of sum st (with_smc e f) q candles chosen))
          (decide_entry sum st e q candles (setup_of sum st e q candles chosen)) refl
          (ap (λ s. unmark (decide_entry sum st (with_smc e f) q candles s)) (setup_of-smc chosen)
            ∙ decide_entry-smc (setup_of sum st e q candles chosen))
