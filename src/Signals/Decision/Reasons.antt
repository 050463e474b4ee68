-- ===== src/Signals/Decision/Reasons.antt =====
-- live_trading/signals/decision_engine.py: a decision and its reasons, and what no reason comes from.
use mathlib.Core.Path.{subst}
use scalp_tn_aaa.Base.{◌≡◌, ◌↔◌, ◌∙◌, sym, ap, inl, inr, refl, true, false, some, List, []}
use scalp_tn_aaa.Float.{Float}
use scalp_tn_aaa.Entry.Policy.{Verdict, permitted, evaluate_active_entry}
use scalp_tn_aaa.Signals.Quality.{Ohlcv}
use scalp_tn_aaa.Signals.Decision.{DecisionBlock, DecisionResult, Engines, Settings, Request}
use scalp_tn_aaa.Signals.Decision.Run.{Setup, apply_policy, policy_decision, run_decision_engine}
use scalp_tn_aaa.Signals.Decision.Steps.{Passed}
use scalp_tn_aaa.Signals.Decision.Refused.{IsRefused, is_empty}
use scalp_tn_aaa.Signals.Decision.Authorised.{entry_at, setup, run_cases}

has_reasons : (bs : List DecisionBlock) → is_empty bs ≡ false → bs ≡ [] → true ≡ false
has_reasons bs h e = sym (ap is_empty e) ∙ h

module _ {F : Type 0} ⦃fl : Float F⦄ where
  abbrev pub IsUnopposed : DecisionResult F → Type 0
  IsUnopposed d = (d.allowed ≡ true) ↔ (d.blocked_reasons ≡ [])

  refused_reasons : (d : DecisionResult F) → IsRefused d → IsUnopposed d
  refused_reasons d (refused, told) = (
    (λ h. absurd (cc)),
    (λ none_told. absurd (cc (has_reasons d.blocked_reasons told none_told))),
  )

  applied_reasons :
      (d : DecisionResult F) (v : Verdict)
      → d.allowed ≡ true
      → d.blocked_reasons ≡ []
      → IsUnopposed (apply_policy d v)
  unfolding apply_policy
  applied_reasons d permitted h k = (λ _. k, λ _. h)
  applied_reasons d _ h k = (λ x. absurd (cc), λ x. absurd (cc))

  module _ (sum : List F → F) (st : Settings F) (e : Engines F) (q : Request F)
      (candles : List (Ohlcv F)) where
    completed_reasons :
        (s : Setup F) (d : DecisionResult F) → Passed sum st e q candles s d → IsUnopposed d
    completed_reasons s d p =
        let verdict = λ (r : DecisionResult F).
          evaluate_active_entry (policy_decision e r) q.symbol q.timeframe in
        let r = entry_at sum st e q candles s p.k p.context p.pricing.trade in
        let eq =
          p.result_eq
          ∙ ap (λ (x : DecisionResult F). apply_policy x (verdict x)) p.pricing.result_eq in
        subst (λ x. IsUnopposed x) (sym eq) (applied_reasons r (verdict r) refl refl)

    -- A decision that a run gives is allowed exactly when it names no reason against the entry.
    pub allowed_iff_unopposed :
        {d : DecisionResult F}
        → run_decision_engine sum st e q candles ≡ some d
        → (d.allowed ≡ true) ↔ (d.blocked_reasons ≡ [])
    allowed_iff_unopposed {d} run = elim (run_cases sum st e q candles run) [
      | inl refused ↦ refused_reasons d refused
      | inr p ↦ completed_reasons (setup sum st e q candles) d p
    ]
