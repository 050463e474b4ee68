-- ===== src/Signals/Decision/Run.antt =====
-- live_trading/signals/decision_engine.py: `run_decision_engine`. A step that stops the run raises
-- the blocked result, and an exception that leaves the run is raised as `none`; there is at least
-- one candle, as the engines want.
use scalp_tn_aaa.Base.{
  ℕ, Bool, true, false, not, ◌&&◌, ◌||◌, Option, none, some, List, [], ◌∷◌, ◌++◌, map,
  if◌then◌else◌, last_at,
}
use scalp_tn_aaa.Base.Int.{pos}
use scalp_tn_aaa.Base.Text.{Text, codes, text_eq}
use scalp_tn_aaa.Base.Results.{Result, ok, err, raise_if, ◌>>=◌, ◌>>◌}
use scalp_tn_aaa.Float.{Float, nought, gt}
use scalp_tn_aaa.Entry.Policy.{
  Decision, Verdict, permitted, buy, neutral, is_side, evaluate_active_entry,
}
use scalp_tn_aaa.Risk.Capital.{CapitalOutput, calc_trade_parameters}
use scalp_tn_aaa.Signals.Regime.{
  Regime, range, RegimeResult, regime_key, regime_rules, detect_market_regime,
}
use scalp_tn_aaa.Signals.Mtf.{side_text}
use scalp_tn_aaa.Signals.Filter.{
  FilterInput, EntryFilterResult, apply_entry_filter, select_independent_direction,
}
use scalp_tn_aaa.Signals.Range.{
  RangeContext, breakout_blocked, breakout_accepted, evaluate_range_entry,
}
use scalp_tn_aaa.Signals.Confidence.{ConfidenceResult, marginal, rejected, calc_confidence}
use scalp_tn_aaa.Signals.Quality.{
  Ohlcv, Session, prime_session, moderate_session, blocked_session, QualityFilterResult,
  get_session_quality, hour_of, candle_of, last_or, apply_quality_filter,
}
use scalp_tn_aaa.Signals.Decision.{
  DecisionBlock, DecisionResult, QualityStage, Engines, Settings, Request, is_range, trend_name,
  floor_of, larger, effective_min_confirmations, vote_block, side_block, policy_pa, policy_block,
  range_trend_breakout_block_reason, entry_breakout_block_reason, pa_fake_breakout,
  protective_sl_atr_multiplier, protective_atr, stage_of, blocked_stage, no_components,
  no_unique_direction, range_disabled, confidence_below_minimum, quality_block, unsafe_stop,
  min_lot_over_cap, marginal_rr, rr_below_minimum,
}

abbrev pub session_text : Session → Text
session_text prime_session = codes "PRIME"
session_text moderate_session = codes "MODERATE"
session_text blocked_session = codes "BLOCKED"

abbrev pub is_permitted : Verdict → Bool
is_permitted permitted = true
is_permitted _ = false

-- A guard that gives a reason stops the run.
abbrev pub stop_at_block :
    {R : Type 0} → Option DecisionBlock → (DecisionBlock → R) → Result (Option R) (Unit {0})
stop_at_block none f = ok tt
stop_at_block (some b) f = err (some (f b))

-- An exception of a step, which nothing catches.
abbrev pub or_exception : {R A : Type 0} → Option A → Result (Option R) A
or_exception none = err none
or_exception (some a) = ok a

-- What is known of a candidate when the votes are counted.
pub record Setup (F : Type 0) : Type 0 where
  pub candidate : Text
  pub regime : RegimeResult F
  pub effective : ℕ
  pub filter : EntryFilterResult
  pub session : Session

-- The score and the quality that the setup has got.
pub record Scored (F : Type 0) : Type 0 where
  pub conf : ConfidenceResult F
  pub quality : QualityFilterResult F

module _ {F : Type 0} ⦃fl : Float F⦄ where
  -- `CONF_MARGINAL_RR` and `FIXED_TP_RR`.
  abbrev pub conf_marginal_rr : F
  conf_marginal_rr = fl.lit 13 10

  abbrev pub fixed_tp_rr : F
  fixed_tp_rr = fl.lit 2 1

  -- The engines' votes, as the entry filter reads them; SMC has none.
  abbrev pub filter_input : Engines F → Bool → F → Bool → F → ℕ → FilterInput F
  filter_input e pa_standalone pa_min trend_standalone trend_min confirmations = record {
    smc_signal = neutral;
    ema_trend = trend_name e.trend;
    pa_signal = e.pa.pa_signal;
    wyckoff_signal = e.wyckoff.wyckoff_signal;
    min_confirmations = pos confirmations;
    price_action_standalone = pa_standalone;
    trend_score = some e.trend_score;
    trend_standalone = trend_standalone;
    trend_standalone_min_score = trend_min;
    pa_score = some e.pa.pa_score;
    pa_standalone_min_score = pa_min;
  }

  abbrev pub make_neutral :
      Setup F → List DecisionBlock → Option (RangeContext F) → DecisionResult F
  make_neutral s reasons range_context = record {
    allowed = false;
    direction = if is_side s.candidate then s.candidate else neutral;
    confidence = nought;
    components = no_components;
    grade = rejected;
    regime = s.regime.regime;
    regime_rules = s.regime.rules;
    quality_filter = blocked_stage reasons s.session s.regime.adx false;
    blocked_reasons = reasons;
    trade_params = none;
    entry_filter = some s.filter;
    divergence = none;
    range_context = range_context;
    effective_min_confirmations = none;
    regime_strength = none;
    minimum_rr = none;
  }

  -- A blocked result once there is a score.
  abbrev pub blocked_result :
      Setup F → ConfidenceResult F → QualityStage F → List DecisionBlock → DecisionResult F
  blocked_result s conf quality reasons = record {
    allowed = false;
    direction = s.candidate;
    confidence = conf.confidence;
    components = conf.components;
    grade = conf.grade;
    regime = s.regime.regime;
    regime_rules = s.regime.rules;
    quality_filter = quality;
    blocked_reasons = reasons;
    trade_params = none;
    entry_filter = some s.filter;
    divergence = none;
    range_context = none;
    effective_min_confirmations = none;
    regime_strength = none;
    minimum_rr = none;
  }

  -- What the active entry policy reads of a result.
  unfoldable pub policy_decision : Engines F → DecisionResult F → Decision F
  policy_decision e d = record {
    allowed = d.allowed;
    regime = regime_key d.regime;
    direction = d.direction;
    trend = some (trend_name e.trend);
    entry_filter = elim d.entry_filter [
      | none ↦ none
      | some ef ↦ some (record { trend = ef.trend; price_action = ef.price_action })
    ];
    pa = some (policy_pa e.pa);
    adx = some d.quality_filter.adx;
  }

  unfoldable pub apply_policy : DecisionResult F → Verdict → DecisionResult F
  apply_policy d v =
      if is_permitted v
      then d
      else record d { allowed = false; blocked_reasons = policy_block v ∷ []; trade_params = none }

  unfoldable pub result_of :
      Result (Option (DecisionResult F)) (DecisionResult F) → Option (DecisionResult F)
  result_of (ok d) = some d
  result_of (err stopped) = stopped

  module _ (sum : List F → F) (st : Settings F) (e : Engines F) (q : Request F)
      (candles : List (Ohlcv F)) where
    unfoldable pub candidate_direction : Bool → F → Bool → F → Text
    candidate_direction pa_standalone pa_min trend_standalone trend_min =
        select_independent_direction st.pa_standalone_min_score (side_text e.trend) e.pa.pa_signal
          (filter_input e pa_standalone pa_min trend_standalone trend_min 1)

    abbrev pub candidate : Text
    candidate =
        candidate_direction q.price_action_standalone q.pa_standalone_min_score q.trend_standalone
          q.trend_standalone_min_score

    -- The result where no engine gives a direction: it names the one that the default settings give.
    abbrev pub undirected : DecisionResult F
    undirected =
        let chosen =
          candidate_direction false st.pa_standalone_min_score st.trend_standalone
            st.trend_standalone_min_score in
        let reasons = no_unique_direction ∷ [] in
        record {
          allowed = false;
          direction = if is_side chosen then chosen else neutral;
          confidence = nought;
          components = no_components;
          grade = rejected;
          regime = range;
          regime_rules = regime_rules st.normal_confidence st.ranging_confidence range;
          quality_filter = blocked_stage reasons blocked_session nought false;
          blocked_reasons = reasons;
          trade_params = none;
          entry_filter = none;
          divergence = none;
          range_context = none;
          effective_min_confirmations = none;
          regime_strength = none;
          minimum_rr = none;
        }

    abbrev pub confirmations_for : Regime → ℕ
    confirmations_for regime =
        let local =
          effective_min_confirmations q.min_confirmations regime q.range_min_confirmations
            q.range_weak_min_confirmations e.strength in
        floor_of (pos (larger local local)) (if is_range regime then 1 else 2)

    unfoldable pub setup_of : Text → Setup F
    setup_of candidate =
        let regime = detect_market_regime sum st.normal_confidence st.ranging_confidence (record {
          candles = map candle_of candles;
          trend = e.trend;
          strength = e.strength;
          phase = e.phase;
          use_atr_high_vol = q.use_atr_high_vol;
        }) in
        let effective = confirmations_for regime.regime in
        record {
          candidate = candidate;
          regime = regime;
          effective = effective;
          filter = apply_entry_filter st.pa_standalone_min_score (
              filter_input e q.price_action_standalone q.pa_standalone_min_score q.trend_standalone
                q.trend_standalone_min_score effective);
          session = get_session_quality (hour_of (last_at 1 candles));
        }

    unfoldable pub range_stage :
        Setup F → Result (Option (DecisionResult F)) (Option (RangeContext F))
    range_stage s = if not (is_range s.regime.regime) then ok none else do
      raise_if (not q.range_trading_enabled) (some (make_neutral s (range_disabled ∷ []) none))
      let context = evaluate_range_entry sum (map candle_of candles) e.pa (record {
        direction = s.candidate;
        confirmation_count = s.filter.confirmation_count;
        min_confirmations = s.effective;
        lookback = 20;
        edge_atr_distance = q.range_edge_atr_distance;
        strict_filters = q.range_entry_filters_enabled;
        require_edge_position = q.range_require_edge_position;
      })
      stop_at_block (range_trend_breakout_block_reason s.candidate e.trend e.pa s.filter) (λ b.
          make_neutral s (b ∷ []) (
            some
              (record context { valid = false; direction = neutral; reason = breakout_blocked })))
      ok (
          some
            (record context { valid = true; direction = s.candidate; reason = breakout_accepted }))

    abbrev pub confidence_of : Setup F → ConfidenceResult F
    confidence_of s = calc_confidence st.conf_hard_min (record {
      wyckoff = e.wyckoff;
      pa = e.pa;
      trend = e.trend;
      strength = e.strength;
      regime = s.regime;
      session = session_text s.session;
      candidate = s.candidate;
      divergence_signal = e.divergence_signal;
      price_action_standalone = q.price_action_standalone;
      candles = map candle_of candles;
    })

    abbrev pub unlikely : Setup F → ConfidenceResult F → DecisionResult F
    unlikely s conf =
        record (blocked_result s conf
          (blocked_stage (confidence_below_minimum ∷ []) s.session s.regime.adx true)
          (confidence_below_minimum ∷ [])) { grade = rejected }

    abbrev pub poor : Setup F → ConfidenceResult F → QualityFilterResult F → DecisionResult F
    poor s conf quality =
        blocked_result s conf (stage_of quality false) (map quality_block quality.blocked_reasons)

    -- The result of a block behind the quality filter.
    abbrev pub blocked_after_quality :
        Setup F
        → Scored F
        → Option (RangeContext F)
        → QualityStage F
        → DecisionBlock
        → DecisionResult F
    blocked_after_quality s k context stage reason =
        record (blocked_result s k.conf
          (record stage {
            allowed = false;
            blocked_reasons = stage.blocked_reasons ++ (reason ∷ []);
          })
          (reason ∷ [])) {
            divergence = some e.divergence_signal;
            range_context = context;
            effective_min_confirmations = some s.effective;
            regime_strength = some e.strength;
          }

    unfoldable pub score : Setup F → Result (Option (DecisionResult F)) (Scored F)
    score s = do
      let conf = confidence_of s
      raise_if (fl.lt conf.confidence st.conf_hard_min) (some (unlikely s conf))
      let quality =
          apply_quality_filter sum
            (record { quality_adx_min = st.quality_adx_min; conf_hard_min = st.conf_hard_min })
            candles conf.confidence (some s.regime.adx)
      raise_if (not quality.allowed) (some (poor s conf quality))
      ok (record { conf = conf; quality = quality })

    abbrev pub entry_price : F
    entry_price = last_or nought (map (λ c. c.close) candles)

    abbrev pub level_below : Option (RangeContext F) → Option F
    level_below none = none
    level_below (some c) = if fl.lt c.support entry_price then some c.support else none

    abbrev pub level_above : Option (RangeContext F) → Option F
    level_above none = none
    level_above (some c) = if gt c.resistance entry_price then some c.resistance else none

    abbrev pub risk_of : Bool → Option F → F
    risk_of true (some percent) = percent
    risk_of _ _ = q.risk_percent

    unfoldable pub trade_of : Setup F → Option (RangeContext F) → Option (CapitalOutput F)
    trade_of s context = calc_trade_parameters (record {
      direction = s.candidate;
      entry_price = entry_price;
      atr = protective_atr q.sl_atr s.regime.atr;
      account_balance = q.account_balance;
      risk_percent = risk_of (is_range s.regime.regime) q.range_risk_percent;
      take_profit_rr = if is_range s.regime.regime then q.range_min_rr else fixed_tp_rr;
      take_profit_level =
          if text_eq s.candidate buy then level_above context else level_below context;
      order_block_top = none;
      order_block_bottom = none;
      swing_high = none;
      swing_low = none;
      resistance_level = level_above context;
      support_level = level_below context;
      sl_atr_multiplier =
          protective_sl_atr_multiplier s.regime q.sl_atr_multiplier q.low_volatility_sl_atr_add;
      sl_min_atr_multiplier = st.sl_min_atr_multiplier;
      structure_buffer_atr = st.sl_structure_buffer_atr;
    })

    abbrev pub required_rr : Setup F → F
    required_rr s = if is_range s.regime.regime then q.range_min_rr else s.regime.rules.min_rr

    abbrev pub is_marginal : Setup F → Scored F → F → Bool
    is_marginal s k rr =
        fl.lt k.conf.confidence s.regime.rules.min_confidence && fl.lt rr conf_marginal_rr

    abbrev pub entry_result :
        Setup F
        → Scored F
        → Option (RangeContext F)
        → QualityStage F
        → CapitalOutput F
        → DecisionResult F
    entry_result s k context stage p = record (blocked_result s k.conf stage []) {
      allowed = true;
      trade_params = some p;
      divergence = some e.divergence_signal;
      range_context = context;
      effective_min_confirmations = some s.effective;
      regime_strength = some e.strength;
      minimum_rr = some (required_rr s);
    }

    unfoldable pub price :
        Setup F
        → Scored F
        → Option (RangeContext F)
        → Result (Option (DecisionResult F)) (DecisionResult F)
    price s k context = do
      let stage = stage_of k.quality (e.smc_fake s.candidate || pa_fake_breakout s.candidate e.pa)
      let told = λ (d : DecisionResult F). record d {
        divergence = some e.divergence_signal;
        range_context = context;
      }
      stop_at_block (entry_breakout_block_reason s.candidate e.pa e.breakout_overextended)
          (blocked_after_quality s k context stage)
      p ← or_exception (trade_of s context)
      raise_if (not p.stop_loss_valid)
          (some (told (blocked_result s k.conf stage (unsafe_stop ∷ []))))
      raise_if p.min_lot_risk_exceeded (
          some (record (told (blocked_result s k.conf stage (min_lot_over_cap ∷ []))) {
            trade_params = some p;
          }))
      raise_if (is_marginal s k p.risk_reward_ratio)
          (some (record (blocked_result s k.conf stage (marginal_rr ∷ [])) { grade = marginal }))
      raise_if (fl.lt p.risk_reward_ratio (required_rr s))
          (some (blocked_result s k.conf stage (rr_below_minimum ∷ [])))
      ok (entry_result s k context stage p)

    unfoldable pub decide_entry : Setup F → Result (Option (DecisionResult F)) (DecisionResult F)
    decide_entry s = do
      stop_at_block (vote_block (is_range s.regime.regime) s.filter)
          (λ b. make_neutral s (b ∷ []) none)
      context ← range_stage s
      stop_at_block (side_block s.candidate s.regime.rules) (λ b. make_neutral s (b ∷ []) none)
      k ← score s
      d ← price s k context
      ok (apply_policy d (evaluate_active_entry (policy_decision e d) q.symbol q.timeframe))

    unfoldable pub run_decision_engine : Option (DecisionResult F)
    run_decision_engine =
        if text_eq candidate neutral
        then some undirected
        else result_of (decide_entry (setup_of candidate))
