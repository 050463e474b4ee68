-- ===== src/Risk/Aggregate/Spec/Build.antt =====
-- `build_symbol_risk_spec` itself.
use scalp_tn_aaa.Base.{Option, none, some, List, [], ◌∷◌}
use scalp_tn_aaa.Base.Text.{Text, codes, strip, upper, is_empty}
use scalp_tn_aaa.Base.Results.{Result, ok, err, ◌>>=◌, ◌>>◌, raise_if}
use scalp_tn_aaa.Float.{Float}
use scalp_tn_aaa.Float.Values.{get, null}
use scalp_tn_aaa.Risk.Aggregate.{
  RiskError, SymbolRiskSpec, metadata_unavailable, currency_unavailable, volume_units_error,
  tick_size_unavailable, constraint_insane, maximum_below_minimum,
}
use scalp_tn_aaa.Risk.Aggregate.Spec.{
  SymbolParams, mappings, is_text, is_true, is_matched, currency_of, positive_number, volume_scale,
  volume_constraint, is_insane, or_raise, symbol_of, tick_value_of,
}

abbrev pub tick_size_keys : List Text
tick_size_keys =
    codes "tickSize" ∷ codes "tick_size" ∷ codes "tradeTickSize" ∷ codes "trade_tick_size" ∷ []

abbrev pub tick_value_keys : List Text
tick_value_keys =
    codes "tradeTickValueLoss"
    ∷ codes "trade_tick_value_loss"
    ∷ codes "tickValueLoss"
    ∷ codes "tick_value_loss"
    ∷ codes "tradeTickValue"
    ∷ codes "trade_tick_value"
    ∷ codes "tickValue"
    ∷ codes "tick_value"
    ∷ []

abbrev pub tick_currency_keys : List Text
tick_currency_keys =
    codes "tickValueCurrency"
    ∷ codes "tick_value_currency"
    ∷ codes "tradeTickValueCurrency"
    ∷ codes "trade_tick_value_currency"
    ∷ []

abbrev pub contract_size_keys : List Text
contract_size_keys = codes "contractSize" ∷ codes "contract_size" ∷ codes "tradeContractSize" ∷ []

abbrev pub profit_currency_keys : List Text
profit_currency_keys =
    codes "currencyProfit"
    ∷ codes "currency_profit"
    ∷ codes "profitCurrency"
    ∷ codes "profit_currency"
    ∷ []

abbrev pub volume_min_keys : List Text
volume_min_keys =
    codes "volumeMin" ∷ codes "volume_min" ∷ codes "minVolume" ∷ codes "min_volume" ∷ []

abbrev pub volume_step_keys : List Text
volume_step_keys =
    codes "volumeStep"
    ∷ codes "volume_step"
    ∷ codes "volumeIncrement"
    ∷ codes "volume_increment"
    ∷ []

abbrev pub volume_max_keys : List Text
volume_max_keys =
    codes "volumeMax" ∷ codes "volume_max" ∷ codes "maxVolume" ∷ codes "max_volume" ∷ []

-- The economics of one tick.
pub record TickEconomics (F : Type 0) : Type 0 where
  pub tick_size : F
  pub tick_value : F
  pub contract_size : Option F

-- The broker's volume limits in lots.
pub record VolumeLimits (F : Type 0) : Type 0 where
  pub volume_min : F
  pub volume_step : F
  pub volume_max : F

module _ {F : Type 0} ⦃fl : Float F⦄ (parse : Text → Option F) where
  unfoldable pub tick_economics : SymbolParams F → Text → Result RiskError (TickEconomics F)
  tick_economics p account_ccy = do
    let ms = mappings p
    let contract_size = positive_number parse ms contract_size_keys
    let matched = is_matched (currency_of ms profit_currency_keys) account_ccy (symbol_of p)
    tick_size ← or_raise (positive_number parse ms tick_size_keys) tick_size_unavailable
    tick_value ←
        tick_value_of (positive_number parse ms tick_value_keys) (currency_of ms tick_currency_keys)
          account_ccy matched tick_size contract_size
    ok record { tick_size = tick_size; tick_value = tick_value; contract_size = contract_size }

  unfoldable pub volume_limits : SymbolParams F → F → Result RiskError (VolumeLimits F)
  volume_limits p scale = do
    let ms = mappings p
    let lots = is_text (codes "lots") (get (codes "_mtapi_volume_units") null p.root)
    volume_min ← volume_constraint parse ms (codes "volumeMin") volume_min_keys scale lots
    volume_step ← volume_constraint parse ms (codes "volumeStep") volume_step_keys scale lots
    volume_max ← volume_constraint parse ms (codes "volumeMax") volume_max_keys scale lots
    raise_if (is_insane volume_min volume_step volume_max) constraint_insane
    raise_if (fl.lt volume_max volume_min) maximum_below_minimum
    ok record { volume_min = volume_min; volume_step = volume_step; volume_max = volume_max }

  -- The steps behind the checks of the currency and of the units.
  unfoldable pub spec_of : Option Text → SymbolParams F → Text → Result RiskError (SymbolRiskSpec F)
  spec_of env_scale p account_ccy = do
    scale ← volume_scale parse env_scale p
    ticks ← tick_economics p account_ccy
    limits ← volume_limits p scale
    ok record {
      tick_size = ticks.tick_size;
      tick_value_per_lot = ticks.tick_value;
      account_currency = account_ccy;
      volume_min = limits.volume_min;
      volume_step = limits.volume_step;
      volume_max = limits.volume_max;
      contract_size = ticks.contract_size;
    }

  -- `none` stands for metadata that is no mapping.
  unfoldable pub build_symbol_risk_spec :
      Option Text → Option (SymbolParams F) → Text → Result RiskError (SymbolRiskSpec F)
  build_symbol_risk_spec env_scale none account_currency = err metadata_unavailable
  build_symbol_risk_spec env_scale (some p) account_currency = do
    let account_ccy = upper (strip account_currency)
    raise_if (is_empty account_ccy) currency_unavailable
    raise_if (is_true (get (codes "_mtapi_volume_units_error") null p.root)) volume_units_error
    spec_of env_scale p account_ccy
