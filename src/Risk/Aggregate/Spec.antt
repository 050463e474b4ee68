-- ===== src/Risk/Aggregate/Spec.antt =====
-- `build_symbol_risk_spec` of live_trading/risk/aggregate_risk.py with
-- live_trading/mt5/volume_units.py. The logs, the raw values kept for them and the names of the keys
-- that were read are left out. `parse` is Python's `float` of a text, and `env_scale` the environment
-- variable MTAPI_VOLUME_SCALE.
pub mod Build
pub mod Usable
use scalp_tn_aaa.Base.{
  Bool, true, false, not, ◌&&◌, ◌||◌, Option, none, some, List, [], ◌∷◌, if◌then◌else◌, is_some,
  is_none,
}
use scalp_tn_aaa.Base.Text.{Text, codes, text_eq, upper, strip, is_empty, starts_with}
use scalp_tn_aaa.Base.Results.{Result, ok, err, ◌>>=◌, ◌>>◌, raise_if}
use scalp_tn_aaa.Float.{Float, nought, gt}
use scalp_tn_aaa.Float.Values.{
  Value, Fields, null, boolean, string, number, other, find, get, str, float_of, is_boolean,
  is_null,
}
use scalp_tn_aaa.Risk.Aggregate.{
  RiskError, SymbolRiskSpec, metadata_unavailable, currency_unavailable, volume_units_error,
  scale_missing, scale_invalid, units_unknown, tick_size_unavailable, tick_currency_mismatch,
  tick_value_unavailable, constraint_insane, maximum_below_minimum, constraint_invalid,
  constraint_not_finite, constraint_not_positive, constraint_unavailable,
}

-- The broker's metadata: the fields, and the two mappings among them, where they are mappings.
pub record SymbolParams (F : Type 0) : Type 0 where
  pub root : Fields F
  pub symbol_info : Option (Fields F)
  pub symbol_group : Option (Fields F)

-- Whether the contract's currency can stand for the account's.
abbrev pub is_matched : Text → Text → Text → Bool
is_matched profit_currency account_ccy symbol =
    if is_empty profit_currency
    then text_eq account_ccy (codes "USD") && starts_with (codes "XAUUSD") (upper symbol)
    else text_eq profit_currency account_ccy

module _ {F : Type 0} where
  -- `(info, symbol_params, group)`
  abbrev pub mappings : SymbolParams F → List (Option (Fields F))
  mappings p = p.symbol_info ∷ some p.root ∷ p.symbol_group ∷ []

  abbrev pub is_text : Text → Value F → Bool
  is_text t (string s) = text_eq s t
  is_text t _ = false

  -- The first key of a mapping with a text.
  abbrev pub currency_in : Fields F → List Text → Text
  currency_in d [] = []
  currency_in d (k ∷ ks) =
      let rest = currency_in d ks in
      let value = get k null d in
      if is_null value || is_empty (strip (str value)) then rest else upper (strip (str value))

  -- `_currency`
  unfoldable pub currency_of : List (Option (Fields F)) → List Text → Text
  currency_of [] ks = []
  currency_of (none ∷ ms) ks = currency_of ms ks
  currency_of (some d ∷ ms) ks =
      let rest = currency_of ms ks in
      let here = currency_in d ks in if is_empty here then rest else here

module _ {F : Type 0} ⦃fl : Float F⦄ where
  abbrev pub is_zero : F → Bool
  is_zero x = fl.le x nought && fl.le nought x

  -- The truth value of an object.
  abbrev pub is_true : Value F → Bool
  is_true null = false
  is_true (boolean b) = b
  is_true (number _ x) = not (is_zero x)
  is_true (string t) = not (is_empty t)
  is_true (other _) = true

  -- `not math.isfinite(x) or x <= 0`
  abbrev pub is_unusable : F → Bool
  is_unusable x = not (fl.is_finite x) || fl.le x nought

  abbrev pub default_scale : F
  default_scale = fl.lit 100_000_000 1

  abbrev pub usable : Option F → Option F
  usable none = none
  usable (some x) = if is_unusable x then none else some x

  abbrev pub or_else_number : Option F → Option F → Option F
  or_else_number (some x) rest = some x
  or_else_number none rest = rest

  abbrev pub scale_of : RiskError → Option F → Result RiskError F
  scale_of missing none = err missing
  scale_of missing (some x) = if is_unusable x then err scale_invalid else ok x

  -- `extended_volume_to_lots`, `none` where it raises a ValueError.
  unfoldable pub extended_volume_to_lots : F → F → Option F
  extended_volume_to_lots raw_value scale =
      let lots = fl.div raw_value scale in
      if not (fl.is_finite raw_value) || is_unusable scale || not (fl.is_finite lots)
      then none
      else some lots

  abbrev pub lots_of : Bool → F → F → Option F
  lots_of values_are_lots raw_number scale =
      if values_are_lots then some raw_number else extended_volume_to_lots raw_number scale

  abbrev pub checked_lots : Text → Option F → Result RiskError F
  checked_lots field none = err (constraint_invalid field)
  checked_lots field (some lots) =
      if is_unusable lots then err (constraint_not_positive field) else ok lots

  abbrev pub checked_number : Text → F → Bool → Option F → Result RiskError F
  checked_number field scale values_are_lots none = err (constraint_invalid field)
  checked_number field scale values_are_lots (some x) =
      if not (fl.is_finite x)
      then err (constraint_not_finite field)
      else checked_lots field (lots_of values_are_lots x scale)

  -- A key that is missing, `None` or empty is passed over.
  abbrev pub is_absent : Value F → Bool
  is_absent value = is_null value || is_text [] value

  abbrev pub first_present : Fields F → List Text → Option (Value F)
  first_present d [] = none
  first_present d (k ∷ ks) =
      let rest = first_present d ks in
      let value = get k null d in if is_absent value then rest else some value

  abbrev pub or_later : Option (Value F) → Option (Value F) → Option (Value F)
  or_later (some v) rest = some v
  or_later none rest = rest

  abbrev pub first_value : List (Option (Fields F)) → List Text → Option (Value F)
  first_value [] ks = none
  first_value (none ∷ ms) ks = first_value ms ks
  first_value (some d ∷ ms) ks = or_later (first_present d ks) (first_value ms ks)

  -- `volume_constraint_sanity_error`
  unfoldable pub is_insane : F → F → F → Bool
  is_insane volume_min volume_step volume_max =
      gt volume_min (fl.lit 1 1) || gt volume_max (fl.lit 10_000 1) || fl.le volume_step nought

  abbrev pub or_raise : Option F → RiskError → Result RiskError F
  or_raise none e = err e
  or_raise (some x) e = ok x

  abbrev pub symbol_of : SymbolParams F → Text
  symbol_of p =
      let value = get (codes "symbol") null p.root in
      strip (if is_true value then str value else [])

  abbrev pub contract_tick_value : Bool → F → Option F → Result RiskError F
  contract_tick_value matched tick_size none = err tick_value_unavailable
  contract_tick_value matched tick_size (some contract_size) =
      if matched then ok (fl.mul tick_size contract_size) else err tick_value_unavailable

  -- The broker's tick value, or one tick of a contract.
  unfoldable pub tick_value_of : Option F → Text → Text → Bool → F → Option F → Result RiskError F
  tick_value_of (some tick_value) currency account_ccy matched tick_size contract_size =
      if not (is_empty currency) && not (text_eq currency account_ccy)
      then err tick_currency_mismatch
      else ok tick_value
  tick_value_of none currency account_ccy matched tick_size contract_size =
      contract_tick_value matched tick_size contract_size

module _ {F : Type 0} ⦃fl : Float F⦄ (parse : Text → Option F) where
  abbrev pub usable_value : Value F → Option F
  usable_value value = if is_boolean value then none else usable (float_of parse value)

  abbrev pub number_in : Fields F → List Text → Option F
  number_in d [] = none
  number_in d (k ∷ ks) = or_else_number (usable_value (get k null d)) (number_in d ks)

  -- `_positive_number`
  unfoldable pub positive_number : List (Option (Fields F)) → List Text → Option F
  positive_number [] ks = none
  positive_number (none ∷ ms) ks = positive_number ms ks
  positive_number (some d ∷ ms) ks = or_else_number (number_in d ks) (positive_number ms ks)

  -- `configured_mtapi_volume_scale`
  unfoldable pub configured_scale : Option Text → Result RiskError F
  configured_scale none = ok default_scale
  configured_scale (some raw) =
      if is_empty (strip raw) then ok default_scale else scale_of scale_invalid (parse raw)

  -- The scale, by the marker of the units.
  unfoldable pub volume_scale : Option Text → SymbolParams F → Result RiskError F
  volume_scale env_scale p =
      let units = get (codes "_mtapi_volume_units") null p.root in
      if is_text (codes "lots") units
      then scale_of scale_missing (float_of parse (get (codes "_mtapi_volume_scale") null p.root))
      else if is_null units || is_text (codes "extended") units
      then configured_scale env_scale
      else err units_unknown

  -- A value that is there.
  unfoldable pub constraint_value : Text → F → Bool → Value F → Result RiskError F
  constraint_value field scale values_are_lots value =
      if is_boolean value
      then err (constraint_invalid field)
      else checked_number field scale values_are_lots (float_of parse value)

  abbrev pub constraint_or_raise : Text → F → Bool → Option (Value F) → Result RiskError F
  constraint_or_raise field scale lots none = err (constraint_unavailable field)
  constraint_or_raise field scale lots (some value) = constraint_value field scale lots value

  -- `_volume_constraint`
  unfoldable pub volume_constraint :
      List (Option (Fields F)) → Text → List Text → F → Bool → Result RiskError F
  volume_constraint ms field aliases scale values_are_lots =
      constraint_or_raise field scale values_are_lots (first_value ms aliases)
