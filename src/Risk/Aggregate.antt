-- ===== src/Risk/Aggregate.antt =====
-- live_trading/risk/aggregate_risk.py: what one order, one open position and all open positions of a
-- symbol can lose down to their stops. `parse` is Python's `float` of a text.
pub mod Sizing
pub mod Tickets
pub mod Spec
use scalp_tn_aaa.Base.{
  ℕ, Bool, true, false, not, ◌&&◌, ◌||◌, Option, none, some, List, [], ◌∷◌, ◌++◌, map,
  if◌then◌else◌, length,
}
use scalp_tn_aaa.Base.Text.{Text, codes, text_eq, upper, strip, is_empty}
use scalp_tn_aaa.Base.Results.{Result, ok, err, ◌>>=◌, ◌>>◌, raise_if}
use scalp_tn_aaa.Float.{Float, nought, max}
use scalp_tn_aaa.Float.Values.{
  Value, Fields, find, put, get, null, string, str, float_of, is_boolean, is_null,
}
use scalp_tn_aaa.Entry.Policy.{buy, sell, is_side, normalized}

-- The exceptions, one for each place that raises one. `open_position` is the OpenPositionRiskError
-- that `position_risk_amount` makes of a RiskCalculationError, and the `blocked` ones are the
-- AggregateRiskLimitErrors. `not_a_float` is the TypeError or the ValueError of `float` itself, and
-- `endless_loop` stands for a loop that needs more turns than its fuel.
pub data RiskError : Type 0 where
  invalid not_positive : Text → RiskError
  direction_unknown stop_not_protective positions_malformed zero_division : RiskError
  ticket_unavailable not_a_float : RiskError
  position_direction_unknown : Text → RiskError
  open_position : RiskError → RiskError
  blocked_no_remaining_budget blocked_minimum_lot blocked_volume_constraint : RiskError
  blocked_aggregate_budget endless_loop : RiskError
  metadata_unavailable currency_unavailable volume_units_error scale_missing : RiskError
  scale_invalid units_unknown tick_size_unavailable tick_currency_mismatch : RiskError
  tick_value_unavailable constraint_insane maximum_below_minimum : RiskError
  constraint_invalid constraint_not_finite constraint_not_positive : Text → RiskError
  constraint_unavailable : Text → RiskError

-- The fields of `SymbolRiskSpec` that enter a computation.
pub record SymbolRiskSpec (F : Type 0) : Type 0 where
  pub tick_size : F
  pub tick_value_per_lot : F
  pub account_currency : Text
  pub volume_min : F
  pub volume_step : F
  pub volume_max : F
  pub contract_size : Option F

-- An element of `positions`.
pub data OpenPosition (F : Type 0) : Type 0 where
  mapping : Fields F → OpenPosition F
  not_mapping : OpenPosition F

module _ {F : Type 0} where
  -- `position.get(k1, position.get(k2))`
  abbrev pub get2 : Text → Text → Fields F → Value F
  get2 k1 k2 p = get k1 (get k2 null p) p

  abbrev pub get3 : Text → Text → Text → Fields F → Value F
  get3 k1 k2 k3 p = get k1 (get k2 (get k3 null p) p) p

  unfoldable pub position_id : Fields F → Result RiskError Text
  position_id position =
      let value = get2 (codes "id") (codes "ticket") position in
      let ticket = strip (str value) in
      if is_null value || is_empty ticket then err ticket_unavailable else ok ticket

  abbrev pub position_direction : Fields F → Text
  position_direction p =
      normalized (str (get (codes "type") (get (codes "direction") (string []) p) p))

  -- `except RiskCalculationError as exc: raise OpenPositionRiskError(str(exc)) from exc`
  abbrev pub reraise : Result RiskError F → Result RiskError F
  reraise (ok x) = ok x
  reraise (err e) = err (open_position e)

abbrev pub ticket_field : Text → Text → Text
ticket_field ticket name = codes "Open position " ++ ticket ++ name

module _ {F : Type 0} ⦃fl : Float F⦄ where
  -- A division of floats, which raises on a zero divisor.
  abbrev pub divide : F → F → Result RiskError F
  divide a b = if fl.le b nought && fl.le nought b then err zero_division else ok (fl.div a b)

  abbrev pub order_distance : Text → F → F → Result RiskError F
  order_distance direction entry stop =
      if text_eq direction buy
      then ok (fl.sub entry stop)
      else if text_eq direction sell
      then ok (fl.sub stop entry)
      else err direction_unknown

  -- `signed_distance` clipped at 0.
  abbrev pub loss_distance : Text → F → F → F
  loss_distance direction entry stop =
      max nought (if text_eq direction buy then fl.sub entry stop else fl.sub stop entry)

  -- `d.get(k, 0.0)`
  abbrev pub or_nought : Option F → F
  or_nought none = nought
  or_nought (some x) = x

  -- `risk_by_ticket[ticket] = max(risk_by_ticket.get(ticket, 0.0), amount)`
  unfoldable pub charge : Text → F → List (Text × F) → List (Text × F)
  charge ticket amount risks = put ticket (max (or_nought (find ticket risks)) amount) risks

module _ {F : Type 0} ⦃fl : Float F⦄ (parse : Text → Option F) where
  abbrev pub positive : Option F → Text → Result RiskError F
  positive none field = err (invalid field)
  positive (some x) field =
      if not (fl.is_finite x) || fl.le x nought then err (not_positive field) else ok x

  -- `_number`
  unfoldable pub number_field : Value F → Text → Result RiskError F
  number_field value field =
      if is_boolean value then err (invalid field) else positive (float_of parse value) field

  unfoldable pub risk_per_lot : Text → Value F → Value F → SymbolRiskSpec F → Result RiskError F
  risk_per_lot direction entry_price stop_loss spec = do
    entry ← number_field entry_price (codes "Entry price")
    stop ← number_field stop_loss (codes "Stop loss")
    distance ← order_distance (normalized direction) entry stop
    raise_if (not (fl.is_finite distance) || fl.le distance nought) stop_not_protective
    ticks ← divide distance spec.tick_size
    ok (fl.mul ticks spec.tick_value_per_lot)

  -- A number of an open position.
  unfoldable pub ticket_number : Value F → Text → Result RiskError F
  ticket_number value field = reraise (number_field value field)

  unfoldable pub position_risk_amount : Fields F → SymbolRiskSpec F → Result RiskError F
  position_risk_amount position spec = do
    ticket ← position_id position
    let direction = position_direction position
    raise_if (not (is_side direction)) (position_direction_unknown ticket)
    entry ←
        ticket_number (get3 (codes "open_price") (codes "openPrice") (codes "price_open") position)
          (ticket_field ticket (codes " entry"))
    stop ←
        ticket_number (get3 (codes "sl") (codes "stopLoss") (codes "stop_loss") position)
          (ticket_field ticket (codes " SL"))
    volume ←
        ticket_number (get2 (codes "volume") (codes "lots") position)
          (ticket_field ticket (codes " volume"))
    ticks ← divide (loss_distance direction entry stop) spec.tick_size
    ok (fl.mul (fl.mul ticks spec.tick_value_per_lot) volume)

  -- The ticket of an element with its risk.
  unfoldable pub priced : SymbolRiskSpec F → OpenPosition F → Result RiskError (Text × F)
  priced spec not_mapping = err positions_malformed
  priced spec (mapping position) = do
    ticket ← position_id position
    amount ← position_risk_amount position spec
    ok (ticket, amount)

  -- The loop over the positions.
  unfoldable pub collect :
      SymbolRiskSpec F
      → List (OpenPosition F)
      → List (Text × F)
      → Result RiskError (List (Text × F))
  collect spec [] risks = ok risks
  collect spec (p ∷ ps) risks = do row ← priced spec p; collect spec ps (charge row.0 row.1 risks)

  -- `sum` is Python's, for floats.
  unfoldable pub aggregate_open_risk :
      (List F → F) → List (OpenPosition F) → SymbolRiskSpec F → Result RiskError (F × ℕ)
  aggregate_open_risk sum positions spec = do
    risks ← collect spec positions []
    ok (sum (map (λ row. row.1) risks), length risks)
