-- ===== src/Risk/Aggregate/Sizing/Ends.antt =====
-- The sizing as a whole: it always ends, with an order of the largest volume or with an exception of
-- the source.
use scalp_tn_aaa.Base.{ℕ, ◌≡◌, ◌≢◌, Option, List, [], ◌∷◌, arith, ◌&&◌, not, is_none, ◌||◌}
use scalp_tn_aaa.Base.Text.{Text}
use scalp_tn_aaa.Base.Results.{Result, ok, err, >>=-spares, >>-spares, >>=-avoids}
use scalp_tn_aaa.Float.{Float, IsOrdered, IsNumber, min, nought}
use scalp_tn_aaa.Float.Values.{Value, Fields, float_of}
use scalp_tn_aaa.Entry.Policy.{is_side}
use scalp_tn_aaa.Risk.Aggregate.{
  RiskError, SymbolRiskSpec, OpenPosition, risk_per_lot, number_field, aggregate_open_risk, collect,
  priced, position_id, position_risk_amount, divide, endless_loop, reraise, ticket_number,
  zero_division, order_distance, stop_not_protective, position_direction_unknown,
  blocked_minimum_lot, mapping, not_mapping, charge, position_direction,
  blocked_no_remaining_budget, not_a_float,
}
use scalp_tn_aaa.Risk.Aggregate.Sizing.{
  Decimals, Order, Budget, AggregateRiskSizing, budget_of, size_order_for_aggregate_risk,
  raw_volume,
}
use scalp_tn_aaa.Risk.Aggregate.Sizing.Safety.{accepted-Run}
use scalp_tn_aaa.Risk.Aggregate.Sizing.Largest.{IsStepped, IsLargest, chosen-IsLargest, loop_ends}

-- No exception but the one for a lack of fuel comes out of a step that has no loop.
abbrev Ends : {A : Type 0} → Result RiskError A → Type 0
Ends r = r ≢ err endless_loop

ok-Ends : {A : Type 0} (a : A) → Ends (ok a)
ok-Ends a h = cc

module _ {F : Type 0} ⦃fl : Float F⦄ (parse : Text → Option F) (spec : SymbolRiskSpec F) where
  number_field-Ends : (v : Value F) (name : Text) → Ends (number_field parse v name)
  unfolding number_field
  number_field-Ends v name h = ground arith

  reraise-Ends : (r : Result RiskError F) → Ends (reraise r)
  reraise-Ends r h = ground arith

  ticket_number-Ends : (v : Value F) (name : Text) → Ends (ticket_number parse v name)
  unfolding ticket_number
  ticket_number-Ends v name = reraise-Ends (number_field parse v name)

  divide-Ends : (a b : F) → Ends (divide a b)
  divide-Ends a b h = ground arith

  order_distance-Ends : (d : Text) (a b : F) → Ends (order_distance d a b)
  order_distance-Ends d a b h = ground arith

  position_id-Ends : (p : Fields F) → Ends (position_id p)
  unfolding position_id
  position_id-Ends p h = ground arith

  risk_per_lot-Ends : (d : Text) (a b : Value F) → Ends (risk_per_lot parse d a b spec)
  unfolding risk_per_lot
  risk_per_lot-Ends d a b = >>=-spares (number_field parse a _) _ (number_field-Ends a _) λ entry.
      >>=-spares (number_field parse b _) _ (number_field-Ends b _) λ stop.
        >>=-spares (order_distance _ entry stop) _ (order_distance-Ends _ entry stop) λ distance.
          >>-spares (not (fl.is_finite distance) || fl.le distance nought) stop_not_protective _
            (λ h. cc)
            (>>=-spares (divide distance spec.tick_size) _ (divide-Ends distance spec.tick_size)
              λ ticks. ok-Ends _)

  position_risk_amount-Ends : (p : Fields F) → Ends (position_risk_amount parse p spec)
  unfolding position_risk_amount
  position_risk_amount-Ends p = >>=-spares (position_id p) _ (position_id-Ends p) λ ticket.
      >>-spares (not (is_side (position_direction p))) (position_direction_unknown ticket) _
        (λ h. cc)
        (>>=-spares (ticket_number parse _ _) _ (ticket_number-Ends _ _) λ entry.
          >>=-spares (ticket_number parse _ _) _ (ticket_number-Ends _ _) λ stop.
            >>=-spares (ticket_number parse _ _) _ (ticket_number-Ends _ _) λ volume.
              >>=-spares (divide _ spec.tick_size) _ (divide-Ends _ spec.tick_size)
                λ ticks. ok-Ends _)

  priced-Ends : (p : OpenPosition F) → Ends (priced parse spec p)
  unfolding priced
  priced-Ends not_mapping = λ h. cc
  priced-Ends (mapping p) = >>=-spares (position_id p) _ (position_id-Ends p) λ ticket.
      >>=-spares (position_risk_amount parse p spec) _ (position_risk_amount-Ends p)
        λ amount. ok-Ends (ticket, amount)

  collect-Ends :
      (ps : List (OpenPosition F)) (risks : List (Text × F)) → Ends (collect parse spec ps risks)
  unfolding collect
  collect-Ends [] risks = ok-Ends risks
  collect-Ends (p ∷ ps) risks =
      >>=-spares (priced parse spec p) _ (priced-Ends p)
        λ row. collect-Ends ps (charge row.0 row.1 risks)

  module _ {D : Type 0} (dec : Decimals F D) (sum : List F → F) where
    budget_of-Ends : (o : Order F) → Ends (budget_of dec parse sum o spec)
    unfolding budget_of aggregate_open_risk
    budget_of-Ends o =
        >>=-spares (number_field parse o.account_balance _) _ (number_field-Ends _ _) λ balance.
          >>=-spares (number_field parse o.per_trade_risk_percent _) _ (number_field-Ends _ _)
            λ trade.
              >>=-spares (number_field parse o.aggregate_risk_percent _) _ (number_field-Ends _ _)
                λ aggregate.
                  >>=-spares (aggregate_open_risk parse sum o.positions spec) _
                    (>>=-spares (collect parse spec o.positions []) _ (collect-Ends o.positions [])
                      λ r. ok-Ends _)
                    λ open_risk.
                      >>-spares
                        (fl.le
                          (min (fl.div (fl.mul balance trade) (fl.lit 100 1))
                            (fl.sub (fl.div (fl.mul balance aggregate) (fl.lit 100 1)) open_risk.0))
                          nought)
                        blocked_no_remaining_budget _ (λ h. cc) (ok-Ends _)

    raw_volume-Ends : (b : Budget F) (per_lot : F) → Ends (raw_volume dec spec b per_lot)
    unfolding raw_volume
    raw_volume-Ends b per_lot =
        >>=-spares (divide b.risk_budget per_lot) _ (divide-Ends b.risk_budget per_lot) λ q.
          >>-spares (fl.lt (min q spec.volume_max) spec.volume_min) blocked_minimum_lot _ (λ h. cc)
            (>>-spares (fl.le spec.volume_step nought && fl.le nought spec.volume_step)
              zero_division _ (λ h. cc) (ok-Ends _))

    -- `stepped` is what the sizing relies on, and no quotient of a budget and the loss of a lot
    -- is NaN.
    module _ (laws : IsOrdered F) {top : ℕ} (stepped : IsStepped dec parse sum spec top)
        (o : Order F)
        (numbers : (b : Budget F) (per_lot : F)
          → budget_of dec parse sum o spec ≡ ok b
          → risk_per_lot parse o.direction o.entry_price o.stop_loss spec ≡ ok per_lot
          → IsNumber (fl.div b.risk_budget per_lot)) where
      -- Whatever the order and the open positions are, the loop over the volume steps ends within
      -- `step_count` turns, so that the call gives a size or one of its exceptions. The broker's
      -- volume limits and the decimals between them are to be as `IsStepped` says, and the budget
      -- divided by the loss of one lot is a number.
      pub size_order_ends : size_order_for_aggregate_risk dec parse sum o spec ≢ err endless_loop
      unfolding size_order_for_aggregate_risk
      size_order_ends = >>=-avoids (budget_of dec parse sum o spec) _ (budget_of-Ends o) λ b hb.
          >>-spares (is_none (float_of parse o.entry_price)) not_a_float _ (λ h. cc)
            (>>-spares (is_none (float_of parse o.stop_loss)) not_a_float _ (λ h. cc)
              (>>=-avoids (risk_per_lot parse o.direction o.entry_price o.stop_loss spec) _
                (risk_per_lot-Ends o.direction o.entry_price o.stop_loss)
                λ per_lot hp.
                  >>=-avoids (raw_volume dec spec b per_lot) _ (raw_volume-Ends b per_lot) λ raw hr.
                    loop_ends dec parse sum spec laws stepped b per_lot raw
                      (numbers b per_lot hb hp) hr))

      -- Of the volumes that lie whole steps above the broker's minimum, up to what the budget pays
      -- for and the broker's maximum, an accepted order has the largest one whose loss at the stop
      -- is not over the budget; the loss of the minimum, where that is the volume, is within the
      -- budget too. The broker's volume limits and the decimals between them are to be as
      -- `IsStepped` says, and the budget divided by the loss of one lot is a number.
      pub accepted_order-IsLargest :
          {s : AggregateRiskSizing F}
          → size_order_for_aggregate_risk dec parse sum o spec ≡ ok s
          → (b : Budget F) × (per_lot raw : F) × (budget_of dec parse sum o spec ≡ ok b)
            × (risk_per_lot parse o.direction o.entry_price o.stop_loss spec ≡ ok per_lot)
            × (raw_volume dec spec b per_lot ≡ ok raw)
            × IsLargest dec parse sum spec b per_lot raw s
      accepted_order-IsLargest h =
          let r = accepted-Run dec parse sum spec o h in
          let num = numbers r.b r.per_lot r.budget_eq r.per_lot_eq in
          (
            r.b,
            r.per_lot,
            r.raw,
            r.budget_eq,
            r.per_lot_eq,
            r.raw_eq,
            chosen-IsLargest dec parse sum spec laws stepped r.b r.per_lot r.raw num r.raw_eq
                r.size_eq,
          )
