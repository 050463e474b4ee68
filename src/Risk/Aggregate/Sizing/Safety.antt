-- ===== src/Risk/Aggregate/Sizing/Safety.antt =====
-- What an accepted order promises.
use mathlib.Core.Path.{subst}
use scalp_tn_aaa.Base.{
  ◌≡◌, ◌||◌, false, Option, some, none, is_none, List, [], ◌∷◌, ◌++◌, ◌≢◌, arith,
}
use scalp_tn_aaa.Base.Int.{pos_part}
use scalp_tn_aaa.Base.Text.{Text}
use scalp_tn_aaa.Base.Results.{ok, err, >>=-ok, >>-ok}
use scalp_tn_aaa.Float.{Float}
use scalp_tn_aaa.Float.Values.{float_of}
use scalp_tn_aaa.Risk.Aggregate.{
  RiskError, SymbolRiskSpec, OpenPosition, priced, collect, number_field, aggregate_open_risk,
  risk_per_lot, not_a_float, blocked_volume_constraint,
}
use scalp_tn_aaa.Risk.Aggregate.Tickets.{unpriced-collect}
use scalp_tn_aaa.Risk.Aggregate.Sizing.{
  Decimals, Order, Budget, AggregateRiskSizing, budget_of, size_order_for_aggregate_risk,
  size_volume, raw_volume, finish_order, step_count, rung, shrink, shrunk,
}

module _ {F D : Type 0} ⦃fl : Float F⦄ (dec : Decimals F D) (parse : Text → Option F)
    (sum : List F → F) (spec : SymbolRiskSpec F) where
  abbrev pub first_rung : F → D
  first_rung raw =
      rung dec (dec.decimal spec.volume_min) (dec.decimal spec.volume_step)
        (step_count dec spec raw)

  -- The order's loss at its stop is over neither its own budget nor, with what the open positions
  -- lose at theirs, the limit of the account.
  pub record IsCovered (b : Budget F) (per_lot : F) (s : AggregateRiskSizing F) : Type 0 where
    pub in_budget : fl.lt b.risk_budget (fl.mul per_lot s.lot_size) ≡ false
    pub in_limit :
        fl.lt b.aggregate_limit (fl.add b.existing_risk (fl.mul per_lot s.lot_size)) ≡ false
    pub reported :
        s.aggregate_risk ≡ fl.round 8 (fl.add b.existing_risk (fl.mul per_lot s.lot_size))
    pub counted : s.position_count ≡ b.count

  pub finish_order-IsCovered :
      (b : Budget F) (per_lot volume : F) {s : AggregateRiskSizing F}
      → finish_order dec b per_lot volume ≡ ok s
      → IsCovered b per_lot s × (s.lot_size ≡ volume)
  unfolding finish_order
  finish_order-IsCovered b per_lot volume h = ground arith

  -- The parts of a run that accepts the order.
  pub record Run (o : Order F) (s : AggregateRiskSizing F) : Type 0 where
    pub b : Budget F
    pub per_lot : F
    pub raw : F
    pub budget_eq : budget_of dec parse sum o spec ≡ ok b
    pub per_lot_eq : risk_per_lot parse o.direction o.entry_price o.stop_loss spec ≡ ok per_lot
    pub raw_eq : raw_volume dec spec b per_lot ≡ ok raw
    pub size_eq : size_volume dec spec b per_lot raw ≡ ok s

  pub accepted-Run :
      (o : Order F) {s : AggregateRiskSizing F}
      → size_order_for_aggregate_risk dec parse sum o spec ≡ ok s
      → Run o s
  unfolding size_order_for_aggregate_risk
  accepted-Run o h =
      let (b, hb, h1) = >>=-ok (budget_of dec parse sum o spec) _ h in
      let (_, h2) = >>-ok (is_none (float_of parse o.entry_price)) not_a_float _ h1 in
      let (_, h3) = >>-ok (is_none (float_of parse o.stop_loss)) not_a_float _ h2 in
      let (per_lot, hp, h4) =
        >>=-ok (risk_per_lot parse o.direction o.entry_price o.stop_loss spec) _ h3 in
      let (raw, hr, h5) = >>=-ok (raw_volume dec spec b per_lot) _ h4 in
      record {
        b = b;
        per_lot = per_lot;
        raw = raw;
        budget_eq = hb;
        per_lot_eq = hp;
        raw_eq = hr;
        size_eq = h5;
      }

  -- The volume of an accepted order, with the checks on the way to it.
  pub record Chosen (b : Budget F) (per_lot raw : F) (s : AggregateRiskSizing F) : Type 0 where
    pub volume : D
    pub first_min : fl.lt (dec.to_float (first_rung raw)) spec.volume_min ≡ false
    pub first_max : fl.lt spec.volume_max (dec.to_float (first_rung raw)) ≡ false
    pub shrink_eq :
        shrink dec
          (pos_part (step_count dec spec raw))
          b.risk_budget
          per_lot
          (dec.decimal spec.volume_min)
          (dec.decimal spec.volume_step)
          (first_rung raw)
        ≡ some volume
    pub finish_eq : finish_order dec b per_lot (dec.to_float volume) ≡ ok s

  shrunk-some : (o : Option D) {v : D} → shrunk dec o ≡ ok v → o ≡ some v
  shrunk-some none h = cc
  shrunk-some (some x) h = cc

  pub size_volume-Chosen :
      (b : Budget F) (per_lot raw : F) {s : AggregateRiskSizing F}
      → size_volume dec spec b per_lot raw ≡ ok s
      → Chosen b per_lot raw s
  unfolding size_volume
  size_volume-Chosen b per_lot raw h =
      let first = first_rung raw in
      let (inside, h1) =
        >>-ok
          (fl.lt (dec.to_float first) spec.volume_min || fl.lt spec.volume_max (dec.to_float first))
          blocked_volume_constraint _ h in
      let (volume, found, h2) =
        >>=-ok
          (shrunk dec (
            shrink dec (pos_part (step_count dec spec raw)) b.risk_budget per_lot
              (dec.decimal spec.volume_min) (dec.decimal spec.volume_step) first))
          _ h1 in
      record {
        volume = volume;
        first_min = ground arith;
        first_max = ground arith;
        shrink_eq = shrunk-some _ found;
        finish_eq = h2;
      }

  -- An order is accepted only if what it can lose is neither over its own budget nor, with what the
  -- open positions can lose, over the limit of the account; the report counts each open ticket.
  pub accepted_order-IsCovered :
      (o : Order F) {s : AggregateRiskSizing F}
      → size_order_for_aggregate_risk dec parse sum o spec ≡ ok s
      → (b : Budget F) × (per_lot : F) × (budget_of dec parse sum o spec ≡ ok b)
        × (risk_per_lot parse o.direction o.entry_price o.stop_loss spec ≡ ok per_lot)
        × IsCovered b per_lot s
  accepted_order-IsCovered o {s} h =
      let r = accepted-Run o h in
      let c = size_volume-Chosen r.b r.per_lot r.raw r.size_eq in
      let (covered, _) = finish_order-IsCovered r.b r.per_lot (dec.to_float c.volume) c.finish_eq in
      (r.b, r.per_lot, r.budget_eq, r.per_lot_eq, covered)

  unpriced-budget_of :
      (o : Order F) (before : List (OpenPosition F)) (p : OpenPosition F)
      (after : List (OpenPosition F)) (e : RiskError) {b : Budget F}
      → o.positions ≡ before ++ p ∷ after
      → priced parse spec p ≡ err e
      → budget_of dec parse sum o spec ≢ ok b
  unfolding budget_of aggregate_open_risk
  unpriced-budget_of o before p after e same h k =
      let (balance, _, k1) = >>=-ok (number_field parse o.account_balance _) _ k in
      let (trade, _, k2) = >>=-ok (number_field parse o.per_trade_risk_percent _) _ k1 in
      let (aggregate, _, k3) = >>=-ok (number_field parse o.aggregate_risk_percent _) _ k2 in
      let (_, k4, _) = >>=-ok (aggregate_open_risk parse sum o.positions spec) _ k3 in
      let (risks, k5, _) = >>=-ok (collect parse spec o.positions []) _ k4 in
      unpriced-collect parse spec before p after [] risks e h
        (subst (λ ps. collect parse spec ps [] ≡ ok risks) same k5)

  -- One open position that cannot be priced, wherever it stands among the others, keeps every new
  -- order from being accepted.
  pub unpriced_position_blocks :
      (o : Order F) (before : List (OpenPosition F)) (p : OpenPosition F)
      (after : List (OpenPosition F)) (e : RiskError) (s : AggregateRiskSizing F)
      → o.positions ≡ before ++ p ∷ after
      → priced parse spec p ≡ err e
      → size_order_for_aggregate_risk dec parse sum o spec ≢ ok s
  unpriced_position_blocks o before p after e s same h k =
      let r = accepted-Run o k in unpriced-budget_of o before p after e same h r.budget_eq
