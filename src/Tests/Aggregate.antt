-- ===== src/Tests/Aggregate.antt =====
-- A purchase of gold next to one open position, which the broker lists twice.
use scalp_tn_aaa.Base.{
  ℕ, ◌*◌, ◌/◌, ◌-◌, ◌≤◌, ◌≡◌, ◌≢◌, refl, true, Option, none, some, List, [], ◌∷◌, arith, ap,
}
use scalp_tn_aaa.Base.Int.{ℤ, pos, negsuc, ◌-ℤ◌, ◌+ℤ◌, ◌*ℤ◌, ltb_ℤ}
use scalp_tn_aaa.Base.Text.{Text, codes, text_eq, upper, strip}
use scalp_tn_aaa.Base.Results.{ok, err}
use scalp_tn_aaa.Float.{max, min}
use scalp_tn_aaa.Float.Fixed.{fixed, fixed-IsOrdered, number}
use scalp_tn_aaa.Float.Values.{Value, find, put, string, str, float_of}
use scalp_tn_aaa.Risk.Aggregate.{
  SymbolRiskSpec, OpenPosition, mapping, not_mapping, number_field, ticket_number, position_id,
  position_risk_amount, priced, charge, collect, aggregate_open_risk, risk_per_lot,
  positions_malformed, endless_loop,
}
use scalp_tn_aaa.Risk.Aggregate.Spec.{
  SymbolParams, volume_scale, configured_scale, positive_number, currency_of, tick_value_of,
  volume_constraint, constraint_value, extended_volume_to_lots, is_insane,
}
use scalp_tn_aaa.Risk.Aggregate.Spec.Build.{
  build_symbol_risk_spec, spec_of, tick_economics, volume_limits,
}
use scalp_tn_aaa.Risk.Aggregate.Spec.Usable.{IsUsable, build_symbol_risk_spec-IsUsable}
use scalp_tn_aaa.Risk.Aggregate.Tickets.{IsTally, collect-IsTally, price_all}
use scalp_tn_aaa.Risk.Aggregate.Sizing.{
  Decimals, Order, Budget, AggregateRiskSizing, budget_of, size_order_for_aggregate_risk,
  size_volume, raw_volume, finish_order, shrink,
}
use scalp_tn_aaa.Risk.Aggregate.Sizing.Ladder.{IsLadder}
use scalp_tn_aaa.Risk.Aggregate.Sizing.Safety.{
  IsCovered, accepted_order-IsCovered, unpriced_position_blocks,
}
use scalp_tn_aaa.Risk.Aggregate.Sizing.Largest.{IsStepped, IsLargest}
use scalp_tn_aaa.Risk.Aggregate.Sizing.Ends.{size_order_ends, accepted_order-IsLargest}

abbrev usd : ℕ → ℤ
usd n = pos (n * 1_000_000_000)

abbrev whole_steps : ℤ → ℤ → ℤ
whole_steps (pos a) (pos b) = pos (a / b)
whole_steps a b = pos 0

abbrev decimals : Decimals ℤ ℤ
decimals = record {
  decimal = λ x. x;
  to_float = λ x. x;
  add = ◌+ℤ◌;
  sub = ◌-ℤ◌;
  times = ◌*ℤ◌;
  floor_quotient = whole_steps;
  gt = λ a b. ltb_ℤ b a;
}

abbrev parse : Text → Option ℤ
parse _ = none

abbrev total : List ℤ → ℤ
total [] = pos 0
total (x ∷ xs) = x +ℤ total xs

abbrev amount : ℤ → Value ℤ
amount x = Value.number [] x

-- Gold with a tick of 0.01 worth one dollar, in steps of 0.01 lots up to 50.
abbrev gold : SymbolRiskSpec ℤ
gold = record {
  tick_size = pos 10_000_000;
  tick_value_per_lot = usd 1;
  account_currency = codes "USD";
  volume_min = pos 10_000_000;
  volume_step = pos 10_000_000;
  volume_max = usd 50;
  contract_size = none;
}

abbrev long : OpenPosition ℤ
long = mapping (
    (codes "id", string (codes "7"))
    ∷ (codes "type", string (codes "buy"))
    ∷ (codes "open_price", amount (usd 1995))
    ∷ (codes "sl", amount (usd 1990))
    ∷ (codes "volume", amount (pos 50_000_000))
    ∷ [])

abbrev purchase_with : List (OpenPosition ℤ) → Order ℤ
purchase_with positions = record {
  positions = positions;
  direction = codes "BUY";
  entry_price = amount (usd 2000);
  stop_loss = amount (usd 1990);
  account_balance = amount (usd 5000);
  per_trade_risk_percent = amount (usd 1);
  aggregate_risk_percent = amount (usd 3);
}

abbrev twice : List (OpenPosition ℤ)
twice = long ∷ long ∷ []

-- 50 dollars buy 0.05 lots, on top of the 25 that the open position can lose.
abbrev sized : AggregateRiskSizing ℤ
sized = record {
  lot_size = pos 50_000_000;
  existing_risk = usd 25;
  new_risk = usd 50;
  aggregate_risk = usd 75;
  aggregate_limit = usd 150;
  trade_limit = usd 50;
  risk_budget = usd 50;
  position_count = 1;
}

purchase_run :
    size_order_for_aggregate_risk decimals parse total (purchase_with twice) gold ≡ ok sized
unfolding size_order_for_aggregate_risk budget_of size_volume raw_volume finish_order shrink
    aggregate_open_risk collect priced charge position_id position_risk_amount ticket_number
    number_field risk_per_lot find put str float_of text_eq upper strip max min ◌-ℤ◌ ◌+ℤ◌ ◌*ℤ◌
purchase_run = refl

gold-IsLadder : IsLadder decimals (pos 10_000_000) (pos 10_000_000) 4999
unfolding ◌-ℤ◌ ◌+ℤ◌ ◌*ℤ◌
gold-IsLadder = record {
  bottom = refl;
  not_above = refl;
  down = λ k h. ground arith;
  above = λ k h. ground arith;
  rise = λ k h. ground arith;
}

difference : (m n : ℕ) → n ≤ m → pos m -ℤ pos n ≡ pos (m - n)
unfolding ◌-ℤ◌
difference m n h = ground arith

gold_steps :
    (raw : ℤ)
    → fixed.le (pos 10_000_000) raw ≡ true
    → fixed.le raw (usd 50) ≡ true
    → (n : ℕ) × (whole_steps (raw -ℤ pos 10_000_000) (pos 10_000_000) ≡ pos n) × (n ≤ 4999)
gold_steps (pos r) h k = (
  (r - 10_000_000) / 10_000_000,
  ap (λ x. whole_steps x (pos 10_000_000)) (difference r 10_000_000 (ground arith)),
  ground arith,
)
gold_steps (negsuc r) h k = absurd (ground arith)

gold-IsStepped : IsStepped decimals parse total gold 4999
gold-IsStepped = record {
  minimum_number = refl;
  maximum_number = refl;
  lowest = refl;
  ladder = gold-IsLadder;
  steps = gold_steps;
}

quotients :
    (b : Budget ℤ) (per_lot : ℤ)
    → budget_of decimals parse total (purchase_with twice) gold ≡ ok b
    → risk_per_lot parse (codes "BUY") (amount (usd 2000)) (amount (usd 1990)) gold ≡ ok per_lot
    → fixed.le (fixed.div b.risk_budget per_lot) (fixed.div b.risk_budget per_lot) ≡ true
quotients b per_lot _ _ = number (fixed.div b.risk_budget per_lot)

accepted_order-IsCovered_example :
    (b : Budget ℤ) × (per_lot : ℤ) × (budget_of decimals parse total (purchase_with twice) gold
      ≡ ok b)
    × (risk_per_lot parse (codes "BUY") (amount (usd 2000)) (amount (usd 1990)) gold ≡ ok per_lot)
    × IsCovered decimals parse total gold b per_lot sized
accepted_order-IsCovered_example =
    accepted_order-IsCovered decimals parse total gold (purchase_with twice) purchase_run

size_order_ends_example :
    size_order_for_aggregate_risk decimals parse total (purchase_with twice) gold ≢ err endless_loop
size_order_ends_example =
    size_order_ends parse gold decimals total fixed-IsOrdered gold-IsStepped (purchase_with twice)
      quotients

accepted_order-IsLargest_example :
    (b : Budget ℤ) × (per_lot raw : ℤ) × (budget_of decimals parse total (purchase_with twice) gold
      ≡ ok b)
    × (risk_per_lot parse (codes "BUY") (amount (usd 2000)) (amount (usd 1990)) gold ≡ ok per_lot)
    × (raw_volume decimals gold b per_lot ≡ ok raw)
    × IsLargest decimals parse total gold b per_lot raw sized
accepted_order-IsLargest_example =
    accepted_order-IsLargest parse gold decimals total fixed-IsOrdered gold-IsStepped
      (purchase_with twice) quotients purchase_run

unpriced_position_blocks_example :
    size_order_for_aggregate_risk decimals parse total
      (purchase_with (long ∷ not_mapping ∷ long ∷ []))
      gold
    ≢ ok sized
unfolding priced
unpriced_position_blocks_example =
    unpriced_position_blocks decimals parse total gold
      (purchase_with (long ∷ not_mapping ∷ long ∷ [])) (long ∷ []) not_mapping (long ∷ [])
      positions_malformed sized refl refl

abbrev rows_of_twice : List (Text × ℤ)
rows_of_twice = (codes "7", usd 25) ∷ (codes "7", usd 25) ∷ []

twice_priced : price_all parse gold twice ≡ ok rows_of_twice
unfolding priced position_id position_risk_amount ticket_number number_field find str float_of
    text_eq upper strip max ◌-ℤ◌
twice_priced = refl

twice_collected : collect parse gold twice [] ≡ ok ((codes "7", usd 25) ∷ [])
unfolding collect priced charge position_id position_risk_amount ticket_number number_field find put
    str float_of text_eq upper strip max ◌-ℤ◌
twice_collected = refl

collect-IsTally_example : IsTally rows_of_twice ((codes "7", usd 25) ∷ [])
collect-IsTally_example = collect-IsTally parse gold twice twice_priced twice_collected

-- The metadata of gold in MTAPI's extended volume units.
abbrev metadata : SymbolParams ℤ
metadata = record {
  root =
      (codes "symbol", string (codes "XAUUSD"))
      ∷ (codes "tickSize", amount (pos 10_000_000))
      ∷ (codes "tickValue", amount (usd 1))
      ∷ (codes "volumeStep", amount (usd 1_000_000))
      ∷ (codes "volumeMax", amount (usd 5_000_000_000))
      ∷ [];
  symbol_info =
      some
        ((codes "tickSize", Value.boolean true) ∷ (codes "volumeMin", amount (usd 1_000_000)) ∷ []);
  symbol_group = none;
}

metadata_run : build_symbol_risk_spec parse none (some metadata) (codes " usd") ≡ ok gold
unfolding build_symbol_risk_spec spec_of volume_scale configured_scale tick_economics volume_limits
    positive_number currency_of tick_value_of volume_constraint constraint_value
    extended_volume_to_lots is_insane find str float_of text_eq upper strip
metadata_run = refl

build_symbol_risk_spec-IsUsable_example : IsUsable gold
build_symbol_risk_spec-IsUsable_example =
    build_symbol_risk_spec-IsUsable parse none (some metadata) (codes " usd") metadata_run
