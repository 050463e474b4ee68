-- ===== src/Risk/Aggregate/Sizing/Largest.antt =====
-- The call always ends, and the volume of an accepted order is the largest one that the budget and
-- the broker allow.
use mathlib.Core.Path.{subst}
use scalp_tn_aaa.Base.{
  some-injective, ℕ, ◌≤◌, ◌≡◌, ◌≢◌, false, sym, ◌∙◌, ap, ◌&&◌, ◌||◌, Option, some, List, arith,
}
use scalp_tn_aaa.Base.Int.{pos, pos_part}
use scalp_tn_aaa.Base.Text.{Text}
use scalp_tn_aaa.Base.Results.{ok, err, >>=-ok, >>-ok, >>=-spares, >>-spares, ok-injective}
use scalp_tn_aaa.Float.{Float, IsOrdered, IsNumber, ◌≼◌, min, nought, min_le_right, le_of_not_lt}
use scalp_tn_aaa.Risk.Aggregate.{
  SymbolRiskSpec, blocked_minimum_lot, zero_division, divide, endless_loop,
  blocked_volume_constraint,
}
use scalp_tn_aaa.Risk.Aggregate.Sizing.{
  Decimals, Budget, AggregateRiskSizing, size_volume, raw_volume, finish_order, step_count, shrink,
  shrunk, rung,
}
use scalp_tn_aaa.Risk.Aggregate.Sizing.Ladder.{
  IsLadder, IsBest, rung_at, lower, shrink-IsBest, rung-le,
}
use scalp_tn_aaa.Risk.Aggregate.Sizing.Safety.{size_volume-Chosen, finish_order-IsCovered}

module _ {F D : Type 0} ⦃fl : Float F⦄ (dec : Decimals F D) (parse : Text → Option F)
    (sum : List F → F) (spec : SymbolRiskSpec F) where
  -- What the sizing relies on: the broker's limits are numbers, the minimum reads back from its
  -- decimal, the decimals keep `top` steps above it exact, and a volume within the broker's limits
  -- is a whole number of steps, `top` at most, above the minimum.
  pub record IsStepped (top : ℕ) : Type 0 where
    pub minimum_number : IsNumber spec.volume_min
    pub maximum_number : IsNumber spec.volume_max
    pub lowest : dec.to_float (dec.decimal spec.volume_min) ≡ spec.volume_min
    pub ladder : IsLadder dec (dec.decimal spec.volume_min) (dec.decimal spec.volume_step) top
    pub steps :
        (raw : F)
        → spec.volume_min ≼ raw
        → raw ≼ spec.volume_max
        → (n : ℕ) × (step_count dec spec raw ≡ pos n) × (n ≤ top)

  abbrev pub lot_at : ℕ → F
  lot_at k =
      dec.to_float (rung_at dec (dec.decimal spec.volume_min) (dec.decimal spec.volume_step) k)

  -- The order is within its budget, and of the volumes from the minimum up to `raw`, in steps, it is
  -- the largest such one.
  pub record IsLargest (b : Budget F) (per_lot raw : F) (s : AggregateRiskSizing F) : Type 0 where
    pub steps : ℕ
    pub chosen : ℕ
    pub counted : step_count dec spec raw ≡ pos steps
    pub lot : s.lot_size ≡ lot_at chosen
    pub best :
        IsBest dec
          (dec.decimal spec.volume_min)
          (dec.decimal spec.volume_step)
          b.risk_budget
          per_lot
          steps
          chosen
    pub in_budget : fl.lt b.risk_budget (fl.mul per_lot s.lot_size) ≡ false
    pub at_least : spec.volume_min ≼ s.lot_size

  divided : (a b : F) {q : F} → divide a b ≡ ok q → q ≡ fl.div a b
  divided a b h = ground arith

  raw_volume-limits :
      (laws : IsOrdered F) {top : ℕ} (l : IsStepped top) (b : Budget F) (per_lot : F) {raw : F}
      → IsNumber (fl.div b.risk_budget per_lot)
      → raw_volume dec spec b per_lot ≡ ok raw
      → (spec.volume_min ≼ raw) × (raw ≼ spec.volume_max)
  unfolding raw_volume
  raw_volume-limits laws l b per_lot num h =
      let (q, hq, h1) = >>=-ok (divide b.risk_budget per_lot) _ h in
      let raw' = min q spec.volume_max in
      let (high, h2) = >>-ok (fl.lt raw' spec.volume_min) blocked_minimum_lot _ h1 in
      let (_, h3) =
        >>-ok (fl.le spec.volume_step nought && fl.le nought spec.volume_step) zero_division _ h2 in
      let nq = subst IsNumber (sym (divided b.risk_budget per_lot hq)) num in
      let le = min_le_right laws q spec.volume_max nq l.maximum_number in
      let (nraw, _) = laws.refl_of_le raw' spec.volume_max le in
      let ge = le_of_not_lt laws raw' spec.volume_min nraw l.minimum_number high in
      let same = ok-injective h3 in
      subst (λ x. (spec.volume_min ≼ x) × (x ≼ spec.volume_max)) same (ge, le)

  shrunk-Ends : (o : Option D) {v : D} → o ≡ some v → shrunk dec o ≢ err endless_loop
  shrunk-Ends o h k = ground arith

  finish_order-Ends :
      (b : Budget F) (per_lot volume : F) → finish_order dec b per_lot volume ≢ err endless_loop
  unfolding finish_order
  finish_order-Ends b per_lot volume h = ground arith

  -- The hypotheses: a ladder of decimals, and a quotient of the budget and the loss of a lot that is
  -- a number.
  module _ (laws : IsOrdered F) {top : ℕ} (l : IsStepped top) (b : Budget F) (per_lot raw : F)
      (num : IsNumber (fl.div b.risk_budget per_lot))
      (run : raw_volume dec spec b per_lot ≡ ok raw) where
    abbrev least : D
    least = dec.decimal spec.volume_min

    abbrev step : D
    step = dec.decimal spec.volume_step

    loop_result :
        (n k : ℕ) × (step_count dec spec raw ≡ pos n)
        × (n ≤ top)
        × IsBest dec least step b.risk_budget per_lot n k
        × (shrink dec
              (pos_part (step_count dec spec raw))
              b.risk_budget
              per_lot
              least
              step
              (rung dec least step (step_count dec spec raw))
            ≡ some (rung_at dec least step k))
    loop_result =
        let (ge, le) = raw_volume-limits laws l b per_lot num run in
        let (n, e, small) = l.steps raw ge le in
        let (k, found, best) =
          shrink-IsBest dec least step b.risk_budget per_lot n
            (lower dec least step n small l.ladder) in
        (n, k, e, small, best, rw e found)

    pub chosen-IsLargest :
        {s : AggregateRiskSizing F}
        → size_volume dec spec b per_lot raw ≡ ok s
        → IsLargest b per_lot raw s
    chosen-IsLargest {s} h =
        let c = size_volume-Chosen dec parse sum spec b per_lot raw h in
        let (n, k, e, small, best, found) = loop_result in
        let (covered, lot) =
          finish_order-IsCovered dec parse sum spec b per_lot (dec.to_float c.volume) c.finish_eq in
        let same = lot ∙ ap dec.to_float (some-injective (sym c.shrink_eq ∙ found)) in
        let lowest = ap dec.to_float l.ladder.bottom ∙ l.lowest in
        let rise =
          rung-le dec least step laws n 0 k (lower dec least step n small l.ladder)
            (subst IsNumber (sym lowest) l.minimum_number) (omega arith) best.within in
        record {
          steps = n;
          chosen = k;
          counted = e;
          lot = same;
          best = best;
          in_budget = covered.in_budget;
          at_least = subst (λ x. x ≼ s.lot_size) lowest (subst (λ x. lot_at 0 ≼ x) (sym same) rise);
        }

    -- With the fuel of `step_count` the loop ends.
    pub loop_ends : size_volume dec spec b per_lot raw ≢ err endless_loop
    unfolding size_volume
    loop_ends =
        let (n, k, e, _, _, found) = loop_result in
        let first = rung dec least step (step_count dec spec raw) in
        >>-spares
          (fl.lt (dec.to_float first) spec.volume_min || fl.lt spec.volume_max (dec.to_float first))
          blocked_volume_constraint _ (λ h. cc)
          (>>=-spares (shrunk dec _) _ (shrunk-Ends _ found)
            (λ v. finish_order-Ends b per_lot (dec.to_float v)))
