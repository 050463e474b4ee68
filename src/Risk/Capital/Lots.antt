-- ===== src/Risk/Capital/Lots.antt =====
-- The size of a trade.
use scalp_tn_aaa.Base.{
  Bool, false, Option, none, some, if◌then◌else◌, ◌≡◌, ◌⊎◌, refl, true, arith, inl, inr,
}
use scalp_tn_aaa.Float.{
  Float, IsOrdered, IsMonotone, IsFloored, ◌≼◌, nought, max, min, le_max_left, min_le_left,
}
use scalp_tn_aaa.Risk.Capital.{
  map_some, CapitalInput, CapitalOutput, LotSize, lot_for, raw_steps, parameters_with, budget_for,
  sl_distance, clamp, min_lot, max_lot, calc_lot_size, calc_trade_parameters, stepped_lot,
}

module _ {F : Type 0} ⦃fl : Float F⦄ where
  -- The lot lies between the rounded bounds, or it is the least lot and marked as exceeding the budget.
  unfoldable pub IsBounded : F → Bool → Type 0
  IsBounded lot exceeded =
      ((lot ≡ min_lot) × (exceeded ≡ true))
      ⊎ ((fl.round 4 min_lot ≼ lot) × (lot ≼ fl.round 4 max_lot))

  -- What the size of a trade comes to: an exception stands for steps that are not finite, behind a stop
  -- whose distance is not 0 or less.
  unfoldable pub IsSized : F → F → Option (CapitalOutput F) → Type 0
  IsSized sl_dist risk_budget none =
      (fl.le sl_dist nought ≡ false) × (fl.is_finite (raw_steps sl_dist risk_budget) ≡ false)
  IsSized sl_dist risk_budget (some out) = IsBounded out.lot_size out.min_lot_risk_exceeded

module _ {F : Type 0} ⦃fl : Float F⦄ (laws : IsOrdered F) where
  pub max_le : (a b c : F) → a ≼ c → b ≼ c → max a b ≼ c
  unfolding max
  max_le a b c h k = ground arith

  -- A clamped value lies between the bounds, even if it is no number.
  pub clamp-bounds : (val lo hi : F) → lo ≼ hi → (lo ≼ clamp val lo hi) × (clamp val lo hi ≼ hi)
  unfolding clamp
  clamp-bounds val lo hi h =
      let (number_lo, number_hi) = laws.refl_of_le lo hi h in
      (
        le_max_left laws lo (min hi val) number_lo,
        max_le lo (min hi val) hi h (min_le_left laws hi val number_hi),
      )

  module _ (mono : IsMonotone F) (floored : IsFloored F) (ordered : min_lot {F = F} ≼ max_lot) where
    lot_for-IsBounded :
        (sl_dist risk_budget stepped : F)
        → let lot = lot_for sl_dist risk_budget stepped in IsBounded lot.lot_size lot.exceeded
    unfolding IsBounded
    lot_for-IsBounded sl_dist risk_budget stepped =
        let (low, high) = clamp-bounds stepped min_lot max_lot ordered in
        inr (
          mono.round_mono 4 min_lot (clamp stepped min_lot max_lot) low,
          mono.round_mono 4 (clamp stepped min_lot max_lot) max_lot high,
        )

    stepped-IsSized :
        (inp : CapitalInput F) (sl_dist risk_budget : F) (steps : Option F)
        → fl.floor (raw_steps sl_dist risk_budget) ≡ steps
        → fl.le sl_dist nought ≡ false
        → IsSized sl_dist risk_budget (
            map_some
              (parameters_with inp)
              (map_some (lot_for sl_dist risk_budget) (map_some (λ n. fl.mul n min_lot) steps)))
    unfolding IsSized
    stepped-IsSized inp sl_dist risk_budget none e h =
        (h, floored.floor_none (raw_steps sl_dist risk_budget) e)
    stepped-IsSized inp sl_dist risk_budget (some n) e h =
        lot_for-IsBounded sl_dist risk_budget (fl.mul n min_lot)

    size-IsSized :
        (inp : CapitalInput F) (sl_dist risk_budget : F) (least : LotSize F) (b : Bool)
        → fl.le sl_dist nought ≡ b
        → IsBounded least.lot_size least.exceeded
        → IsSized sl_dist risk_budget (
            map_some (parameters_with inp) (
              if b
              then some least
              else map_some (lot_for sl_dist risk_budget) (stepped_lot sl_dist risk_budget)))
    unfolding IsSized
    size-IsSized inp sl_dist risk_budget least true e h = h
    size-IsSized inp sl_dist risk_budget least false e h =
        stepped-IsSized inp sl_dist risk_budget (fl.floor (raw_steps sl_dist risk_budget)) refl e

    -- Whatever the account and the stop are: the lot of a trade lies between the rounded bounds of 0.01
    -- and 50, or it is the least lot and marked as exceeding the risk budget; and the call raises only
    -- where the stop's distance is not 0 or less and the number of steps that the budget pays for is
    -- not finite. The literal 0.01 is not to be above 50.
    pub calc_trade_parameters-IsSized :
        (inp : CapitalInput F)
        → IsSized
            (sl_distance inp)
            (budget_for inp.account_balance inp.risk_percent)
            (calc_trade_parameters inp)
    unfolding calc_trade_parameters calc_lot_size IsBounded
    calc_trade_parameters-IsSized inp =
        let sl_dist = sl_distance inp in
        let risk_budget = budget_for inp.account_balance inp.risk_percent in
        size-IsSized inp sl_dist risk_budget _ (fl.le sl_dist nought) refl (inl (refl, refl))
