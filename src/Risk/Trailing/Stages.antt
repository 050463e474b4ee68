-- ===== src/Risk/Trailing/Stages.antt =====
-- The stages of one decision.
use scalp_tn_aaa.Base.{◌≡◌, ◌↔◌, Bool, true, false, not, some, List, is_some, arith}
use scalp_tn_aaa.Float.{Float, nought, gt}
use scalp_tn_aaa.Risk.Trailing.{
  TrailConfig, TrailInput, Candle, Stage, breakeven, chandelier, is_buy, atr, armed,
  at_or_beyond_breakeven, choose_trail, trail_decision, compute_adaptive_trail,
}

abbrev pub is_waiting : Stage → Bool
is_waiting Stage.waiting_for_1r = true
is_waiting _ = false

module _ {F : Type 0} ⦃fl : Float F⦄ where
  choose_trail_stages :
      (cfg : TrailConfig F) (current_atr : F) (i : TrailInput F) (entry : F)
      → i.entry_price ≡ some entry
      → let beyond = at_or_beyond_breakeven (is_buy i.direction) entry i.current_sl in
        let trail = choose_trail cfg current_atr i in
        ((trail.stage ≡ breakeven) ↔ ((armed i ≡ true) × (beyond ≡ false)))
        × ((trail.stage ≡ chandelier)
            ↔ ((armed i ≡ true) × (beyond ≡ true) × (gt current_atr nought ≡ true)))
        × (is_some trail.candidate ≡ not (is_waiting trail.stage))
  unfolding choose_trail
  choose_trail_stages cfg current_atr i entry h = ground arith

  -- With a readable entry price the decision is at break-even exactly if one unit of initial risk has
  -- been earned and the live stop has not reached the entry, and at the Chandelier stop exactly if
  -- the live stop has and the ATR is positive; and it proposes a stop in these two stages only.
  pub compute_adaptive_trail_stages :
      (sum : List F → F) (cfg : TrailConfig F) (candles : List (Candle F)) (i : TrailInput F)
      (entry : F)
      → i.entry_price ≡ some entry
      → let beyond = at_or_beyond_breakeven (is_buy i.direction) entry i.current_sl in
        let d = compute_adaptive_trail sum cfg candles i in
        ((d.stage ≡ breakeven) ↔ ((armed i ≡ true) × (beyond ≡ false)))
        × ((d.stage ≡ chandelier) ↔ (
            (armed i ≡ true)
            × (beyond ≡ true)
            × (gt (atr sum candles cfg.atr_period) nought ≡ true)))
        × (is_some d.candidate_sl ≡ not (is_waiting d.stage))
  unfolding compute_adaptive_trail trail_decision
  compute_adaptive_trail_stages sum cfg candles i entry h =
      choose_trail_stages cfg (atr sum candles cfg.atr_period) i entry h
