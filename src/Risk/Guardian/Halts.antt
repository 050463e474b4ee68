-- ===== src/Risk/Guardian/Halts.antt =====
-- When `check` halts, and which halts stay.
use scalp_tn_aaa.Base.{◌≡◌, ◌↔◌, ◌⊎◌, Bool, true, false, not, ◌&&◌, arith}
use scalp_tn_aaa.Base.Text.{contains}
use scalp_tn_aaa.Float.{Float}
use scalp_tn_aaa.Risk.Guardian.State.{Guardian, Now}
use scalp_tn_aaa.Risk.Guardian.{
  check, check_state, prepared, check_prepared, evaluate, trigger, maybe_day_reset, raise_peak,
  expire_baseline, current_baseline, breaches_daily, breaches_drawdown, daily_pct, drawdown_pct,
  is_new_day, daily_loss, status_prepared,
}

module _ {F : Type 0} ⦃fl : Float F⦄ where
  -- The halt that survives the rollover.
  abbrev pub stays_halted : Now → Guardian F → Bool
  stays_halted now g =
      g.halted && not (is_new_day now g.last_day && contains daily_loss g.halt_reason)

  maybe_day_reset-halted :
      (now : Now) (balance : F) (g : Guardian F)
      → (maybe_day_reset now balance g).halted ≡ stays_halted now g
  unfolding maybe_day_reset
  maybe_day_reset-halted now balance g = ground arith

  pub prepared-halted :
      (now : Now) (balance equity : F) (g : Guardian F)
      → (prepared now balance equity g).halted ≡ stays_halted now g
  unfolding prepared raise_peak expire_baseline
  prepared-halted now balance equity g = ground (arith, maybe_day_reset-halted now balance g)

  pub check_prepared-halted :
      (now : Now) (balance equity : F) (p : Guardian F)
      → let baseline = current_baseline now p.manual_reset_baseline in
        ((check_prepared now balance equity p).halted ≡ true) ↔ (
          (p.halted ≡ true)
          ⊎ (breaches_daily p (daily_pct p.day_open_balance balance baseline) ≡ true)
          ⊎ (breaches_drawdown p (drawdown_pct p.equity_peak equity) ≡ true))
  unfolding check_prepared evaluate trigger
  check_prepared-halted now balance equity p = ground arith

  -- An initialised guardian is halted after a check exactly if its halt outlives the rollover, or
  -- the loss of the day reaches the limit, or the drawdown does; the metrics are those of the day,
  -- the peak and the reset baseline after the check has brought them up to date.
  pub check_halts_iff :
      (now : Now) (balance equity : F) (g : Guardian F)
      → g.initialized ≡ true
      → let p = prepared now balance equity g in
        let baseline = current_baseline now p.manual_reset_baseline in
        ((check now balance equity g).0.halted ≡ true) ↔ (
          (stays_halted now g ≡ true)
          ⊎ (breaches_daily p (daily_pct p.day_open_balance balance baseline) ≡ true)
          ⊎ (breaches_drawdown p (drawdown_pct p.equity_peak equity) ≡ true))
  unfolding check check_state status_prepared
  check_halts_iff now balance equity g h = ground (
    arith,
    check_prepared-halted now balance equity (prepared now balance equity g),
    prepared-halted now balance equity g,
  )

  -- A guardian that no account data has reached answers that trading is halted, and stays as it was.
  pub check_uninitialized :
      (now : Now) (balance equity : F) (g : Guardian F)
      → g.initialized ≡ false
      → let (s, after) = check now balance equity g in (s.halted ≡ true) × (after ≡ g)
  unfolding check check_state
  check_uninitialized now balance equity g h = ground arith
