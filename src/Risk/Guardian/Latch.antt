-- ===== src/Risk/Guardian/Latch.antt =====
-- A drawdown halt through any later checks.
use scalp_tn_aaa.Base.{◌≡◌, true, false, List, [], ◌∷◌, arith, ◌∙◌, sym}
use scalp_tn_aaa.Base.Text.{Text, contains}
use scalp_tn_aaa.Float.{Float}
use scalp_tn_aaa.Risk.Guardian.State.{Guardian, Now}
use scalp_tn_aaa.Risk.Guardian.{
  daily_loss, drawdown_reason, check_state, prepared, check_prepared, evaluate, trigger,
  maybe_day_reset, raise_peak, expire_baseline, breaches_daily, daily_pct, current_baseline,
  clear_daily_halt, drawdown_pct, breaches_drawdown,
}
use scalp_tn_aaa.Risk.Guardian.Rollover.{HasNoD, drawdown_reason-contains, check_state-eq}

module _ {F : Type 0} ⦃fl : Float F⦄ where
  maybe_day_reset-keeps :
      (now : Now) (balance : F) (g : Guardian F)
      → contains daily_loss g.halt_reason ≡ false
      → let g' = maybe_day_reset now balance g in
        (g'.halted ≡ g.halted) × (g'.halt_reason ≡ g.halt_reason) × (g'.initialized ≡ g.initialized)
  unfolding maybe_day_reset clear_daily_halt
  maybe_day_reset-keeps now balance g h = ground arith

  prepared-keeps :
      (now : Now) (balance equity : F) (g : Guardian F)
      → contains daily_loss g.halt_reason ≡ false
      → let p = prepared now balance equity g in
        (p.halted ≡ g.halted) × (p.halt_reason ≡ g.halt_reason) × (p.initialized ≡ g.initialized)
  unfolding prepared raise_peak expire_baseline
  prepared-keeps now balance equity g h = ground (arith, maybe_day_reset-keeps now balance g h)

  check_prepared-keeps :
      (now : Now) (balance equity : F) (p : Guardian F)
      → p.halted ≡ true
      → let p' = check_prepared now balance equity p in
        (p'.halted ≡ true) × (p'.halt_reason ≡ p.halt_reason) × (p'.initialized ≡ p.initialized)
  unfolding check_prepared evaluate
  check_prepared-keeps now balance equity p h = ground arith

  -- Halted for another reason than the loss of a day.
  pub record IsLatched (reason : Text) (g : Guardian F) : Type 0 where
    pub initialized : g.initialized ≡ true
    pub halted : g.halted ≡ true
    pub same : g.halt_reason ≡ reason

  check_state-IsLatched :
      (now : Now) (balance equity : F) (reason : Text) (g : Guardian F)
      → contains daily_loss reason ≡ false
      → IsLatched reason g
      → IsLatched reason (check_state now balance equity g)
  check_state-IsLatched now balance equity reason g other v =
      let p = prepared now balance equity g in
      let (a, b, c) = prepared-keeps now balance equity g (rw v.same other) in
      let (a', b', c') = check_prepared-keeps now balance equity p (a ∙ v.halted) in
      rw (check_state-eq now balance equity g v.initialized)
        record { initialized = c' ∙ c ∙ v.initialized; halted = a'; same = b' ∙ b ∙ v.same }

  -- Checks, one after another.
  pub run_checks : List (Now × F × F) → Guardian F → Guardian F
  run_checks [] g = g
  run_checks ((now, balance, equity) ∷ rest) g = run_checks rest (check_state now balance equity g)

  run_checks-IsLatched :
      (cs : List (Now × F × F)) (reason : Text) (g : Guardian F)
      → contains daily_loss reason ≡ false
      → IsLatched reason g
      → IsLatched reason (run_checks cs g)
  unfolding run_checks
  run_checks-IsLatched [] reason g other v = v
  run_checks-IsLatched ((now, balance, equity) ∷ cs) reason g other v =
      run_checks-IsLatched cs reason (check_state now balance equity g) other
        (check_state-IsLatched now balance equity reason g other v)

  check_prepared-drawdown :
      (now : Now) (balance equity : F) (p : Guardian F)
      → p.halted ≡ false
      → breaches_daily p
          (daily_pct p.day_open_balance balance (current_baseline now p.manual_reset_baseline))
        ≡ false
      → breaches_drawdown p (drawdown_pct p.equity_peak equity) ≡ true
      → let p' = check_prepared now balance equity p in
        (p'.halted ≡ true)
        × (p'.initialized ≡ p.initialized)
        × (p'.halt_reason
            ≡ drawdown_reason
                (drawdown_pct p.equity_peak equity)
                equity
                p.equity_peak
                p.max_drawdown_pct)
  unfolding check_prepared evaluate trigger
  check_prepared-drawdown now balance equity p h calm deep = ground arith

  maybe_day_reset-initialized :
      (now : Now) (balance : F) (g : Guardian F)
      → (maybe_day_reset now balance g).initialized ≡ g.initialized
  unfolding maybe_day_reset clear_daily_halt
  maybe_day_reset-initialized now balance g = ground arith

  prepared-initialized :
      (now : Now) (balance equity : F) (g : Guardian F)
      → (prepared now balance equity g).initialized ≡ g.initialized
  unfolding prepared raise_peak expire_baseline
  prepared-initialized now balance equity g =
      ground (arith, maybe_day_reset-initialized now balance g)

  module _ (plain : (spec : Text) (x : F) → HasNoD (fl.fmt spec x)) where
    -- A halt that the drawdown limit has caused stays, with its reason, through whatever checks
    -- follow, on whatever days. The guardian is initialised, it was not halted when the limits
    -- were evaluated, and the daily limit was kept; formatted numbers hold no `D`.
    pub drawdown_halt_stays :
        (now : Now) (balance equity : F) (g : Guardian F) (later : List (Now × F × F))
        → g.initialized ≡ true
        → let p = prepared now balance equity g in
          p.halted ≡ false
          → breaches_daily p
              (daily_pct p.day_open_balance balance (current_baseline now p.manual_reset_baseline))
            ≡ false
          → breaches_drawdown p (drawdown_pct p.equity_peak equity) ≡ true
          → let first = check_state now balance equity g in
            let last = run_checks later first in
            (first.halted ≡ true) × (last.halted ≡ true) × (last.halt_reason ≡ first.halt_reason)
    drawdown_halt_stays now balance equity g later h calm small deep =
        let p = prepared now balance equity g in
        let (a, b, c) = check_prepared-drawdown now balance equity p calm small deep in
        let after = check_state-eq now balance equity g h in
        let reason =
          drawdown_reason (drawdown_pct p.equity_peak equity) equity p.equity_peak
            p.max_drawdown_pct in
        let latched : IsLatched reason (check_state now balance equity g) = rw after record {
          initialized = b ∙ prepared-initialized now balance equity g ∙ h;
          halted = a;
          same = c;
        } in
        let last =
          run_checks-IsLatched later reason (check_state now balance equity g)
            (drawdown_reason-contains plain (drawdown_pct p.equity_peak equity) equity p.equity_peak
              p.max_drawdown_pct)
            latched in
        (latched.halted, last.halted, last.same ∙ sym latched.same)
