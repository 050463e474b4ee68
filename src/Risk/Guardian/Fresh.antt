-- ===== src/Risk/Guardian/Fresh.antt =====
-- A check right after an accepted reset.
use scalp_tn_aaa.Base.{◌≡◌, true, false, some, arith, ap, ◌∙◌}
use scalp_tn_aaa.Base.Text.{Text}
use scalp_tn_aaa.Float.{Float, IsOrdered, IsExact, nought, IsNumber}
use scalp_tn_aaa.Risk.Guardian.State.{Guardian, Now}
use scalp_tn_aaa.Risk.Guardian.{
  reset_halt, maybe_day_reset, clear_daily_halt, make_baseline, percent_of, check, prepared,
  raise_peak, expire_baseline, daily_pct, drawdown_pct, current_baseline, tolerance, breaches_daily,
  breaches_drawdown,
}
use scalp_tn_aaa.Risk.Guardian.Halts.{check_halts_iff}
use scalp_tn_aaa.Risk.Guardian.Resets.{IsRebased, reset_halt-IsRebased, reset_halt_inv}

module _ {F : Type 0} ⦃fl : Float F⦄ where
  maybe_day_reset-limits :
      (now : Now) (balance : F) (g : Guardian F)
      → let rolled = maybe_day_reset now balance g in
        (rolled.daily_loss_limit_pct ≡ g.daily_loss_limit_pct)
        × (rolled.max_drawdown_pct ≡ g.max_drawdown_pct)
        × (rolled.initialized ≡ g.initialized)
  unfolding maybe_day_reset clear_daily_halt
  maybe_day_reset-limits now balance g = ground arith

  percent_of-zero : (exact : IsExact F) (x : F) → percent_of nought x ≡ nought
  percent_of-zero exact x = ground (arith, exact.zero_div x, exact.zero_mul 100 1)

  module _ (now later : Now) (balance equity : F) (id : Text) (rolled a : Guardian F)
      (v : IsRebased now balance equity id rolled a) (day : later.today ≡ now.today) where
    maybe_day_reset-same : maybe_day_reset later balance a ≡ a
    unfolding maybe_day_reset
    maybe_day_reset-same = simp v.last_day (ground arith)

    raise_peak-same : (laws : IsOrdered F) → IsNumber equity → raise_peak later equity a ≡ a
    unfolding raise_peak
    raise_peak-same laws num = ground (arith, laws.lt-eq equity equity num num, v.equity_peak)

    expire_baseline-same : expire_baseline later a ≡ a
    unfolding expire_baseline
    expire_baseline-same = simp v.baseline (ground arith)

    prepared-same : (laws : IsOrdered F) → IsNumber equity → prepared later balance equity a ≡ a
    unfolding prepared
    prepared-same laws num =
        ap (λ g. expire_baseline later (raise_peak later equity g)) maybe_day_reset-same
        ∙ ap (expire_baseline later) (raise_peak-same laws num)
        ∙ expire_baseline-same

    current_baseline-same :
        current_baseline later a.manual_reset_baseline
        ≡ some (make_baseline now balance equity id rolled)
    current_baseline-same = simp v.baseline (ground arith)

    daily_pct-zero :
        (exact : IsExact F)
        → fl.is_finite (fl.sub balance rolled.day_open_balance) ≡ true
        → daily_pct a.day_open_balance balance (current_baseline later a.manual_reset_baseline)
          ≡ nought
    daily_pct-zero exact finite =
        simp (current_baseline-same, v.day_open_balance, exact.sub_self _ finite)
          (percent_of-zero exact balance)

    drawdown_pct-zero :
        (exact : IsExact F)
        → fl.is_finite equity ≡ true
        → drawdown_pct a.equity_peak equity ≡ nought
    drawdown_pct-zero exact finite =
        simp (v.equity_peak, exact.sub_self equity finite) (percent_of-zero exact equity)

    -- Both metrics are zero, so limits beyond the tolerance are not met.
    check-calm :
        (laws : IsOrdered F) (exact : IsExact F)
        → a.initialized ≡ true
        → fl.is_finite equity ≡ true
        → fl.is_finite (fl.sub balance rolled.day_open_balance) ≡ true
        → fl.le nought (fl.add (fl.neg rolled.daily_loss_limit_pct) tolerance) ≡ false
        → fl.le (fl.sub rolled.max_drawdown_pct tolerance) nought ≡ false
        → (check later balance equity a).0.halted ≡ false
    check-calm laws exact started fe fd daily deep =
        let same = prepared-same laws (laws.number_of_finite equity fe) in
        let halts = rw same at (check_halts_iff later balance equity a started) in
        let small : breaches_daily a (
              daily_pct a.day_open_balance balance (current_baseline later a.manual_reset_baseline))
            ≡ false =
          simp (daily_pct-zero exact fd) (rw v.daily_loss_limit_pct daily) in
        let shallow : breaches_drawdown a (drawdown_pct a.equity_peak equity) ≡ false =
          simp (drawdown_pct-zero exact fe) (rw v.max_drawdown_pct deep) in
        ground (arith, v.halted, halts)

  -- The same account figures, checked again on the day of an accepted reset, do not halt: the loss
  -- of the day and the drawdown are measured from the reset, and are zero. The limits are to be
  -- positive beyond the tolerance, and the figures and the day's result finite.
  pub check_after_reset :
      (laws : IsOrdered F) (exact : IsExact F) (now later : Now) (balance equity : F) (id : Text)
      (g : Guardian F)
      → (reset_halt now (some balance) (some equity) id g).0 ≡ true
      → later.today ≡ now.today
      → fl.is_finite equity ≡ true
      → fl.is_finite (fl.sub balance (maybe_day_reset now balance g).day_open_balance) ≡ true
      → fl.le nought (fl.add (fl.neg g.daily_loss_limit_pct) tolerance) ≡ false
      → fl.le (fl.sub g.max_drawdown_pct tolerance) nought ≡ false
      → let after = (reset_halt now (some balance) (some equity) id g).1 in
        (check later balance equity after).0.halted ≡ false
  check_after_reset laws exact now later balance equity id g h day fe fd daily deep =
      let rolled = maybe_day_reset now balance g in
      let v = reset_halt-IsRebased now balance equity id g h in
      let (same_daily, same_deep, same_started) = maybe_day_reset-limits now balance g in
      let (_, started, _, _, _) = reset_halt_inv now balance equity id g h in
      check-calm now later balance equity id rolled _ v day laws exact
        (v.initialized ∙ same_started ∙ started) fe fd (rw same_daily daily) (rw same_deep deep)
