-- ===== src/Risk/Guardian/Resets.antt =====
-- The manual reset.
use scalp_tn_aaa.Base.{◌≡◌, refl, true, false, Option, none, some, arith, ap, ◌⊎◌, inl, inr}
use scalp_tn_aaa.Base.Text.{Text, text_eq_refl, is_empty}
use scalp_tn_aaa.Float.{Float, nought}
use scalp_tn_aaa.Risk.Guardian.State.{Guardian, Now}
use scalp_tn_aaa.Risk.Guardian.{
  reset_halt, reset_checked, rebase, maybe_day_reset, is_new_day, baseline_request, make_baseline,
}

module _ {F : Type 0} ⦃fl : Float F⦄ where
  -- What an accepted reset has done, from the state `rolled` that the rollover has left.
  pub record IsRebased (now : Now) (balance equity : F) (id : Text) (rolled after : Guardian F)
      : Type 0 where
    pub halted : after.halted ≡ false
    pub initialized : after.initialized ≡ rolled.initialized
    pub baseline : after.manual_reset_baseline ≡ some (make_baseline now balance equity id rolled)
    pub equity_peak : after.equity_peak ≡ equity
    pub last_day : after.last_day ≡ some now.today
    pub day_open_balance : after.day_open_balance ≡ rolled.day_open_balance
    pub daily_loss_limit_pct : after.daily_loss_limit_pct ≡ rolled.daily_loss_limit_pct
    pub max_drawdown_pct : after.max_drawdown_pct ≡ rolled.max_drawdown_pct

  reset_checked-IsRebased :
      (now : Now) (balance equity : F) (id : Text) (g : Guardian F)
      → (reset_checked now balance equity id g).0 ≡ true
      → IsRebased now balance equity id
          (maybe_day_reset now balance g)
          (reset_checked now balance equity id g).1
  unfolding reset_checked rebase
  reset_checked-IsRebased now balance equity id g h = ground arith

  -- A reset is accepted only while the guardian is halted and initialised, with positive figures;
  -- what it then does is the rebase.
  pub reset_halt_inv :
      (now : Now) (balance equity : F) (id : Text) (g : Guardian F)
      → let r = reset_halt now (some balance) (some equity) id g in
        r.0 ≡ true
        → (g.halted ≡ true)
          × (g.initialized ≡ true)
          × (fl.le balance nought ≡ false)
          × (fl.le equity nought ≡ false)
          × (r ≡ reset_checked now balance equity id g)
  unfolding reset_halt
  reset_halt_inv now balance equity id g h = ground arith

  pub reset_halt-IsRebased :
      (now : Now) (balance equity : F) (id : Text) (g : Guardian F)
      → let r = reset_halt now (some balance) (some equity) id g in
        r.0 ≡ true → IsRebased now balance equity id (maybe_day_reset now balance g) r.1
  reset_halt-IsRebased now balance equity id g h =
      let (_, _, _, _, same) = reset_halt_inv now balance equity id g h in
      rw same (reset_checked-IsRebased now balance equity id g (rw same at h))

  duplicate_refused :
      (now : Now) (b e : Option F) (id : Text) (g : Guardian F)
      → is_empty id ≡ false
      → baseline_request g.manual_reset_baseline ≡ id
      → reset_halt now b e id g ≡ (false, g)
  unfolding reset_halt
  duplicate_refused now b e id g h same = rw (same, text_eq_refl id, h)

  -- After an accepted reset a second one with the same request id, if that is not empty, is
  -- refused and changes nothing, whatever account figures and time it comes with.
  pub reset_halt_idempotent :
      (now later : Now) (balance equity : F) (b e : Option F) (id : Text) (g : Guardian F)
      → is_empty id ≡ false
      → (reset_halt now (some balance) (some equity) id g).0 ≡ true
      → let after = (reset_halt now (some balance) (some equity) id g).1 in
        reset_halt later b e id after ≡ (false, after)
  reset_halt_idempotent now later balance equity b e id g h accepted =
      let rebased = reset_halt-IsRebased now balance equity id g accepted in
      duplicate_refused later b e id _ h (ap baseline_request rebased.baseline)

  reset_halt_cases :
      (now : Now) (balance equity : F) (id : Text) (g : Guardian F)
      → let r = reset_halt now (some balance) (some equity) id g in
        (r ≡ (false, g)) ⊎ (r ≡ reset_checked now balance equity id g)
  unfolding reset_halt
  reset_halt_cases now balance equity id g = ground arith

  reset_checked_refused :
      (now : Now) (balance equity : F) (id : Text) (g : Guardian F)
      → let r = reset_checked now balance equity id g in
        r.0 ≡ false
        → (r.1 ≡ maybe_day_reset now balance g)
          × (is_new_day now g.last_day ≡ true)
          × (r.1.halted ≡ false)
  unfolding reset_checked
  reset_checked_refused now balance equity id g h = ground arith

  reset_halt-none :
      (now : Now) (e : Option F) (id : Text) (g : Guardian F) → (reset_halt now none e id g).1 ≡ g
  unfolding reset_halt
  reset_halt-none now e id g = ground arith

  reset_halt-none_equity :
      (now : Now) (balance : F) (id : Text) (g : Guardian F)
      → (reset_halt now (some balance) none id g).1 ≡ g
  unfolding reset_halt
  reset_halt-none_equity now balance id g = ground arith

  -- A refused reset changes nothing, or it came after a UTC rollover that had already ended the
  -- halt, and then it is that rollover.
  pub reset_halt_refused :
      (now : Now) (b e : Option F) (id : Text) (g : Guardian F)
      → let r = reset_halt now b e id g in
        r.0 ≡ false
        → (r.1 ≡ g)
          ⊎ ((balance : F) × (b ≡ some balance)
              × (r.1 ≡ maybe_day_reset now balance g)
              × (is_new_day now g.last_day ≡ true)
              × (r.1.halted ≡ false))
  reset_halt_refused now none e id g h = inl (reset_halt-none now e id g)
  reset_halt_refused now (some balance) none id g h = inl (reset_halt-none_equity now balance id g)
  reset_halt_refused now (some balance) (some equity) id g h =
      elim (reset_halt_cases now balance equity id g) [
        | inl same ↦ inl (ap (λ r. r.1) same)
        | inr checked ↦
            let (a, b, c) = reset_checked_refused now balance equity id g (rw checked at h) in
            rw checked (inr (balance, refl, a, b, c))
      ]
