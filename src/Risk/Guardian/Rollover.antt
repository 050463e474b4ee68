-- ===== src/Risk/Guardian/Rollover.antt =====
-- The two layers name themselves apart in their messages, which the rollover reads.
use scalp_tn_aaa.Base.{
  ℕ, ◌≡◌, ◌≢◌, refl, true, false, [], ◌∷◌, ◌++◌, arith, All, inl, inr, ◌∙◌, Option, none, some, ◌≤◌,
  ◌<◌,
}
use scalp_tn_aaa.Base.Text.{Text, codes, contains, starts_with}
use scalp_tn_aaa.Float.{Float}
use scalp_tn_aaa.Risk.Guardian.State.{Guardian, Now}
use scalp_tn_aaa.Risk.Guardian.{
  daily_loss, daily_loss_reason, drawdown_reason, check_state, prepared, check_prepared, evaluate,
  trigger, maybe_day_reset, raise_peak, expire_baseline, breaches_daily, daily_pct, daily_pnl,
  current_baseline, clear_daily_halt,
}
use scalp_tn_aaa.Risk.Guardian.Halts.{prepared-halted, check_prepared-halted}

-- A text in which no `D` stands.
abbrev pub HasNoD : Text → Type 0
HasNoD = All λ c. c ≢ b'D'

contains-append : (s t : Text) → HasNoD s → contains daily_loss (s ++ t) ≡ contains daily_loss t
unfolding contains starts_with
contains-append [] t h = refl
contains-append (c ∷ s) t h = ground (arith, contains-append s t h.1)

-- The day that a guardian has seen is not after the clock's.
abbrev pub IsPast : Option ℕ → ℕ → Type 0
IsPast none today = Unit
IsPast (some day) today = day ≤ today

module _ {F : Type 0} ⦃fl : Float F⦄ where
  pub daily_loss_reason-contains :
      (pnl pct limit : F) → contains daily_loss (daily_loss_reason pnl pct limit) ≡ true
  unfolding contains starts_with daily_loss_reason
  daily_loss_reason-contains pnl pct limit = refl

  module _ (plain : (spec : Text) (x : F) → HasNoD (fl.fmt spec x)) where
    pub drawdown_reason-contains :
        (drawdown equity peak limit : F)
        → contains daily_loss (drawdown_reason drawdown equity peak limit) ≡ false
    unfolding contains starts_with drawdown_reason
    drawdown_reason-contains drawdown equity peak limit =
        contains-append _ _ (plain (codes ".2f") drawdown)
        ∙ contains-append _ _ (plain (codes ".2f") equity)
        ∙ contains-append _ _ (plain (codes ".2f") peak)
        ∙ contains-append _ _ (plain [] limit)

  maybe_day_reset-last_day :
      (now : Now) (balance : F) (g : Guardian F)
      → IsPast g.last_day now.today
      → (maybe_day_reset now balance g).last_day ≡ some now.today
  unfolding maybe_day_reset clear_daily_halt
  maybe_day_reset-last_day now balance g h = ground arith

  prepared-last_day :
      (now : Now) (balance equity : F) (g : Guardian F)
      → IsPast g.last_day now.today
      → (prepared now balance equity g).last_day ≡ some now.today
  unfolding prepared raise_peak expire_baseline
  prepared-last_day now balance equity g h = ground (arith, maybe_day_reset-last_day now balance g)

  check_prepared-last_day :
      (now : Now) (balance equity : F) (p : Guardian F)
      → (check_prepared now balance equity p).last_day ≡ p.last_day
  unfolding check_prepared evaluate trigger
  check_prepared-last_day now balance equity p = ground arith

  check_prepared-daily :
      (now : Now) (balance equity : F) (p : Guardian F)
      → p.halted ≡ false
      → breaches_daily p
          (daily_pct p.day_open_balance balance (current_baseline now p.manual_reset_baseline))
        ≡ true
      → contains daily_loss (check_prepared now balance equity p).halt_reason ≡ true
  unfolding check_prepared evaluate trigger
  check_prepared-daily now balance equity p h b =
      let baseline = current_baseline now p.manual_reset_baseline in
      ground (
        arith,
        daily_loss_reason-contains (daily_pnl p.day_open_balance balance baseline)
            (daily_pct p.day_open_balance balance baseline) p.daily_loss_limit_pct,
      )

  pub check_state-eq :
      (now : Now) (balance equity : F) (g : Guardian F)
      → g.initialized ≡ true
      → check_state now balance equity g
        ≡ check_prepared now balance equity (prepared now balance equity g)
  unfolding check_state
  check_state-eq now balance equity g h = simp h

  -- A check that breaches the daily limit halts, and that halt is gone when any check of a later
  -- day evaluates the limits, whatever the account figures then. The guardian is initialised, it
  -- was not halted when the limit was evaluated, and the day it has seen is not after the clock's.
  pub daily_halt_clears :
      (now later : Now) (balance equity b e : F) (g : Guardian F)
      → g.initialized ≡ true
      → IsPast g.last_day now.today
      → now.today < later.today
      → let p = prepared now balance equity g in
        p.halted ≡ false
        → breaches_daily p
            (daily_pct p.day_open_balance balance (current_baseline now p.manual_reset_baseline))
          ≡ true
        → let after = check_state now balance equity g in
          (after.halted ≡ true) × ((prepared later b e after).halted ≡ false)
  daily_halt_clears now later balance equity b e g h past lt calm breach =
      let p = prepared now balance equity g in
      let halts = (check_prepared-halted now balance equity p).1 (inr (inl breach)) in
      rw (check_state-eq now balance equity g h) (
        halts,
        prepared-halted later b e (check_prepared now balance equity p)
            ∙ ground (
              arith,
              check_prepared-last_day now balance equity p,
              prepared-last_day now balance equity g past,
              check_prepared-daily now balance equity p calm breach,
            ),
      )
