-- ===== src/Risk/Guardian/Durable.antt =====
-- What a restart would find: the last snapshot against the state in memory.
use scalp_tn_aaa.Base.{◌≡◌, Option, none, some, [], arith}
use scalp_tn_aaa.Base.Text.{Text}
use scalp_tn_aaa.Float.{Float}
use scalp_tn_aaa.Risk.Guardian.State.{Guardian, Snapshot, Now, snapshot}
use scalp_tn_aaa.Risk.Guardian.{
  initialize, maybe_day_reset, raise_peak, expire_baseline, trigger, evaluate, check, check_state,
  prepared, check_prepared, reset_halt, reset_checked, rebase,
}

module _ {F : Type 0} ⦃fl : Float F⦄ where
  -- A snapshot but for the time at which it was written.
  abbrev unstamped : Option (Snapshot F) → Option (Snapshot F)
  unstamped none = none
  unstamped (some s) = some (record s { written_at = [] })

  -- The last snapshot holds every persisted field as it is in memory.
  pub record IsDurable (g : Guardian F) : Type 0 where
    pub current : unstamped g.saved ≡ some (snapshot [] g)

  maybe_day_reset-IsDurable :
      (now : Now) (balance : F) (g : Guardian F)
      → IsDurable g
      → IsDurable (maybe_day_reset now balance g)
  unfolding maybe_day_reset
  maybe_day_reset-IsDurable now balance g d = ground arith

  raise_peak-IsDurable :
      (now : Now) (equity : F) (g : Guardian F) → IsDurable g → IsDurable (raise_peak now equity g)
  unfolding raise_peak
  raise_peak-IsDurable now equity g d = ground arith

  expire_baseline-IsDurable :
      (now : Now) (g : Guardian F) → IsDurable g → IsDurable (expire_baseline now g)
  unfolding expire_baseline
  expire_baseline-IsDurable now g d = ground arith

  evaluate-IsDurable :
      (now : Now) (pnl pct drawdown equity : F) (g : Guardian F)
      → IsDurable g
      → IsDurable (evaluate now pnl pct drawdown equity g)
  unfolding evaluate trigger
  evaluate-IsDurable now pnl pct drawdown equity g d = ground arith

  check_prepared-IsDurable :
      (now : Now) (balance equity : F) (p : Guardian F)
      → IsDurable p
      → IsDurable (check_prepared now balance equity p)
  unfolding check_prepared
  check_prepared-IsDurable now balance equity p d = evaluate-IsDurable now _ _ _ equity p d

  prepared-IsDurable :
      (now : Now) (balance equity : F) (g : Guardian F)
      → IsDurable g
      → IsDurable (prepared now balance equity g)
  unfolding prepared
  prepared-IsDurable now balance equity g d =
      expire_baseline-IsDurable now _
        (raise_peak-IsDurable now equity _ (maybe_day_reset-IsDurable now balance g d))

  check_state-IsDurable :
      (now : Now) (balance equity : F) (g : Guardian F)
      → IsDurable g
      → IsDurable (check_state now balance equity g)
  unfolding check_state
  check_state-IsDurable now balance equity g d = ground (
    arith,
    check_prepared-IsDurable now balance equity (prepared now balance equity g)
        (prepared-IsDurable now balance equity g d),
  )

  check-IsDurable :
      (now : Now) (balance equity : F) (g : Guardian F)
      → IsDurable g
      → IsDurable (check now balance equity g).1
  unfolding check
  check-IsDurable now balance equity g d = check_state-IsDurable now balance equity g d

  reset_checked-IsDurable :
      (now : Now) (balance equity : F) (id : Text) (g : Guardian F)
      → IsDurable g
      → IsDurable (reset_checked now balance equity id g).1
  unfolding reset_checked rebase
  reset_checked-IsDurable now balance equity id g d =
      ground (arith, maybe_day_reset-IsDurable now balance g d)

  reset_halt-IsDurable :
      (now : Now) (balance equity : Option F) (id : Text) (g : Guardian F)
      → IsDurable g
      → IsDurable (reset_halt now balance equity id g).1
  unfolding reset_halt
  reset_halt-IsDurable now none e id g d = ground arith
  reset_halt-IsDurable now (some b) none id g d = ground arith
  reset_halt-IsDurable now (some b) (some e) id g d =
      ground (arith, reset_checked-IsDurable now b e id g d)

  initialize-IsDurable :
      (now : Now) (balance equity : F) (g : Guardian F)
      → IsDurable (initialize now balance equity g)
  unfolding initialize
  initialize-IsDurable now balance equity g = ground arith

  -- The operations of a running guardian, in any order.
  pub data Runs : Guardian F → Guardian F → Type 0 where
    start :
        {g : Guardian F} (now : Now) (balance equity : F) → Runs g (initialize now balance equity g)
    checked :
        {g h : Guardian F} (now : Now) (balance equity : F)
        → Runs g h
        → Runs g (check now balance equity h).1
    reset :
        {g h : Guardian F} (now : Now) (balance equity : Option F) (id : Text)
        → Runs g h
        → Runs g (reset_halt now balance equity id h).1

  -- From its initialisation on, after any checks and resets, accepted or not, what the guardian has
  -- last persisted is what it holds in memory: halt, reason, peak, balances, day, reset baseline,
  -- limits and account.
  pub Runs-IsDurable : {g h : Guardian F} → Runs g h → IsDurable h
  Runs-IsDurable {g} (start now balance equity) = initialize-IsDurable now balance equity g
  Runs-IsDurable (checked {h = h} now balance equity r) =
      check-IsDurable now balance equity h (Runs-IsDurable r)
  Runs-IsDurable (reset {h = h} now balance equity id r) =
      reset_halt-IsDurable now balance equity id h (Runs-IsDurable r)
