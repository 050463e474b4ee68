-- ===== src/Risk/Guardian/Restore.antt =====
-- `restore_state` of live_trading/risk/guardian.py, and the restart that it completes.
use scalp_tn_aaa.Base.{
  ℕ, ◌≡◌, refl, Bool, true, false, not, ◌&&◌, ◌||◌, Option, none, some, arith, if◌then◌else◌, ◌==◌,
  ◌⊎◌,
}
use scalp_tn_aaa.Base.Text.{Text, text_eq, text_eq_iff, is_empty}
use scalp_tn_aaa.Float.{Float, nought}
use scalp_tn_aaa.Risk.Guardian.State.{Guardian, Baseline, Snapshot, snapshot}

pub data SavedDay : Type 0 where
  absent malformed : SavedDay
  day : ℕ → SavedDay

-- The saved dict. A text that is missing is empty and a flag false, as `get` has them; a baseline is
-- `none` where it is no dict or does not parse, and a limit where it is missing or does not parse.
-- The peak and the balances are missing or readable.
pub record SavedState (F : Type 0) : Type 0 where
  pub account_login : Text
  pub account_server : Text
  pub halted : Bool
  pub halt_reason : Text
  pub triggered_at : Option Text
  pub equity_peak : Option F
  pub session_open_balance : Option F
  pub day_open_balance : Option F
  pub last_day : SavedDay
  pub manual_reset_baseline : Option (Baseline F)
  pub daily_loss_limit_pct : Option F
  pub max_drawdown_pct : Option F

-- Which limits the environment sets.
pub record Environment : Type 0 where
  pub sets_daily_limit : Bool
  pub sets_drawdown : Bool

-- A saved day takes the place of the one in memory only if it is there.
abbrev pub restored_day : SavedDay → Option ℕ → Option ℕ
restored_day absent old = old
restored_day malformed old = none
restored_day (day n) old = some n

abbrev pub is_day : Option ℕ → ℕ → Bool
is_day none n = false
is_day (some d) n = d == n

abbrev pub saved_day : Option ℕ → SavedDay
saved_day none = absent
saved_day (some n) = day n

-- The account of the state is known to be another one.
abbrev pub is_foreign : Text → Text → Text → Text → Bool
is_foreign login server saved_login saved_server =
    (not (is_empty login) || not (is_empty server))
    && (not (is_empty saved_login) && not (is_empty saved_server))
    && (not (text_eq saved_login login) || not (text_eq saved_server server))

module _ {F : Type 0} ⦃fl : Float F⦄ where
  abbrev pub or_zero : Option F → F
  or_zero none = nought
  or_zero (some x) = x

  abbrev pub is_positive : F → Bool
  is_positive x = fl.lt nought x

  abbrev pub restored_baseline : Option ℕ → Option (Baseline F) → Option (Baseline F)
  restored_baseline last_day none = none
  restored_baseline last_day (some b) =
      if is_day last_day b.trading_day
        && not (is_empty b.reset_at)
        && is_positive b.balance
        && is_positive b.equity
        && is_positive b.equity_peak
      then some b
      else none

  abbrev pub restored_limit : Bool → Option F → F → F
  restored_limit in_env none old = old
  restored_limit in_env (some x) old = if in_env then old else x

  unfoldable pub restore_state : Environment → SavedState F → Guardian F → Bool × Guardian F
  restore_state env state g =
      let last_day = restored_day state.last_day g.last_day in
      if is_foreign g.account_login g.account_server state.account_login state.account_server
      then (false, g)
      else if fl.le (or_zero state.equity_peak) nought
          || fl.le (or_zero state.day_open_balance) nought
          || fl.le (or_zero state.session_open_balance) nought
      then (false, g)
      else (
        true,
        record g {
          halted = state.halted;
          halt_reason = state.halt_reason;
          triggered_at = state.triggered_at;
          equity_peak = or_zero state.equity_peak;
          session_open_balance = or_zero state.session_open_balance;
          day_open_balance = or_zero state.day_open_balance;
          last_day = last_day;
          manual_reset_baseline = restored_baseline last_day state.manual_reset_baseline;
          daily_loss_limit_pct =
              restored_limit env.sets_daily_limit state.daily_loss_limit_pct g.daily_loss_limit_pct;
          max_drawdown_pct =
              restored_limit env.sets_drawdown state.max_drawdown_pct g.max_drawdown_pct;
          initialized = true;
        },
      )

  -- A snapshot as it is read back.
  abbrev pub read_back : Snapshot F → SavedState F
  read_back s = record {
    account_login = s.account_login;
    account_server = s.account_server;
    halted = s.halted;
    halt_reason = s.halt_reason;
    triggered_at = s.triggered_at;
    equity_peak = some s.equity_peak;
    session_open_balance = some s.session_open_balance;
    day_open_balance = some s.day_open_balance;
    last_day = saved_day s.last_day;
    manual_reset_baseline = s.manual_reset_baseline;
    daily_loss_limit_pct = some s.daily_loss_limit_pct;
    max_drawdown_pct = some s.max_drawdown_pct;
  }

  -- A baseline of that day, stamped, and positive.
  pub record IsSoundBaseline (b : Baseline F) (today : ℕ) : Type 0 where
    pub same_day : b.trading_day ≡ today
    pub stamped : is_empty b.reset_at ≡ false
    pub balance : fl.lt nought b.balance ≡ true
    pub equity : fl.lt nought b.equity ≡ true
    pub peak : fl.lt nought b.equity_peak ≡ true

  restored_baseline_sound :
      (today : ℕ) (o : Option (Baseline F))
      → ((b : Baseline F) → o ≡ some b → IsSoundBaseline b today)
      → restored_baseline (some today) o ≡ o
  restored_baseline_sound today none h = refl
  restored_baseline_sound today (some b) h =
      let v = h b refl in ground (arith, v.same_day, v.stamped, v.balance, v.equity, v.peak)

  -- The balances and the peak are positive, a day has been seen, and the reset baseline, if there is
  -- one, is of that day, stamped, and positive.
  pub record IsSound (g : Guardian F) (today : ℕ) : Type 0 where
    pub peak : fl.le g.equity_peak nought ≡ false
    pub day_open : fl.le g.day_open_balance nought ≡ false
    pub session_open : fl.le g.session_open_balance nought ≡ false
    pub seen : g.last_day ≡ some today
    pub baseline : (b : Baseline F) → g.manual_reset_baseline ≡ some b → IsSoundBaseline b today

  -- A restart with no limit in the environment restores from the snapshot of a sound guardian of the
  -- same account every field as it was: halt and reason, peak, balances, day, baseline and limits.
  pub restore_state_round_trip :
      (env : Environment) (stamp : Text) (today : ℕ) (g fresh : Guardian F)
      → IsSound g today
      → env.sets_daily_limit ≡ false
      → env.sets_drawdown ≡ false
      → fresh.account_login ≡ g.account_login
      → fresh.account_server ≡ g.account_server
      → restore_state env (read_back (snapshot stamp g)) fresh ≡ (
        true,
        record g { initialized = true; halt_log_count = fresh.halt_log_count; saved = fresh.saved },
      )
  unfolding restore_state
  restore_state_round_trip env stamp today g fresh v e1 e2 login server = ground (
    arith,
    text_eq_iff g.account_login fresh.account_login,
    text_eq_iff g.account_server fresh.account_server,
    restored_baseline_sound today g.manual_reset_baseline v.baseline,
  )

  -- A state that names both login and server of another account, or whose peak or balances are not
  -- positive, is rejected and leaves the guardian as it was; every other state is accepted, and then
  -- the guardian is initialised with a positive peak and positive balances, and halted exactly if the
  -- state was.
  pub restore_state_cases :
      (env : Environment) (s : SavedState F) (g : Guardian F)
      → let r = restore_state env s g in
        ((r ≡ (false, g))
          × ((is_foreign g.account_login g.account_server s.account_login s.account_server ≡ true)
              ⊎ (fl.le (or_zero s.equity_peak) nought ≡ true)
              ⊎ (fl.le (or_zero s.day_open_balance) nought ≡ true)
              ⊎ (fl.le (or_zero s.session_open_balance) nought ≡ true)))
        ⊎ ((r.0 ≡ true)
            × (r.1.initialized ≡ true)
            × (r.1.halted ≡ s.halted)
            × (fl.le r.1.equity_peak nought ≡ false)
            × (fl.le r.1.day_open_balance nought ≡ false)
            × (fl.le r.1.session_open_balance nought ≡ false)
            × (is_foreign g.account_login g.account_server s.account_login s.account_server
                ≡ false))
  unfolding restore_state
  restore_state_cases env s g = ground arith
