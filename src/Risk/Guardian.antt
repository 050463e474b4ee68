-- ===== src/Risk/Guardian.antt =====
-- `class RiskGuardian` of live_trading/risk/guardian.py. Each operation takes the time once, and
-- `saved` is what `_save_state` last wrote to Redis and to the state file. Days are ordinals.
pub mod State
pub mod Halts
pub mod Rollover
pub mod Latch
pub mod Resets
pub mod Fresh
pub mod Durable
pub mod Restore
use scalp_tn_aaa.Base.{
  ℕ, ◌+◌, Bool, true, false, not, ◌&&◌, ◌||◌, Option, none, some, [], ◌++◌, if◌then◌else◌, ltb,
  ◌==◌,
}
use scalp_tn_aaa.Base.Text.{Text, codes, text_eq, contains, is_empty}
use scalp_tn_aaa.Float.{Float, gt, ge, nought}
use scalp_tn_aaa.Risk.Guardian.State.{
  Guardian, Baseline, Snapshot, Status, Now, snapshot, save, status, hundred,
}

-- `self._last_day is None or today > self._last_day`
abbrev pub is_new_day : Now → Option ℕ → Bool
is_new_day now none = true
is_new_day now (some day) = ltb day now.today

abbrev pub daily_loss : Text
daily_loss = codes "DAILY LOSS"

-- Of a guardian that no account data has reached.
unfoldable pub not_initialized_reason : Text
not_initialized_reason = codes "Guardian not initialized — call .initialize() first"

module _ {F : Type 0} ⦃fl : Float F⦄ where
  -- The tolerance `1e-9`.
  abbrev pub tolerance : F
  tolerance = fl.lit 1 1_000_000_000

  unfoldable pub initialize : Now → F → F → Guardian F → Guardian F
  initialize now balance equity g = save now (record g {
    equity_peak = equity;
    session_open_balance = balance;
    day_open_balance = balance;
    last_day = some now.today;
    manual_reset_baseline = none;
    initialized = true;
  })

  abbrev pub clear_halt : Guardian F → Guardian F
  clear_halt g = record g {
    halted = false;
    halt_reason = [];
    triggered_at = none;
    halt_log_count = 0;
  }

  unfoldable pub clear_daily_halt : Guardian F → Guardian F
  clear_daily_halt g = if g.halted && contains daily_loss g.halt_reason then clear_halt g else g

  -- `_maybe_day_reset`
  unfoldable pub maybe_day_reset : Now → F → Guardian F → Guardian F
  unfolding clear_daily_halt
  maybe_day_reset now balance g =
      if is_new_day now g.last_day
      then save now (
          clear_daily_halt (record g {
            manual_reset_baseline = none;
            day_open_balance = balance;
            last_day = some now.today;
          }))
      else g

  -- The equity high-water mark of `check`.
  unfoldable pub raise_peak : Now → F → Guardian F → Guardian F
  raise_peak now equity g =
      if gt equity g.equity_peak then save now (record g { equity_peak = equity }) else g

  abbrev pub is_current : Now → Baseline F → Bool
  is_current now baseline = baseline.trading_day == now.today

  abbrev pub current_baseline : Now → Option (Baseline F) → Option (Baseline F)
  current_baseline now none = none
  current_baseline now (some b) = if is_current now b then some b else none

  abbrev pub expires : Now → Option (Baseline F) → Bool
  expires now none = false
  expires now (some b) = not (is_current now b)

  -- `_active_manual_reset_baseline`: the baseline in effect, which `current_baseline` gives, and the
  -- state, from which one of another day is gone.
  unfoldable pub expire_baseline : Now → Guardian F → Guardian F
  expire_baseline now g =
      if expires now g.manual_reset_baseline
      then save now (record g { manual_reset_baseline = none })
      else g

  -- `a / b * 100` if `b` is positive
  abbrev pub percent_of : F → F → F
  percent_of a b = if gt b nought then fl.mul (fl.div a b) hundred else nought

  abbrev pub daily_pnl : F → F → Option (Baseline F) → F
  daily_pnl day_open balance none = fl.sub balance day_open
  daily_pnl day_open balance (some b) = fl.sub (fl.sub balance day_open) b.realized_day_pnl

  abbrev pub daily_pct : F → F → Option (Baseline F) → F
  daily_pct day_open balance none = percent_of (daily_pnl day_open balance none) day_open
  daily_pct day_open balance (some b) = percent_of (daily_pnl day_open balance (some b)) b.balance

  abbrev pub drawdown_pct : F → F → F
  drawdown_pct peak equity = percent_of (fl.sub peak equity) peak

  -- The message of layer 1 and that of layer 2.
  unfoldable pub daily_loss_reason : F → F → F → Text
  daily_loss_reason pnl pct limit =
      codes "🚨 DAILY LOSS LIMIT — day PnL="
      ++ (fl.fmt (codes "+.2f") pnl
          ++ (codes " ("
              ++ (fl.fmt (codes "+.2f") pct
                  ++ (codes "%)  limit=" ++ (fl.fmt [] limit ++ codes "%")))))

  unfoldable pub drawdown_reason : F → F → F → F → Text
  drawdown_reason drawdown equity peak limit =
      codes "🚨 MAX DRAWDOWN STOP — drawdown="
      ++ (fl.fmt (codes ".2f") drawdown
          ++ (codes "%  equity="
              ++ (fl.fmt (codes ".2f") equity
                  ++ (codes "  peak="
                      ++ (fl.fmt (codes ".2f") peak
                          ++ (codes "  limit=" ++ (fl.fmt [] limit ++ codes "%")))))))

  -- `_trigger`
  unfoldable pub trigger : Now → Text → Guardian F → Guardian F
  trigger now reason g = save now (record g {
    halted = true;
    halt_reason = reason;
    triggered_at = some now.stamp;
    halt_log_count = 0;
  })

  abbrev pub breaches_daily : Guardian F → F → Bool
  breaches_daily g pct = fl.le pct (fl.add (fl.neg g.daily_loss_limit_pct) tolerance)

  abbrev pub breaches_drawdown : Guardian F → F → Bool
  breaches_drawdown g drawdown = ge drawdown (fl.sub g.max_drawdown_pct tolerance)

  -- The circuit breakers of `check`.
  unfoldable pub evaluate : Now → F → F → F → F → Guardian F → Guardian F
  evaluate now pnl pct drawdown equity g =
      if g.halted
      then record g { halt_log_count = g.halt_log_count + 1 }
      else if breaches_daily g pct
      then trigger now (daily_loss_reason pnl pct g.daily_loss_limit_pct) g
      else if breaches_drawdown g drawdown
      then trigger now (drawdown_reason drawdown equity g.equity_peak g.max_drawdown_pct) g
      else g

  -- The state in which `check` computes its metrics.
  unfoldable pub prepared : Now → F → F → Guardian F → Guardian F
  prepared now balance equity g =
      expire_baseline now (raise_peak now equity (maybe_day_reset now balance g))

  unfoldable pub check_prepared : Now → F → F → Guardian F → Guardian F
  check_prepared now balance equity g =
      let baseline = current_baseline now g.manual_reset_baseline in
      evaluate now (daily_pnl g.day_open_balance balance baseline)
        (daily_pct g.day_open_balance balance baseline) (drawdown_pct g.equity_peak equity) equity g

  -- The status of an initialised check, from the prepared state and the one after the breakers.
  unfoldable pub status_prepared : Now → F → F → Guardian F → Guardian F → Status F
  status_prepared now balance equity g after =
      let baseline = current_baseline now g.manual_reset_baseline in
      status after.halted after.halt_reason (daily_pnl g.day_open_balance balance baseline)
        (daily_pct g.day_open_balance balance baseline) (drawdown_pct g.equity_peak equity) after

  unfoldable pub check_state : Now → F → F → Guardian F → Guardian F
  check_state now balance equity g =
      if g.initialized then check_prepared now balance equity (prepared now balance equity g) else g

  unfoldable pub check : Now → F → F → Guardian F → Status F × Guardian F
  check now balance equity g =
      let after = check_state now balance equity g in
      (
        if g.initialized
            then status_prepared now balance equity (prepared now balance equity g) after
            else status true not_initialized_reason nought nought nought g,
        after,
      )

  abbrev pub baseline_request : Option (Baseline F) → Text
  baseline_request none = []
  baseline_request (some b) = b.request_id

  abbrev pub make_baseline : Now → F → F → Text → Guardian F → Baseline F
  make_baseline now balance equity request_id g = record {
    reset_at = now.stamp;
    trading_day = now.today;
    realized_day_pnl = fl.sub balance g.day_open_balance;
    balance = balance;
    equity = equity;
    equity_peak = equity;
    previous_equity_peak = g.equity_peak;
    request_id = request_id;
  }

  -- An accepted reset.
  unfoldable pub rebase : Now → F → F → Text → Guardian F → Guardian F
  rebase now balance equity request_id g = save now (
      clear_halt (record g {
        manual_reset_baseline = some (make_baseline now balance equity request_id g);
        equity_peak = equity;
        last_day = some now.today;
      }))

  -- `reset_halt` behind the checks of its arguments. `_maybe_day_reset` does nothing on the same day.
  unfoldable pub reset_checked : Now → F → F → Text → Guardian F → Bool × Guardian F
  reset_checked now balance equity request_id g =
      let rolled = maybe_day_reset now balance g in
      if is_new_day now g.last_day && not rolled.halted
      then (false, rolled)
      else (true, rebase now balance equity request_id rolled)

  abbrev pub reset_with : Now → Option F → Option F → Text → Guardian F → Bool × Guardian F
  reset_with now (some balance) (some equity) request_id g =
      if fl.le balance nought || fl.le equity nought
      then (false, g)
      else reset_checked now balance equity request_id g
  reset_with now _ _ request_id g = (false, g)

  -- An argument is `none` where `float` rejects it.
  unfoldable pub reset_halt : Now → Option F → Option F → Text → Guardian F → Bool × Guardian F
  reset_halt now balance equity request_id g =
      if not (is_empty request_id) && text_eq request_id (baseline_request g.manual_reset_baseline)
      then (false, g)
      else if not g.halted
      then (false, g)
      else if not g.initialized
      then (false, g)
      else reset_with now balance equity request_id g
