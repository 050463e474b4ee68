-- ===== src/Tests/Risk.antt =====
-- The guardian on a concrete account: a balance of 1000, a daily limit of 5 % and a drawdown limit
-- of 10 %.
use mathlib.Core.Path.{subst}
use scalp_tn_aaa.Base.{
  some-injective, ℕ, ◌*◌, ◌≡◌, refl, ◌↔◌, ◌⊎◌, true, false, none, some, [], ◌∷◌, arith,
}
use scalp_tn_aaa.Base.Int.{ℤ, pos, ◌-ℤ◌, ◌+ℤ◌}
use scalp_tn_aaa.Base.Text.{codes, contains, starts_with, text_eq, is_empty}
use scalp_tn_aaa.Float.Fixed.{fixed, fixed-IsOrdered, fixed-IsExact, printed-plain}
use scalp_tn_aaa.Risk.Guardian.State.{Guardian, Now, snapshot}
use scalp_tn_aaa.Risk.Guardian.{
  initialize, check, check_state, prepared, maybe_day_reset, clear_daily_halt, raise_peak,
  expire_baseline, current_baseline, breaches_daily, breaches_drawdown, daily_pct, drawdown_pct,
  reset_halt, reset_checked,
}
use scalp_tn_aaa.Risk.Guardian.Halts.{stays_halted, check_halts_iff}
use scalp_tn_aaa.Risk.Guardian.Rollover.{daily_halt_clears}
use scalp_tn_aaa.Risk.Guardian.Latch.{run_checks, drawdown_halt_stays}
use scalp_tn_aaa.Risk.Guardian.Fresh.{check_after_reset}
use scalp_tn_aaa.Risk.Guardian.Durable.{Runs, IsDurable, Runs-IsDurable}
use scalp_tn_aaa.Risk.Guardian.Restore.{
  SavedState, Environment, restore_state, read_back, IsSound, restore_state_round_trip,
}

abbrev usd : ℕ → ℤ
usd n = pos (n * 1_000_000_000)

abbrev monday : Now
monday = record { today = 100; stamp = codes "2025-01-06T10:00" }

abbrev tuesday : Now
tuesday = record { today = 101; stamp = codes "2025-01-07T00:01" }

-- As the constructor leaves it.
abbrev new_guardian : Guardian ℤ
new_guardian = record {
  daily_loss_limit_pct = usd 5;
  max_drawdown_pct = usd 10;
  account_login = codes "7";
  account_server = codes "Demo";
  initialized = false;
  halted = false;
  halt_reason = [];
  triggered_at = none;
  equity_peak = usd 0;
  session_open_balance = usd 0;
  day_open_balance = usd 0;
  last_day = none;
  manual_reset_baseline = none;
  halt_log_count = 0;
  saved = none;
}

-- As `initialize` leaves it on Monday.
abbrev calm_guardian : Guardian ℤ
calm_guardian = record new_guardian {
  initialized = true;
  equity_peak = usd 1000;
  session_open_balance = usd 1000;
  day_open_balance = usd 1000;
  last_day = some 100;
}

-- Halted by its drawdown.
abbrev halted_guardian : Guardian ℤ
halted_guardian = record calm_guardian {
  halted = true;
  halt_reason = codes "MAX";
  triggered_at = some (codes "t");
}

check_halts_iff_example :
    let p = prepared monday (usd 940) (usd 1000) calm_guardian in
    let baseline = current_baseline monday p.manual_reset_baseline in
    ((check monday (usd 940) (usd 1000) calm_guardian).0.halted ≡ true) ↔ (
      (stays_halted monday calm_guardian ≡ true)
      ⊎ (breaches_daily p (daily_pct p.day_open_balance (usd 940) baseline) ≡ true)
      ⊎ (breaches_drawdown p (drawdown_pct p.equity_peak (usd 1000)) ≡ true))
check_halts_iff_example = check_halts_iff monday (usd 940) (usd 1000) calm_guardian refl

prepared-calm : (prepared monday (usd 940) (usd 1000) calm_guardian).halted ≡ false
unfolding prepared maybe_day_reset clear_daily_halt raise_peak expire_baseline
prepared-calm = refl

daily_breach :
    let p = prepared monday (usd 940) (usd 1000) calm_guardian in
    breaches_daily p
      (daily_pct p.day_open_balance (usd 940) (current_baseline monday p.manual_reset_baseline))
    ≡ true
unfolding prepared maybe_day_reset clear_daily_halt raise_peak expire_baseline ◌-ℤ◌ ◌+ℤ◌
daily_breach = refl

daily_halt_clears_example :
    let after = check_state monday (usd 940) (usd 1000) calm_guardian in
    (after.halted ≡ true) × ((prepared tuesday (usd 940) (usd 990) after).halted ≡ false)
daily_halt_clears_example =
    daily_halt_clears monday tuesday (usd 940) (usd 1000) (usd 940) (usd 990) calm_guardian refl
      (omega arith) (omega arith) prepared-calm daily_breach

prepared-deep :
    let p = prepared monday (usd 1000) (usd 890) calm_guardian in
    (p.halted ≡ false)
    × (breaches_daily p (
          daily_pct p.day_open_balance (usd 1000) (current_baseline monday p.manual_reset_baseline))
        ≡ false)
    × (breaches_drawdown p (drawdown_pct p.equity_peak (usd 890)) ≡ true)
unfolding prepared maybe_day_reset clear_daily_halt raise_peak expire_baseline ◌-ℤ◌ ◌+ℤ◌
prepared-deep = (refl, refl, refl)

drawdown_halt_stays_example :
    let first = check_state monday (usd 1000) (usd 890) calm_guardian in
    let last = run_checks ((tuesday, usd 1000, usd 1000) ∷ []) first in
    (first.halted ≡ true) × (last.halted ≡ true) × (last.halt_reason ≡ first.halt_reason)
drawdown_halt_stays_example =
    let (calm, small, deep) = prepared-deep in
    drawdown_halt_stays printed-plain monday (usd 1000) (usd 890) calm_guardian
      ((tuesday, usd 1000, usd 1000) ∷ []) refl calm small deep

reset_accepted :
    (reset_halt monday (some (usd 900)) (some (usd 890)) (codes "r1") halted_guardian).0 ≡ true
unfolding reset_halt reset_checked maybe_day_reset clear_daily_halt text_eq contains starts_with
reset_accepted = refl

reset_refused : (reset_halt monday none (some (usd 890)) [] halted_guardian).0 ≡ false
unfolding reset_halt text_eq
reset_refused = refl

check_after_reset_example :
    let after =
      (reset_halt monday (some (usd 900)) (some (usd 890)) (codes "r1") halted_guardian).1 in
    (check monday (usd 900) (usd 890) after).0.halted ≡ false
unfolding ◌-ℤ◌ ◌+ℤ◌
check_after_reset_example =
    check_after_reset fixed-IsOrdered fixed-IsExact monday monday (usd 900) (usd 890) (codes "r1")
      halted_guardian reset_accepted refl refl refl refl refl

abbrev started : Guardian ℤ
started = initialize monday (usd 1000) (usd 1000) new_guardian

Runs-IsDurable_example : IsDurable (check tuesday (usd 880) (usd 870) started).1
Runs-IsDurable_example = Runs-IsDurable (
    Runs.checked tuesday (usd 880) (usd 870)
      (Runs.start {g = new_guardian} monday (usd 1000) (usd 1000)))

abbrev no_environment : Environment
no_environment = record { sets_daily_limit = false; sets_drawdown = false }

-- Reset on Monday, with its baseline in force.
abbrev reset_guardian : Guardian ℤ
reset_guardian = record halted_guardian {
  halted = false;
  manual_reset_baseline = some (record {
    reset_at = codes "2025-01-06T10:00";
    trading_day = 100;
    realized_day_pnl = pos 0;
    balance = usd 900;
    equity = usd 890;
    equity_peak = usd 890;
    previous_equity_peak = usd 1000;
    request_id = codes "r1";
  });
}

reset-IsSound : IsSound reset_guardian 100
reset-IsSound = record {
  peak = refl;
  day_open = refl;
  session_open = refl;
  seen = refl;
  baseline = λ b e.
      let same = some-injective e in
      record {
        same_day = cc;
        stamped = subst (λ x. is_empty x.reset_at ≡ false) same refl;
        balance = subst (λ x. fixed.lt (pos 0) x.balance ≡ true) same refl;
        equity = subst (λ x. fixed.lt (pos 0) x.equity ≡ true) same refl;
        peak = subst (λ x. fixed.lt (pos 0) x.equity_peak ≡ true) same refl;
      };
}

restore_state_round_trip_example :
    restore_state no_environment (read_back (snapshot (codes "t") reset_guardian)) new_guardian
    ≡ (true, record reset_guardian { initialized = true; halt_log_count = 0; saved = none })
restore_state_round_trip_example =
    restore_state_round_trip no_environment (codes "t") 100 reset_guardian new_guardian
      reset-IsSound refl refl refl refl

abbrev foreign_state : SavedState ℤ
foreign_state = record (read_back (snapshot (codes "t") halted_guardian)) {
  account_server = codes "Live";
}
