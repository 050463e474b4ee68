-- ===== src/Risk/Guardian/State.antt =====
-- The state of the guardian, what it persists and what `check` returns.
use scalp_tn_aaa.Base.{ℕ, Bool, Option, some}
use scalp_tn_aaa.Base.Text.{Text}
use scalp_tn_aaa.Float.{Float}

-- One reading of the clock: the UTC day, and the ISO time stamp.
pub record Now : Type 0 where
  pub today : ℕ
  pub stamp : Text

-- `_manual_reset_baseline`
pub record Baseline (F : Type 0) : Type 0 where
  pub reset_at : Text
  pub trading_day : ℕ
  pub realized_day_pnl : F
  pub balance : F
  pub equity : F
  pub equity_peak : F
  pub previous_equity_peak : F
  pub request_id : Text

-- The dict that `_save_state` writes.
pub record Snapshot (F : Type 0) : Type 0 where
  pub halted : Bool
  pub halt_reason : Text
  pub triggered_at : Option Text
  pub equity_peak : F
  pub session_open_balance : F
  pub day_open_balance : F
  pub last_day : Option ℕ
  pub manual_reset_baseline : Option (Baseline F)
  pub written_at : Text
  pub account_login : Text
  pub account_server : Text
  pub daily_loss_limit_pct : F
  pub max_drawdown_pct : F

pub record Guardian (F : Type 0) : Type 0 where
  pub daily_loss_limit_pct : F
  pub max_drawdown_pct : F
  pub account_login : Text
  pub account_server : Text
  pub initialized : Bool
  pub halted : Bool
  pub halt_reason : Text
  pub triggered_at : Option Text
  pub equity_peak : F
  pub session_open_balance : F
  pub day_open_balance : F
  pub last_day : Option ℕ
  pub manual_reset_baseline : Option (Baseline F)
  pub halt_log_count : ℕ
  pub saved : Option (Snapshot F)

pub record Status (F : Type 0) : Type 0 where
  pub halted : Bool
  pub reason : Text
  pub daily_pnl : F
  pub daily_pnl_pct : F
  pub drawdown_pct : F
  pub equity_peak : F
  pub session_open_balance : F
  pub daily_loss_limit_pct : F
  pub max_drawdown_pct : F
  pub triggered_at : Option Text

module _ {F : Type 0} where
  abbrev pub snapshot : Text → Guardian F → Snapshot F
  snapshot stamp g = record {
    halted = g.halted;
    halt_reason = g.halt_reason;
    triggered_at = g.triggered_at;
    equity_peak = g.equity_peak;
    session_open_balance = g.session_open_balance;
    day_open_balance = g.day_open_balance;
    last_day = g.last_day;
    manual_reset_baseline = g.manual_reset_baseline;
    written_at = stamp;
    account_login = g.account_login;
    account_server = g.account_server;
    daily_loss_limit_pct = g.daily_loss_limit_pct;
    max_drawdown_pct = g.max_drawdown_pct;
  }

  -- `_save_state`; both of its writes are taken to succeed.
  abbrev pub save : Now → Guardian F → Guardian F
  save now g = record g { saved = some (snapshot now.stamp g) }

module _ {F : Type 0} ⦃fl : Float F⦄ where
  abbrev pub hundred : F
  hundred = fl.lit 100 1

  -- `_status`
  abbrev pub status : Bool → Text → F → F → F → Guardian F → Status F
  status halted reason daily_pnl daily_pnl_pct drawdown_pct g = record {
    halted = halted;
    reason = reason;
    daily_pnl = fl.round 2 daily_pnl;
    daily_pnl_pct = fl.round 4 daily_pnl_pct;
    drawdown_pct = fl.round 4 drawdown_pct;
    equity_peak = fl.round 2 g.equity_peak;
    session_open_balance = fl.round 2 g.session_open_balance;
    daily_loss_limit_pct = g.daily_loss_limit_pct;
    max_drawdown_pct = g.max_drawdown_pct;
    triggered_at = g.triggered_at;
  }
