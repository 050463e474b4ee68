-- ===== src/Ipc/Claims.antt =====
-- live_trading/redis_ipc.py and telegram_panel/redis_ipc.py: the calls of any number of processes.
use scalp_tn_aaa.Base.{
  ℕ, ◌+◌, ◌≤◌, ◌<◌, Bool, true, false, ◌&&◌, Option, some, List, [], ◌∷◌, if◌then◌else◌,
}
use scalp_tn_aaa.Base.Text.{Text, text_eq}
use scalp_tn_aaa.Ipc.{Data, Redis, Codec, Client, World, entry_signal_ttl}
use scalp_tn_aaa.Ipc.Calls.{
  claim_notification, get_trade_strategy, read_state, read_snapshot, read_guardian_state,
  set_trade_strategy, update_snapshot_positions, update_snapshot_trades, claim_entry_signal,
  mark_entry_signal, write_state, write_snapshot, write_guardian_state, read_commands,
  clear_command, send_command,
}

abbrev pub is_won : Option Bool → Bool
is_won (some true) = true
is_won _ = false

-- The functions of the module that reach the server.
pub data Op : Type 0 where
  claim : Text → Op
  mark : Text → Text → Option Text → Op
  state snapshot guardian : Data → Op
  state_read snapshot_read guardian_read : Op
  strategy : Text → Data → Op
  positions trades : Text → Op
  notify : Text → Op
  strategy_read : Text → Op
  read : Op
  clear : Text → Op
  send : Text → Option (List (Text × Text)) → Op

module _ {S : Type 0} (redis : Redis S) (codec : Codec) (url : Bool) where
  abbrev pub run_op : ℕ → Op → World S → World S
  run_op t (claim id) w = (claim_entry_signal redis codec url t id w).1
  run_op t (mark id status position) w =
      (mark_entry_signal redis codec url t id status position w).1
  run_op t (state dict) w = (write_state redis codec url t dict w).1
  run_op t (snapshot dict) w = (write_snapshot redis codec url t dict w).1
  run_op t (guardian dict) w = (write_guardian_state redis codec url t dict w).1
  run_op t state_read w = (read_state redis codec url t w).1
  run_op t snapshot_read w = (read_snapshot redis codec url t w).1
  run_op t guardian_read w = (read_guardian_state redis codec url t w).1
  run_op t (strategy ticket dict) w = (set_trade_strategy redis codec url t ticket dict w).1
  run_op t (positions value) w = (update_snapshot_positions redis codec url t value w).1
  run_op t (trades value) w = (update_snapshot_trades redis codec url t value w).1
  run_op t (notify dedupe_key) w = (claim_notification redis codec url t dedupe_key w).1
  run_op t (strategy_read ticket) w = (get_trade_strategy redis codec url t ticket w).1
  run_op t read w = (read_commands redis codec url t w).1
  run_op t (clear key) w = (clear_command redis codec url t key w).1
  run_op t (send command given) w = (send_command redis codec url t command given w).1

  -- Whether a call claims the signal and is told yes.
  abbrev pub wins : Text → ℕ → Op → World S → Bool
  wins id t (claim other) w =
      text_eq id other && is_won (claim_entry_signal redis codec url t other w).0
  wins id t _ w = false

  -- How many of the calls do. They come from any number of processes: a call has its time and the
  -- client that its process has then, and the server is shared.
  abbrev pub count_wins : Text → List (ℕ × Client × Op) → S → ℕ
  count_wins id [] s = 0
  count_wins id ((t, client, op) ∷ ops) s =
      let w : World S = record { client = client; server = s } in
      (if wins id t op w then 1 else 0) + count_wins id ops (run_op t op w).server

  -- The calls of a window of one lifetime of a claim.
  abbrev pub InWindow : ℕ → ℕ × Client × Op → Type 0
  InWindow start (t, client, op) = (start ≤ t) × (t < start + entry_signal_ttl)
