-- ===== src/Ipc/Calls.antt =====
-- live_trading/redis_ipc.py and telegram_panel/redis_ipc.py: the functions that robot and panel call.
use scalp_tn_aaa.Base.{
  ℕ, Bool, true, false, not, ◌||◌, Option, none, some, List, [], ◌∷◌, ◌++◌, if◌then◌else◌, is_some,
}
use scalp_tn_aaa.Base.Text.{Text, codes, text_eq, upper, lower, strip, is_empty}
use scalp_tn_aaa.Float.Values.{find, put}
use scalp_tn_aaa.Ipc.{
  Redis, Codec, World, Call, CommandDict, Data, Pending, flag, payload, ◌>>=◌, answer, fault,
  request, commands_key, state_key, snapshot_key, guardian_key, entry_signal_prefix,
  strategy_prefix, state_ttl, cmd_ttl, guardian_ttl, entry_signal_ttl, strategy_ttl,
  notification_prefix, notification_dedup_ttl,
}

abbrev pub loads_or_fault : {S A : Type 0} → Option A → Call S A
loads_or_fault none = fault
loads_or_fault (some d) = answer d

-- `not raw`
abbrev pub is_blank : Option Text → Bool
is_blank none = true
is_blank (some t) = is_empty t

abbrev pub text_of : Option Text → Text
text_of none = []
text_of (some t) = t

-- `cmds.pop(key)`; a key stands once in a dict.
unfoldable pub without_key : Text → CommandDict → CommandDict
without_key k [] = []
without_key k (e ∷ d) = let rest = without_key k d in if text_eq k e.0 then rest else e ∷ rest

-- `payload if payload else True`
abbrev pub pending_of : Option (List (Text × Text)) → Pending
pending_of none = flag
pending_of (some []) = flag
pending_of (some (e ∷ d)) = payload (e ∷ d)

-- `_PANEL_COMMAND_MAP`
abbrev pub panel_command_map : List (Text × Text)
panel_command_map =
    (codes "PAUSE", codes "pause")
    ∷ (codes "RESUME", codes "resume")
    ∷ (codes "EMERGENCY_STOP", codes "stop")
    ∷ (codes "SAFE_SHUTDOWN", codes "stop")
    ∷ (codes "CLOSE_ALL", codes "close_all")
    ∷ (codes "RESET_GUARDIAN", codes "reset_guardian")
    ∷ (codes "START", codes "start")
    ∷ (codes "RESTART_ENGINE", codes "restart_engine")
    ∷ (codes "RESTART_MT5", codes "restart_mt5")
    ∷ (codes "RESTART_TELEGRAM", codes "restart_telegram")
    ∷ (codes "RECONNECT", codes "restart_mt5")
    ∷ []

abbrev pub text_or : Option Text → Text → Text
text_or none t = t
text_or (some s) t = s

unfoldable pub engine_key_of : Text → Text
engine_key_of command =
    text_or (find (upper (strip command)) panel_command_map) (lower (strip command))

module _ {S : Type 0} (redis : Redis S) (codec : Codec) (url : Bool) where
  abbrev pub entry_signal_key : Text → Text
  entry_signal_key signal_id = entry_signal_prefix ++ codec.digest signal_id

  abbrev pub claim_call : ℕ → Text → Call S (Option Bool)
  claim_call now signal_id =
      redis.set_nx now (entry_signal_key signal_id) (codec.outcome (codes "PENDING") none)
        entry_signal_ttl
      >>= λ claimed. answer (some claimed)

  unfoldable pub claim_entry_signal : ℕ → Text → World S → Option Bool × World S
  claim_entry_signal now signal_id w =
      if is_empty signal_id
      then (some false, w)
      else request redis codec url now none (claim_call now signal_id) w

  abbrev pub is_outcome : Text → Bool
  is_outcome status = text_eq status (codes "SUCCESS") || text_eq status (codes "FAILED")

  abbrev pub set_call : ℕ → Text → Text → ℕ → Call S Bool
  set_call now key text ttl = redis.set now key text ttl >>= λ _. answer true

  unfoldable pub mark_entry_signal : ℕ → Text → Text → Option Text → World S → Bool × World S
  mark_entry_signal now signal_id status position_id w =
      let normalized = upper (strip status) in
      if is_empty signal_id || not (is_outcome normalized)
      then (false, w)
      else request redis codec url now false
          (set_call now (entry_signal_key signal_id) (codec.outcome normalized position_id)
            entry_signal_ttl)
          w

  unfoldable pub write_state : ℕ → Data → World S → Bool × World S
  write_state now dict w =
      request redis codec url now false (set_call now state_key (codec.dumps_data dict) state_ttl) w

  unfoldable pub write_snapshot : ℕ → Data → World S → Bool × World S
  write_snapshot now dict w =
      request redis codec url now false
        (set_call now snapshot_key (codec.dumps_data dict) state_ttl) w

  unfoldable pub write_guardian_state : ℕ → Data → World S → Bool × World S
  write_guardian_state now dict w =
      request redis codec url now false
        (set_call now guardian_key (codec.dumps_data dict) guardian_ttl) w

  -- The pending commands that a text holds; an empty one holds none.
  abbrev pub parse_commands : Option Text → Call S CommandDict
  parse_commands raw =
      if is_blank raw then answer [] else loads_or_fault (codec.loads (text_of raw))

  abbrev pub read_call : ℕ → Call S CommandDict
  read_call now = redis.get now commands_key >>= parse_commands

  unfoldable pub read_commands : ℕ → World S → Option CommandDict × World S
  read_commands now w = request redis codec url now none (read_call now >>= λ d. answer (some d)) w

  -- The write behind the read, of `redis_clear_command` and of `redis_send_command`.
  abbrev pub clear_write : ℕ → Text → CommandDict → Call S Bool
  clear_write now key cmds =
      if is_some (find key cmds)
      then set_call now commands_key (codec.dumps (without_key key cmds)) cmd_ttl
      else answer true

  unfoldable pub clear_command : ℕ → Text → World S → Bool × World S
  clear_command now key w =
      request redis codec url now false (read_call now >>= clear_write now key) w

  abbrev pub send_write : ℕ → Text → Option (List (Text × Text)) → CommandDict → Call S Bool
  send_write now command given cmds =
      set_call now commands_key (codec.dumps (put (engine_key_of command) (pending_of given) cmds))
        cmd_ttl

  unfoldable pub send_command : ℕ → Text → Option (List (Text × Text)) → World S → Bool × World S
  send_command now command given w =
      request redis codec url now false (read_call now >>= send_write now command given) w

  -- `json.loads(raw) if raw else None`
  abbrev pub parse_data : Option Text → Call S (Option Data)
  parse_data raw =
      if is_blank raw
      then answer none
      else loads_or_fault (codec.loads_data (text_of raw)) >>= λ d. answer (some d)

  abbrev pub read_data : ℕ → Text → World S → Option Data × World S
  read_data now key w = request redis codec url now none (redis.get now key >>= parse_data) w

  unfoldable pub read_state : ℕ → World S → Option Data × World S
  read_state now w = read_data now state_key w

  unfoldable pub read_snapshot : ℕ → World S → Option Data × World S
  read_snapshot now w = read_data now snapshot_key w

  unfoldable pub read_guardian_state : ℕ → World S → Option Data × World S
  read_guardian_state now w = read_data now guardian_key w

  unfoldable pub set_trade_strategy : ℕ → Text → Data → World S → Bool × World S
  set_trade_strategy now ticket strategy w =
      request redis codec url now false
        (set_call now (strategy_prefix ++ ticket) (codec.dumps_data strategy) strategy_ttl) w

  -- `json.loads(raw) if raw else {}`
  abbrev pub parse_snapshot : Option Text → Call S Data
  parse_snapshot raw =
      if is_blank raw then answer [] else loads_or_fault (codec.loads_data (text_of raw))

  abbrev pub update_snapshot : ℕ → Text → Text → World S → Bool × World S
  update_snapshot now name value w =
      request redis codec url now false
        (redis.get now snapshot_key >>= parse_snapshot >>= λ snap.
          set_call now snapshot_key (codec.dumps_data (put name value snap)) state_ttl)
        w

  unfoldable pub update_snapshot_positions : ℕ → Text → World S → Bool × World S
  update_snapshot_positions now positions w =
      update_snapshot now (codes "open_positions") positions w

  unfoldable pub update_snapshot_trades : ℕ → Text → World S → Bool × World S
  update_snapshot_trades now trades w = update_snapshot now (codes "recent_trades") trades w

  -- The calls of the panel's own copy of the module.
  abbrev pub notification_call : ℕ → Text → Call S (Option Bool)
  notification_call now dedupe_key =
      redis.set_nx now (notification_prefix ++ strip dedupe_key) (codes "1") notification_dedup_ttl
      >>= λ claimed. answer (some claimed)

  unfoldable pub claim_notification : ℕ → Text → World S → Option Bool × World S
  claim_notification now dedupe_key w =
      if is_empty dedupe_key || is_empty (strip dedupe_key)
      then (some true, w)
      else request redis codec url now none (notification_call now dedupe_key) w

  unfoldable pub get_trade_strategy : ℕ → Text → World S → Option Data × World S
  get_trade_strategy now ticket w = read_data now (strategy_prefix ++ ticket) w
