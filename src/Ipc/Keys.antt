-- ===== src/Ipc/Keys.antt =====
-- live_trading/redis_ipc.py and telegram_panel/redis_ipc.py: what the calls do to a claim's key.
use scalp_tn_aaa.Base.{
  drop, ℕ, ◌+◌, ◌≤◌, ◌≡◌, ◌≢◌, ◌⊎◌, inl, inr, refl, ap, Bool, true, false, not, ◌||◌, none, some,
  [], ◌∷◌, ◌++◌, arith, is_some,
}
use scalp_tn_aaa.Base.Text.{Text, codes, is_empty, upper, strip}
use scalp_tn_aaa.Float.Values.{find, put}
use scalp_tn_aaa.Ipc.{
  notification_prefix, notification_dedup_ttl, strategy_prefix, strategy_ttl, Redis, Codec, World,
  Call, CommandDict, ◌>>=◌, answer, request, commands_key, state_key, snapshot_key, guardian_key,
  entry_signal_prefix, entry_signal_ttl, state_ttl, cmd_ttl, guardian_ttl,
}
use scalp_tn_aaa.Ipc.Calls.{
  notification_call, claim_notification, get_trade_strategy, is_blank, text_of, loads_or_fault,
  parse_data, parse_snapshot, read_data, update_snapshot, read_state, read_snapshot,
  read_guardian_state, set_trade_strategy, update_snapshot_positions, update_snapshot_trades,
  entry_signal_key, claim_call, set_call, read_call, clear_write, send_write, is_outcome,
  claim_entry_signal, mark_entry_signal, write_state, write_snapshot, write_guardian_state,
  read_commands, clear_command, send_command,
}
use scalp_tn_aaa.Ipc.Kept.{
  KeepsKeys, Kept, if-kept, request-kept, bind-Kept, set_call-Kept, if_call-Kept, read_call-Kept,
  loads-Kept,
}
use scalp_tn_aaa.Ipc.Claims.{
  Op, claim, mark, state, snapshot, guardian, state_read, snapshot_read, guardian_read, strategy,
  positions, trades, notify, strategy_read, read, clear, send, run_op,
}

commands_apart : (d : Text) → commands_key ≢ entry_signal_prefix ++ d
commands_apart d h = cc

state_apart : (d : Text) → state_key ≢ entry_signal_prefix ++ d
state_apart d h = cc

snapshot_apart : (d : Text) → snapshot_key ≢ entry_signal_prefix ++ d
snapshot_apart d h = cc

guardian_apart : (d : Text) → guardian_key ≢ entry_signal_prefix ++ d
guardian_apart d h = cc

abbrev first_code : Text → ℕ
first_code [] = 0
first_code (c ∷ t) = c

letters_apart : (x y : ℕ) → x ≡ y → x ≡ 115 → y ≡ 101 → ⊥
letters_apart x y same hx hy = omega arith

strategy_apart : (t d : Text) → strategy_prefix ++ t ≢ entry_signal_prefix ++ d
strategy_apart t d h = letters_apart 115 101 (ap (λ key. first_code (drop 12 key)) h) refl refl

module _ {S : Type 0} (redis : Redis S) (codec : Codec) (url : Bool) {Holds : Text → ℕ → S → Type 0}
    (laws : KeepsKeys redis Holds) where
  -- The rules of Ipc/Kept.antt for a claim's key.
  abbrev pub key : Text → Text
  key id = entry_signal_key redis codec url id

  abbrev pub set_pending : ℕ → Text → Call S Bool
  set_pending t id = redis.set_nx t (key id) (codec.outcome (codes "PENDING") none) entry_signal_ttl

  claim-kept :
      (k : Text) (u t : ℕ) (id : Text) (w : World S)
      → Holds k u w.server
      → Holds k u (claim_entry_signal redis codec url t id w).1.server
  unfolding claim_entry_signal
  claim-kept k u t id w h =
      if-kept redis codec url laws k u t (is_empty id) (some false, w)
        (request redis codec url t none (claim_call redis codec url t id) w) h
        (request-kept redis codec url laws k u t none (claim_call redis codec url t id) w
          (bind-Kept redis codec url laws k u t (set_pending t id)
            (λ claimed. answer (some claimed))
            (λ s held.
              laws.nx_keeps t u k (key id) (codec.outcome (codes "PENDING") none) entry_signal_ttl s
                held)
            (λ _ s held. held))
          h)

  write-kept :
      (k text j : Text) (u t ttl : ℕ) (w : World S)
      → (j ≢ k) ⊎ (u ≤ t + ttl)
      → Holds k u w.server
      → Holds k u
          (request redis codec url t false (set_call redis codec url t j text ttl) w).1.server
  write-kept k text j u t ttl w apart h =
      request-kept redis codec url laws k u t false (set_call redis codec url t j text ttl) w
        (set_call-Kept redis codec url laws k u t j text ttl apart) h

  -- A function that reads the pending commands first.
  read_then-kept :
      {A : Type 0} (k : Text) (u t : ℕ) (fallback : A) (f : CommandDict → Call S A) (w : World S)
      → ((d : CommandDict) → Kept redis codec url laws k u (f d))
      → Holds k u w.server
      → Holds k u
          (request redis codec url t fallback (read_call redis codec url t >>= f) w).1.server
  read_then-kept k u t fallback f w kept h =
      request-kept redis codec url laws k u t fallback (read_call redis codec url t >>= f) w
        (bind-Kept redis codec url laws k u t (read_call redis codec url t) f
          (read_call-Kept redis codec url laws k u t) kept)
        h

  read_data-kept :
      (k j : Text) (u t : ℕ) (w : World S)
      → Holds k u w.server
      → Holds k u (read_data redis codec url t j w).1.server
  read_data-kept k j u t w h =
      request-kept redis codec url laws k u t none (redis.get t j >>= parse_data redis codec url) w
        (bind-Kept redis codec url laws k u t (redis.get t j) (parse_data redis codec url)
          (λ s held. laws.get_keeps t u k j s held)
          (λ raw.
            if_call-Kept redis codec url laws k u t (is_blank raw) (answer none) _ (λ s held. held)
              (bind-Kept redis codec url laws k u t
                (loads_or_fault (codec.loads_data (text_of raw))) (λ d. answer (some d))
                (loads-Kept redis codec url laws k u t (codec.loads_data (text_of raw)))
                (λ d s held. held))))
        h

  update-kept :
      (id name value : Text) (u t : ℕ) (w : World S)
      → Holds (key id) u w.server
      → Holds (key id) u (update_snapshot redis codec url t name value w).1.server
  update-kept id name value u t w h =
      request-kept redis codec url laws (key id) u t false
        (redis.get t snapshot_key >>= parse_snapshot redis codec url >>= λ snap.
          set_call redis codec url t snapshot_key (codec.dumps_data (put name value snap))
            state_ttl)
        w
        (bind-Kept redis codec url laws (key id) u t
          (redis.get t snapshot_key >>= parse_snapshot redis codec url) _
          (bind-Kept redis codec url laws (key id) u t (redis.get t snapshot_key)
            (parse_snapshot redis codec url)
            (λ s held. laws.get_keeps t u (key id) snapshot_key s held)
            (λ raw.
              if_call-Kept redis codec url laws (key id) u t (is_blank raw) (answer []) _
                (λ s held. held)
                (loads-Kept redis codec url laws (key id) u t (codec.loads_data (text_of raw)))))
          (λ snap.
            set_call-Kept redis codec url laws (key id) u t snapshot_key _ state_ttl
              (inl (snapshot_apart (codec.digest id)))))
        h

  notify-kept :
      (k dedupe_key : Text) (u t : ℕ) (w : World S)
      → Holds k u w.server
      → Holds k u (claim_notification redis codec url t dedupe_key w).1.server
  unfolding claim_notification
  notify-kept k dedupe_key u t w h =
      let name = notification_prefix ++ strip dedupe_key in
      if-kept redis codec url laws k u t (is_empty dedupe_key || is_empty (strip dedupe_key))
        (some true, w)
        (request redis codec url t none (notification_call redis codec url t dedupe_key) w) h
        (request-kept redis codec url laws k u t none
          (notification_call redis codec url t dedupe_key) w
          (bind-Kept redis codec url laws k u t
            (redis.set_nx t name (codes "1") notification_dedup_ttl)
            (λ claimed. answer (some claimed))
            (λ s held. laws.nx_keeps t u k name (codes "1") notification_dedup_ttl s held)
            (λ _ s held. held))
          h)

  -- Every call keeps a claim until the end of the window.
  pub run_op-kept :
      (id : Text) (u t : ℕ) (op : Op) (w : World S)
      → u ≤ t + entry_signal_ttl
      → Holds (key id) u w.server
      → Holds (key id) u (run_op redis codec url t op w).server
  unfolding mark_entry_signal write_state write_snapshot write_guardian_state read_commands
      clear_command send_command read_state read_snapshot read_guardian_state set_trade_strategy
      update_snapshot_positions update_snapshot_trades get_trade_strategy
  run_op-kept id u t (claim other) w le h = claim-kept (key id) u t other w h
  run_op-kept id u t (mark other status position) w le h =
      let normalized = upper (strip status) in
      let text = codec.outcome normalized position in
      if-kept redis codec url laws (key id) u t
        (is_empty other || not (is_outcome redis codec url normalized)) (false, w)
        (request redis codec url t false
          (set_call redis codec url t (key other) text entry_signal_ttl) w)
        h (write-kept (key id) text (key other) u t entry_signal_ttl w (inr le) h)
  run_op-kept id u t (state dict) w le h =
      write-kept (key id) (codec.dumps_data dict) state_key u t state_ttl w
        (inl (state_apart (codec.digest id))) h
  run_op-kept id u t (snapshot dict) w le h =
      write-kept (key id) (codec.dumps_data dict) snapshot_key u t state_ttl w
        (inl (snapshot_apart (codec.digest id))) h
  run_op-kept id u t (guardian dict) w le h =
      write-kept (key id) (codec.dumps_data dict) guardian_key u t guardian_ttl w
        (inl (guardian_apart (codec.digest id))) h
  run_op-kept id u t state_read w le h = read_data-kept (key id) state_key u t w h
  run_op-kept id u t snapshot_read w le h = read_data-kept (key id) snapshot_key u t w h
  run_op-kept id u t guardian_read w le h = read_data-kept (key id) guardian_key u t w h
  run_op-kept id u t (strategy ticket dict) w le h =
      write-kept (key id) (codec.dumps_data dict) (strategy_prefix ++ ticket) u t strategy_ttl w
        (inl (strategy_apart ticket (codec.digest id))) h
  run_op-kept id u t (positions value) w le h =
      update-kept id (codes "open_positions") value u t w h
  run_op-kept id u t (trades value) w le h = update-kept id (codes "recent_trades") value u t w h
  run_op-kept id u t (notify dedupe_key) w le h = notify-kept (key id) dedupe_key u t w h
  run_op-kept id u t (strategy_read ticket) w le h =
      read_data-kept (key id) (strategy_prefix ++ ticket) u t w h
  run_op-kept id u t read w le h =
      read_then-kept (key id) u t none (λ d. answer (some d)) w (λ d s held. held) h
  run_op-kept id u t (clear name) w le h =
      read_then-kept (key id) u t false (clear_write redis codec url t name) w
        (λ d.
          if_call-Kept redis codec url laws (key id) u t (is_some (find name d)) _ (answer true)
            (set_call-Kept redis codec url laws (key id) u t commands_key _ cmd_ttl
              (inl (commands_apart (codec.digest id))))
            (λ s held. held))
        h
  run_op-kept id u t (send command given) w le h =
      read_then-kept (key id) u t false (send_write redis codec url t command given) w
        (λ d.
          set_call-Kept redis codec url laws (key id) u t commands_key _ cmd_ttl
            (inl (commands_apart (codec.digest id))))
        h
