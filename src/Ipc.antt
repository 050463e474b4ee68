-- ===== src/Ipc.antt =====
-- live_trading/redis_ipc.py and the panel's copy of it, telegram_panel/redis_ipc.py: the keys and the
-- connection; the functions are in Ipc/Calls.antt. Robot and panel share their state through Redis. The
-- client library is a parameter: a call gives an answer or raises, and either way the server may have
-- changed. So are `json` and the hash of a signal id. Times are seconds, and one reading of the clock
-- serves a whole function.
pub mod Calls
pub mod Kept
pub mod Claims
pub mod Once
pub mod Commands
pub mod Keys
pub mod Queue
use scalp_tn_aaa.Base.{
  ℕ, ◌-◌, Bool, true, false, not, ◌&&◌, ◌||◌, Option, none, some, List, [], ◌∷◌, ◌++◌,
  if◌then◌else◌, ltb, leb, is_some,
}
use scalp_tn_aaa.Base.Text.{Text, codes, text_eq, upper, lower, strip, is_empty}
use scalp_tn_aaa.Float.Values.{find, put}

abbrev pub commands_key : Text
commands_key = codes "goldscalper:commands"

abbrev pub state_key : Text
state_key = codes "goldscalper:state"

abbrev pub snapshot_key : Text
snapshot_key = codes "goldscalper:snapshot"

abbrev pub guardian_key : Text
guardian_key = codes "goldscalper:guardian"

abbrev pub entry_signal_prefix : Text
entry_signal_prefix = codes "goldscalper:entry-signal:"

abbrev pub state_ttl : ℕ
state_ttl = 300

abbrev pub cmd_ttl : ℕ
cmd_ttl = 300

abbrev pub guardian_ttl : ℕ
guardian_ttl = 97_200

abbrev pub entry_signal_ttl : ℕ
entry_signal_ttl = 604_800

-- What a call of the client library ends with.
pub data Reply (S A : Type 0) : Type 0 where
  returned : A → S → Reply S A
  raised : S → Reply S A

abbrev pub Call : Type 0 → Type 0 → Type 0
Call S A = S → Reply S A

-- The server after a call.
abbrev pub server_after : {S A : Type 0} → Reply S A → S
server_after (returned a s) = s
server_after (raised s) = s

module _ {S A B : Type 0} where
  abbrev pub continue_with : Reply S A → (A → Call S B) → Reply S B
  continue_with (returned a s) f = f a s
  continue_with (raised s) f = raised s

  infixl 5 ◌>>=◌
  abbrev pub ◌>>=◌ : Call S A → (A → Call S B) → Call S B
  ◌>>=◌ m f s = continue_with (m s) f

abbrev pub answer : {S A : Type 0} → A → Call S A
answer a s = returned a s

abbrev pub fault : {S A : Type 0} → Call S A
fault s = raised s

-- The calls of the library, each at a time: `get`, `set` with `ex`, `set` with `nx` and `ex`, `ping`,
-- and `from_url` followed by a `ping`.
pub record Redis (S : Type 0) : Type 0 where
  pub get : ℕ → Text → Call S (Option Text)
  pub set : ℕ → Text → Text → ℕ → Call S (Unit {0})
  pub set_nx : ℕ → Text → Text → ℕ → Call S Bool
  pub ping : ℕ → Call S (Unit {0})
  pub connect : ℕ → Call S (Unit {0})

abbrev pub strategy_prefix : Text
strategy_prefix = codes "goldscalper:strategy:"

abbrev pub strategy_ttl : ℕ
strategy_ttl = 259_200

abbrev pub notification_prefix : Text
notification_prefix = codes "goldscalper:notification:"

abbrev pub notification_dedup_ttl : ℕ
notification_dedup_ttl = 2_592_000

-- The pending commands: a flag, or the payload that came with the command.
pub data Pending : Type 0 where
  flag : Pending
  payload : List (Text × Text) → Pending

abbrev pub CommandDict : Type 0
CommandDict = List (Text × Pending)

-- The other dicts, with the text of each value.
abbrev pub Data : Type 0
Data = List (Text × Text)

-- `json.loads`, which may raise, and `json.dumps` for the two kinds of dict and for the record of a
-- claim, which is a status and perhaps a position; and the hash in an entry signal's key.
pub record Codec : Type 0 where
  pub loads_data : Text → Option Data
  pub dumps_data : Data → Text
  pub loads : Text → Option CommandDict
  pub dumps : CommandDict → Text
  pub digest : Text → Text
  pub outcome : Text → Option Text → Text

-- `_client is not None`, `_last_failure_time` and `_last_ping_time`.
pub record Client : Type 0 where
  pub connected : Bool
  pub last_failure : ℕ
  pub last_ping : ℕ

pub record World (S : Type 0) : Type 0 where
  pub client : Client
  pub server : S

-- `_reset_client`, and what a failed ping and a failed connection leave.
abbrev pub reset_client : ℕ → Client
reset_client now = record { connected = false; last_failure = now; last_ping = 0 }

module _ {S : Type 0} (redis : Redis S) (codec : Codec) (url : Bool) where
  abbrev pub pinged : ℕ → World S → Reply S (Unit {0}) → Bool × World S
  pinged now w (returned _ s) =
      (true, record { client = record w.client { last_ping = now }; server = s })
  pinged now w (raised s) = (false, record { client = reset_client now; server = s })

  abbrev pub connected_to : ℕ → World S → Reply S (Unit {0}) → Bool × World S
  connected_to now w (returned _ s) = (
    true,
    record { client = record { connected = true; last_failure = 0; last_ping = now }; server = s },
  )
  connected_to now w (raised s) =
      (false, record { client = record w.client { last_failure = now }; server = s })

  -- The retry, once the cooldown is over.
  unfoldable pub reconnect : ℕ → World S → Bool × World S
  reconnect now w =
      if ltb 0 w.client.last_failure && ltb (now - w.client.last_failure) 60
      then (false, w)
      else connected_to now w (redis.connect now w.server)

  abbrev pub or_reconnect : ℕ → Bool × World S → Bool × World S
  or_reconnect now (true, w) = (true, w)
  or_reconnect now (false, w) = reconnect now w

  -- Whether there is a live client.
  unfoldable pub get_client : ℕ → World S → Bool × World S
  get_client now w =
      if not url
      then (false, w)
      else if not w.client.connected
      then reconnect now w
      else if leb 30 (now - w.client.last_ping)
      then or_reconnect now (pinged now w (redis.ping now w.server))
      else (true, w)

  module _ {A : Type 0} where
    abbrev pub settle : ℕ → A → World S → Reply S A → A × World S
    settle now fallback w (returned a s) = (a, record w { server = s })
    settle now fallback w (raised s) = (fallback, record { client = reset_client now; server = s })

    -- The frame of every function: no client and an exception give the fallback.
    unfoldable pub request : ℕ → A → Call S A → World S → A × World S
    request now fallback call w =
        let (live, w') = get_client now w in
        if live then settle now fallback w' (call w'.server) else (fallback, w')
