-- ===== src/Ipc/Commands.antt =====
-- live_trading/redis_ipc.py: the pending commands, from the panel to the robot.
use mathlib.Core.Path.{subst}
use scalp_tn_aaa.Base.{
  ◌⊎◌, ℕ, ◌+◌, ◌<◌, ◌≡◌, refl, ap, Bool, true, false, Option, none, some, List, [], ◌∷◌, arith,
  if◌then◌else◌, Bool-cases, inl, inr, is_some,
}
use scalp_tn_aaa.Base.Text.{Text, text_eq, text_eq_iff}
use scalp_tn_aaa.Float.Values.{find, put, find-put}
use scalp_tn_aaa.Ipc.{
  answer, continue_with, Redis, Codec, Client, World, Reply, returned, raised, CommandDict,
  commands_key, cmd_ttl,
}
use scalp_tn_aaa.Ipc.Calls.{
  clear_write, send_write, without_key, engine_key_of, pending_of, read_commands, clear_command,
  send_command, set_call,
}
use scalp_tn_aaa.Ipc.Queue.{Stores, RoundTrips, Pends, parse-dumps, read_then}

find-without_key :
    (j k : Text) (d : CommandDict)
    → find j (without_key k d) ≡ (if text_eq j k then none else find j d)
unfolding find without_key
find-without_key j k [] = ground arith
find-without_key j k (e ∷ d) =
    ground (arith, find-without_key j k d, text_eq_iff j k, text_eq_iff j e.0, text_eq_iff k e.0)

none_lem : {A : Type 0} (o : Option A) → is_some o ≡ false → o ≡ none
none_lem none h = refl
none_lem (some a) h = absurd (cc)

absent-find :
    (j k : Text) (d : CommandDict)
    → is_some (find k d) ≡ false
    → find j d ≡ (if text_eq j k then none else find j d)
absent-find j k d h = elim (Bool-cases (text_eq j k)) [
  | inr apart ↦ rw apart
  | inl same ↦ rw (same, (text_eq_iff j k).0 same) (none_lem (find k d) h)
]

module _ {S : Type 0} (redis : Redis S) (codec : Codec) (url : Bool)
    {Reads : Text → Option Text → ℕ → S → Type 0} (laws : Stores redis Reads)
    (json : RoundTrips codec) where
  set_returned :
      (g : Reply S (Unit {0})) (end : S)
      → continue_with g (λ _. answer true) ≡ returned true end
      → g ≡ returned tt end
  set_returned (returned _ s) end e = ap (λ s'. returned tt s') (cc)
  set_returned (raised s) end e = absurd (cc)

  set_reply :
      (t : ℕ) (d : CommandDict) (s end : S)
      → set_call redis codec url t commands_key (codec.dumps d) cmd_ttl s ≡ returned true end
      → Pends redis codec url laws json d (t + cmd_ttl) end
  set_reply t d s end e = (
    some (codec.dumps d),
    laws.set_reads t commands_key (codec.dumps d) cmd_ttl s end
        (set_returned (redis.set t commands_key (codec.dumps d) cmd_ttl s) end e),
    parse-dumps redis codec url laws json d,
  )

  send-Pends :
      (t u : ℕ) (command : Text) (given : Option (List (Text × Text))) (d : CommandDict)
      (w : World S)
      → t < u
      → Pends redis codec url laws json d u w.server
      → (send_command redis codec url t command given w).0 ≡ true
      → Pends redis codec url laws json
          (put (engine_key_of command) (pending_of given) d)
          (t + cmd_ttl)
          (send_command redis codec url t command given w).1.server
  unfolding send_command
  send-Pends t u command given d w lt h e =
      let (s, pends, writes) =
        read_then redis codec url laws json t u d false true
          (send_write redis codec url t command given) w lt h e (λ q. cc) in
      set_reply t (put (engine_key_of command) (pending_of given) d) s _ writes

  read-Pends :
      (t u : ℕ) (d r : CommandDict) (w : World S)
      → t < u
      → Pends redis codec url laws json d u w.server
      → (read_commands redis codec url t w).0 ≡ some r
      → (r ≡ d) × Pends redis codec url laws json d u (read_commands redis codec url t w).1.server
  unfolding read_commands
  read-Pends t u d r w lt h e =
      let (s, pends, ends) =
        read_then redis codec url laws json t u d none (some r) (λ d'. answer (some d')) w lt h e
          (λ q. cc) in
      (cc, subst (λ s'. Pends redis codec url laws json d u s') (cc) pends)

  Cleared : ℕ → ℕ → Text → CommandDict → S → Type 0
  Cleared t u key d end =
      Pends redis codec url laws json (without_key key d) (t + cmd_ttl) end
      ⊎ (is_some (find key d) ≡ false) × Pends redis codec url laws json d u end

  clear_reply :
      (t u : ℕ) (key : Text) (d : CommandDict) (s end : S) (b : Bool)
      → is_some (find key d) ≡ b
      → Pends redis codec url laws json d u s
      → (if b
            then set_call redis codec url t commands_key (codec.dumps (without_key key d)) cmd_ttl
            else answer true)
          s
        ≡ returned true end
      → Cleared t u key d end
  unfolding Cleared
  clear_reply t u key d s end true b h e = inl (set_reply t (without_key key d) s end e)
  clear_reply t u key d s end false b h e =
      inr (b, subst (λ s'. Pends redis codec url laws json d u s') (cc) h)

  clear-Cleared :
      (t u : ℕ) (key : Text) (d : CommandDict) (w : World S)
      → t < u
      → Pends redis codec url laws json d u w.server
      → (clear_command redis codec url t key w).0 ≡ true
      → Cleared t u key d (clear_command redis codec url t key w).1.server
  unfolding clear_command
  clear-Cleared t u key d w lt h e =
      let (s, pends, writes) =
        read_then redis codec url laws json t u d false true (clear_write redis codec url t key) w
          lt h e (λ q. cc) in
      clear_reply t u key d s _ (is_some (find key d)) refl pends writes

  -- Where the server reads back what was set until it expires, and `json` what it wrote: a command that
  -- the panel was told is sent, and that a robot then reads within the lifetime of the commands, each
  -- with its own client, is there under its engine's key, with its payload or as a flag, and every other
  -- command that was pending when it was sent is there as it was.
  pub sent_command_is_read :
      (t t' u : ℕ) (command : Text) (given : Option (List (Text × Text))) (d r : CommandDict)
      (panel : World S) (robot : Client)
      → t < u
      → t' < t + cmd_ttl
      → Pends redis codec url laws json d u panel.server
      → (send_command redis codec url t command given panel).0 ≡ true
      → (read_commands redis codec url t' (record {
        client = robot;
        server = (send_command redis codec url t command given panel).1.server;
      })).0
        ≡ some r
      → (j : Text)
      → find j r ≡ (if text_eq j (engine_key_of command) then some (pending_of given) else find j d)
  sent_command_is_read t t' u command given d r panel robot lt lt' h sent reads j =
      let w : World S = record {
        client = robot;
        server = (send_command redis codec url t command given panel).1.server;
      } in
      let now = send-Pends t u command given d panel lt h sent in
      let (same, _) =
        read-Pends t' (t + cmd_ttl) (put (engine_key_of command) (pending_of given) d) r w lt' now
          reads in
      rw same (find-put j (engine_key_of command) (pending_of given) d)

  -- Where the server reads back what was set until it expires, and `json` what it wrote: a command that
  -- a robot was told is cleared is not in what is then read, within the lifetime of the commands before
  -- and after, and every other command that was pending is there as it was.
  pub cleared_command_is_gone :
      (t t' u : ℕ) (key : Text) (d r : CommandDict) (w : World S) (reader : Client)
      → t < u
      → t' < u
      → t' < t + cmd_ttl
      → Pends redis codec url laws json d u w.server
      → (clear_command redis codec url t key w).0 ≡ true
      → (read_commands redis codec url t'
          (record { client = reader; server = (clear_command redis codec url t key w).1.server })).0
        ≡ some r
      → (j : Text) → find j r ≡ (if text_eq j key then none else find j d)
  unfolding Cleared
  cleared_command_is_gone t t' u key d r w reader lt lt' within h cleared reads j =
      let w' : World S = record {
        client = reader;
        server = (clear_command redis codec url t key w).1.server;
      } in
      elim (clear-Cleared t u key d w lt h cleared) [
        | inl now ↦
            let (same, _) = read-Pends t' (t + cmd_ttl) (without_key key d) r w' within now reads in
            rw same (find-without_key j key d)
        | inr (absent, now) ↦
            let (same, _) = read-Pends t' u d r w' lt' now reads in
            rw same (absent-find j key d absent)
      ]
