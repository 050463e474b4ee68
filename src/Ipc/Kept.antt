-- ===== src/Ipc/Kept.antt =====
-- live_trading/redis_ipc.py: the keys that the server keeps under the calls of the module.
use scalp_tn_aaa.Base.{
  ℕ, ◌+◌, ◌≤◌, ◌<◌, ◌≡◌, ◌≢◌, ◌⊎◌, Bool, true, false, Option, none, some, [], if◌then◌else◌,
}
use scalp_tn_aaa.Base.Text.{Text}
use scalp_tn_aaa.Ipc.{
  Redis, Codec, World, Reply, returned, raised, server_after, Call, ◌>>=◌, get_client, reconnect,
  request, pinged, connected_to, settle, or_reconnect, continue_with, answer, commands_key,
}
use scalp_tn_aaa.Ipc.Calls.{parse_commands, loads_or_fault, is_blank, text_of, set_call, read_call}

-- Redis keeps a key until it expires: `Holds k u s` is that the key `k` of the server does not expire
-- before the time `u`.
pub record KeepsKeys {S : Type 0} (redis : Redis S) (Holds : Text → ℕ → S → Type 0) : Type 0 where
  pub earlier : (k : Text) (u v : ℕ) (s : S) → v ≤ u → Holds k u s → Holds k v s
  -- `SET k v NX EX ttl` that answers yes has set the key, and it answers no where the key is held.
  pub nx_sets :
      (t : ℕ) (k v : Text) (ttl : ℕ) (s s' : S)
      → redis.set_nx t k v ttl s ≡ returned true s'
      → Holds k (t + ttl) s'
  pub nx_refuses :
      (t u : ℕ) (k v : Text) (ttl : ℕ) (s s' : S)
      → t < u
      → Holds k u s
      → redis.set_nx t k v ttl s ≢ returned true s'
  -- No other call takes a held key away, but a `SET` of that key that lets it expire sooner.
  pub nx_keeps :
      (t u : ℕ) (k j v : Text) (ttl : ℕ) (s : S)
      → Holds k u s
      → Holds k u (server_after (redis.set_nx t j v ttl s))
  pub set_keeps :
      (t u : ℕ) (k j v : Text) (ttl : ℕ) (s : S)
      → (j ≢ k) ⊎ (u ≤ t + ttl)
      → Holds k u s
      → Holds k u (server_after (redis.set t j v ttl s))
  pub get_keeps :
      (t u : ℕ) (k j : Text) (s : S) → Holds k u s → Holds k u (server_after (redis.get t j s))
  pub ping_keeps :
      (t u : ℕ) (k : Text) (s : S) → Holds k u s → Holds k u (server_after (redis.ping t s))
  pub connect_keeps :
      (t u : ℕ) (k : Text) (s : S) → Holds k u s → Holds k u (server_after (redis.connect t s))

module _ {S : Type 0} (redis : Redis S) (codec : Codec) (url : Bool) where
  -- What pings and connections keep is kept until there is a client.
  module _ (t : ℕ) (P : S → Type 0) (pings : (s : S) → P s → P (server_after (redis.ping t s)))
      (connects : (s : S) → P s → P (server_after (redis.connect t s))) where
    if-keeps :
        (b : Bool) (x y : Bool × World S)
        → P x.1.server
        → P y.1.server
        → P (if b then x else y).1.server
    if-keeps true x y p q = p
    if-keeps false x y p q = q

    pinged-keeps :
        (w : World S) (r : Reply S (Unit {0}))
        → P (server_after r)
        → P (pinged redis codec url t w r).1.server
    pinged-keeps w (returned _ s) h = h
    pinged-keeps w (raised s) h = h

    connected_to-keeps :
        (w : World S) (r : Reply S (Unit {0}))
        → P (server_after r)
        → P (connected_to redis codec url t w r).1.server
    connected_to-keeps w (returned _ s) h = h
    connected_to-keeps w (raised s) h = h

    reconnect-keeps : (w : World S) → P w.server → P (reconnect redis codec url t w).1.server
    unfolding reconnect
    reconnect-keeps w h =
        if-keeps _ _ _ h (connected_to-keeps w (redis.connect t w.server) (connects w.server h))

    or_reconnect-keeps :
        (p : Bool × World S) → P p.1.server → P (or_reconnect redis codec url t p).1.server
    or_reconnect-keeps (true, w) h = h
    or_reconnect-keeps (false, w) h = reconnect-keeps w h

    pub get_client-keeps : (w : World S) → P w.server → P (get_client redis codec url t w).1.server
    unfolding get_client
    get_client-keeps w h =
        let after_ping = pinged-keeps w (redis.ping t w.server) (pings w.server h) in
        let retried =
          or_reconnect-keeps (pinged redis codec url t w (redis.ping t w.server)) after_ping in
        let reconnected = reconnect-keeps w h in search (if-keeps)

  module _ {Holds : Text → ℕ → S → Type 0} (laws : KeepsKeys redis Holds) where
    abbrev pub Kept : {A : Type 0} → Text → ℕ → Call S A → Type 0
    Kept k u m = (s : S) → Holds k u s → Holds k u (server_after (m s))

    module _ (k : Text) (u t : ℕ) where
      pub if-kept :
          {A : Type 0} (b : Bool) (x y : A × World S)
          → Holds k u x.1.server
          → Holds k u y.1.server
          → Holds k u (if b then x else y).1.server
      if-kept true x y p q = p
      if-kept false x y p q = q

      pub settle-kept :
          {A : Type 0} (fallback : A) (w : World S) (r : Reply S A)
          → Holds k u (server_after r)
          → Holds k u (settle redis codec url t fallback w r).1.server
      settle-kept fallback w (returned a s) h = h
      settle-kept fallback w (raised s) h = h

      pub get_client-kept :
          (w : World S) → Holds k u w.server → Holds k u (get_client redis codec url t w).1.server
      get_client-kept w h =
          get_client-keeps t (λ s. Holds k u s) (λ s held. laws.ping_keeps t u k s held)
            (λ s held. laws.connect_keeps t u k s held) w h

      pub request-kept :
          {A : Type 0} (fallback : A) (call : Call S A) (w : World S)
          → Kept k u call
          → Holds k u w.server
          → Holds k u (request redis codec url t fallback call w).1.server
      unfolding request
      request-kept fallback call w kept h =
          let live = get_client redis codec url t w in
          let held = get_client-kept w h in
          let settled =
            settle-kept fallback live.1 (call live.1.server) (kept live.1.server held) in
          search (if-kept)

      pub continued-kept :
          {A B : Type 0} (r : Reply S A) (f : A → Call S B)
          → Holds k u (server_after r)
          → ((a : A) → Kept k u (f a))
          → Holds k u (server_after (continue_with r f))
      continued-kept (returned a s) f h q = q a s h
      continued-kept (raised s) f h q = h

      pub bind-Kept :
          {A B : Type 0} (m : Call S A) (f : A → Call S B)
          → Kept k u m
          → ((a : A) → Kept k u (f a))
          → Kept k u (m >>= f)
      bind-Kept m f p q s h = continued-kept (m s) f (p s h) q

      pub set_call-Kept :
          (j text : Text) (ttl : ℕ)
          → (j ≢ k) ⊎ (u ≤ t + ttl)
          → Kept k u (set_call redis codec url t j text ttl)
      set_call-Kept j text ttl apart =
          bind-Kept (redis.set t j text ttl) (λ _. answer true)
            (λ s h. laws.set_keeps t u k j text ttl s apart h) (λ _ s h. h)

      pub if_call-Kept :
          {A : Type 0} (b : Bool) (m n : Call S A)
          → Kept k u m
          → Kept k u n
          → Kept k u (if b then m else n)
      if_call-Kept true m n p q = p
      if_call-Kept false m n p q = q

      pub loads-Kept : {A : Type 0} (o : Option A) → Kept k u (loads_or_fault {S = S} o)
      loads-Kept none s h = h
      loads-Kept (some d) s h = h

      pub read_call-Kept : Kept k u (read_call redis codec url t)
      read_call-Kept =
          bind-Kept (redis.get t commands_key) (parse_commands redis codec url)
            (λ s h. laws.get_keeps t u k commands_key s h)
            (λ raw.
              if_call-Kept (is_blank raw) (answer []) (loads_or_fault (codec.loads (text_of raw)))
                (λ s h. h) (loads-Kept (codec.loads (text_of raw))))
