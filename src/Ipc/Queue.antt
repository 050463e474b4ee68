-- ===== src/Ipc/Queue.antt =====
-- live_trading/redis_ipc.py: the functions that read the pending commands first.
use scalp_tn_aaa.Base.{
  ℕ, ◌+◌, ◌<◌, ◌≡◌, ◌≢◌, refl, sym, ap, ◌∙◌, Bool, true, false, Option, some, if◌then◌else◌,
}
use scalp_tn_aaa.Base.Text.{Text, is_empty}
use scalp_tn_aaa.Ipc.Kept.{get_client-keeps}
use scalp_tn_aaa.Ipc.{
  server_after, continue_with, Redis, Codec, World, Reply, returned, raised, Call, CommandDict,
  ◌>>=◌, settle, get_client, request, commands_key,
}
use scalp_tn_aaa.Ipc.Calls.{read_call, parse_commands}

-- What the server promises about what a key reads as: `Reads k v u s` is that `GET k` answers `v`
-- until the time `u`. A value that was set is read until it expires, and to read, to ping and to
-- connect change nothing that is read.
pub record Stores {S : Type 0} (redis : Redis S) (Reads : Text → Option Text → ℕ → S → Type 0)
    : Type 0 where
  pub set_reads :
      (t : ℕ) (k v : Text) (ttl : ℕ) (s s' : S)
      → redis.set t k v ttl s ≡ returned tt s'
      → Reads k (some v) (t + ttl) s'
  pub get_reads :
      (t u : ℕ) (k : Text) (v r : Option Text) (s s' : S)
      → t < u
      → Reads k v u s
      → redis.get t k s ≡ returned r s'
      → r ≡ v
  pub get_keeps :
      (t u : ℕ) (k : Text) (v : Option Text) (s : S)
      → Reads k v u s
      → Reads k v u (server_after (redis.get t k s))
  pub ping_keeps :
      (t u : ℕ) (k : Text) (v : Option Text) (s : S)
      → Reads k v u s
      → Reads k v u (server_after (redis.ping t s))
  pub connect_keeps :
      (t u : ℕ) (k : Text) (v : Option Text) (s : S)
      → Reads k v u s
      → Reads k v u (server_after (redis.connect t s))

-- `json.loads` reads back what `json.dumps` wrote, which is never empty.
pub record RoundTrips (codec : Codec) : Type 0 where
  pub loads-dumps : (d : CommandDict) → codec.loads (codec.dumps d) ≡ some d
  pub dumps_text : (d : CommandDict) → is_empty (codec.dumps d) ≡ false

module _ {S : Type 0} (redis : Redis S) (codec : Codec) (url : Bool)
    {Reads : Text → Option Text → ℕ → S → Type 0} (laws : Stores redis Reads)
    (json : RoundTrips codec) where
  -- The commands that a server has pending until a time: what its key holds parses as them.
  abbrev pub Pends : CommandDict → ℕ → S → Type 0
  Pends d u s =
      (raw : Option Text) × Reads commands_key raw u s
      × ((s' : S) → parse_commands redis codec url raw s' ≡ returned d s')

  pub parse-dumps :
      (d : CommandDict) (s : S)
      → parse_commands redis codec url (some (codec.dumps d)) s ≡ returned d s
  parse-dumps d s = rw (json.dumps_text d, json.loads-dumps d)

  get_client-Pends :
      (t u : ℕ) (d : CommandDict) (w : World S)
      → Pends d u w.server
      → Pends d u (get_client redis codec url t w).1.server
  get_client-Pends t u d w (raw, reads, parses) = (
    raw,
    get_client-keeps redis codec url t (λ s. Reads commands_key raw u s)
        (λ s h. laws.ping_keeps t u commands_key raw s h)
        (λ s h. laws.connect_keeps t u commands_key raw s h) w reads,
    parses,
  )

  -- What a call that goes on with the reply of `get` comes to.
  got :
      {A : Type 0} (t u : ℕ) (d : CommandDict) (f : CommandDict → Call S A) (raw : Option Text)
      (g : Reply S (Option Text))
      → ((r : Option Text) (s' : S) → g ≡ returned r s' → r ≡ raw)
      → ((s' : S) → parse_commands redis codec url raw s' ≡ returned d s')
      → Reads commands_key raw u (server_after g)
      → (a : A) (end : S)
      → continue_with (continue_with g (parse_commands redis codec url)) f ≡ returned a end
      → (s' : S) × Pends d u s' × (f d s' ≡ returned a end)
  got t u d f raw (returned r s') reads parses keeps a end e = (
    s',
    (raw, keeps, parses),
    ap (λ p. continue_with p f) (sym (parses s'))
        ∙ ap (λ o. continue_with (parse_commands redis codec url o s') f) (sym (reads r s' refl))
        ∙ e,
  )
  got t u d f raw (raised s') reads parses keeps a end e = absurd (cc)

  -- Where a function gives more than its fallback, its call has returned that.
  Answered : {A : Type 0} → ℕ → A → Call S A → World S → A → Type 0
  Answered t fallback call w x =
      (s : S) × (call (get_client redis codec url t w).1.server ≡ returned x s)
      × ((request redis codec url t fallback call w).1.server ≡ s)

  settle-answered :
      {A : Type 0} (t : ℕ) (fallback x : A) (w : World S) (r : Reply S A)
      → (settle redis codec url t fallback w r).0 ≡ x
      → x ≢ fallback
      → (s : S) × (r ≡ returned x s) × ((settle redis codec url t fallback w r).1.server ≡ s)
  settle-answered t fallback x w (returned a s) e apart = (s, ap (λ b. returned b s) e, refl)
  settle-answered t fallback x w (raised s) e apart = absurd (apart (sym e))

  either_answered :
      {A : Type 0} (t : ℕ) (fallback x : A) (call : Call S A) (live : Bool) (w : World S)
      → (if live then settle redis codec url t fallback w (call w.server) else (fallback, w)).0 ≡ x
      → x ≢ fallback
      → (s : S) × (call w.server ≡ returned x s)
        × ((if live
              then settle redis codec url t fallback w (call w.server)
              else (fallback, w)).1.server
            ≡ s)
  either_answered t fallback x call true w e apart =
      settle-answered t fallback x w (call w.server) e apart
  either_answered t fallback x call false w e apart = absurd (apart (sym e))

  answered :
      {A : Type 0} (t : ℕ) (fallback x : A) (call : Call S A) (w : World S)
      → (request redis codec url t fallback call w).0 ≡ x
      → x ≢ fallback
      → Answered t fallback call w x
  unfolding request Answered
  answered t fallback x call w e apart =
      let live = get_client redis codec url t w in
      either_answered t fallback x call live.0 live.1 e apart

  -- A function that reads the pending commands first goes on with those that pend.
  pub read_then :
      {A : Type 0} (t u : ℕ) (d : CommandDict) (fallback x : A) (f : CommandDict → Call S A)
      (w : World S)
      → t < u
      → Pends d u w.server
      → (request redis codec url t fallback (read_call redis codec url t >>= f) w).0 ≡ x
      → x ≢ fallback
      → (s : S) × Pends d u s
        × (f d s
            ≡ returned x
                (request redis codec url t fallback (read_call redis codec url t >>= f) w).1.server)
  unfolding Answered
  read_then t u d fallback x f w lt h e apart =
      let at = (get_client redis codec url t w).1.server in
      let (s, returns, ends) =
        answered t fallback x (read_call redis codec url t >>= f) w e apart in
      let (raw, reads, parses) = get_client-Pends t u d w h in
      let (s', pends, goes_on) =
        got t u d f raw (redis.get t commands_key at)
          (λ r s' g. laws.get_reads t u commands_key raw r at s' lt reads g) parses
          (laws.get_keeps t u commands_key raw at reads) x s returns in
      (s', pends, goes_on ∙ ap (λ s''. returned x s'') (sym ends))
