-- ===== src/Ipc/Once.antt =====
-- live_trading/redis_ipc.py: of all claims of a signal, one is told yes.
use mathlib.Core.Path.{subst}
use scalp_tn_aaa.Base.{
  ℕ, ◌+◌, ◌≤◌, ◌<◌, ◌≡◌, inl, inr, refl, sym, Bool, true, false, ◌&&◌, Option, none, some, List, [],
  ◌∷◌, All, arith, if◌then◌else◌, Bool-cases,
}
use scalp_tn_aaa.Base.Text.{Text, codes, text_eq, text_eq_iff, is_empty}
use scalp_tn_aaa.Ipc.{
  Redis, Codec, Client, World, Reply, returned, raised, continue_with, settle, answer, get_client,
  request, entry_signal_ttl,
}
use scalp_tn_aaa.Ipc.Calls.{claim_entry_signal}
use scalp_tn_aaa.Ipc.Kept.{KeepsKeys, get_client-kept}
use scalp_tn_aaa.Ipc.Claims.{Op, claim, is_won, run_op, wins, count_wins, InWindow}
use scalp_tn_aaa.Ipc.Keys.{key, set_pending, run_op-kept}

both : (a b : Bool) → (a && b) ≡ true → (a ≡ true) × (b ≡ true)
both a b h = ground arith

module _ {S : Type 0} (redis : Redis S) (codec : Codec) (url : Bool) {Holds : Text → ℕ → S → Type 0}
    (laws : KeepsKeys redis Holds) where
  abbrev pub claimed_at : ℕ → Text → World S → Option Bool × World S
  claimed_at t id w = claim_entry_signal redis codec url t id w

  -- The reply behind a yes.
  abbrev pub Won : ℕ → Text → World S → World S → Type 0
  Won t id before now =
      (s : S) × (set_pending redis codec url laws t id before.server ≡ returned true s)
      × (now.server ≡ s)

  won_reply :
      (t : ℕ) (w : World S) (r : Reply S Bool)
      → is_won (settle redis codec url t none w (continue_with r (λ c. answer (some c)))).0 ≡ true
      → (s : S) × (r ≡ returned true s)
        × ((settle redis codec url t none w (continue_with r (λ c. answer (some c)))).1.server ≡ s)
  won_reply t w (returned true s) h = (s, refl, refl)
  won_reply t w (returned false s) h = absurd (cc)
  won_reply t w (raised s) h = absurd (cc)

  won_either :
      (P : World S → Type 0) (b : Bool) (x y : Option Bool × World S)
      → (is_won x.0 ≡ true → P x.1)
      → (is_won y.0 ≡ true → P y.1)
      → is_won (if b then x else y).0 ≡ true
      → P (if b then x else y).1
  won_either P true x y p q h = p h
  won_either P false x y p q h = q h

  won_lem :
      (t : ℕ) (id : Text) (w : World S)
      → is_won (claimed_at t id w).0 ≡ true
      → Won t id (get_client redis codec url t w).1 (claimed_at t id w).1
  unfolding claim_entry_signal request
  won_lem t id w =
      let live = get_client redis codec url t w in
      won_either (Won t id live.1) (is_empty id) _ _ (λ h. absurd (cc))
        (won_either (Won t id live.1) live.0 _ _
          (λ h. won_reply t live.1 (set_pending redis codec url laws t id live.1.server) h)
          (λ h. absurd (cc)))

  won-Holds :
      (t : ℕ) (id : Text) (w : World S)
      → is_won (claimed_at t id w).0 ≡ true
      → Holds (key redis codec url laws id) (t + entry_signal_ttl) (claimed_at t id w).1.server
  won-Holds t id w h =
      let (s, set_now, eq) = won_lem t id w h in
      subst (λ s'. Holds (key redis codec url laws id) (t + entry_signal_ttl) s') (sym eq)
        (laws.nx_sets t (key redis codec url laws id) (codec.outcome (codes "PENDING") none)
          entry_signal_ttl (get_client redis codec url t w).1.server s set_now)

  held_is_refused :
      (t u : ℕ) (id : Text) (w : World S)
      → t < u
      → Holds (key redis codec url laws id) u w.server
      → is_won (claimed_at t id w).0 ≡ false
  held_is_refused t u id w lt h = elim (Bool-cases (is_won (claimed_at t id w).0)) [
    | inr lost ↦ lost
    | inl won ↦
        let (s, set_now, eq) = won_lem t id w won in
        absurd (
          laws.nx_refuses t u (key redis codec url laws id) (codec.outcome (codes "PENDING") none)
            entry_signal_ttl (get_client redis codec url t w).1.server s lt
            (get_client-kept redis codec url laws (key redis codec url laws id) u t w h) set_now)
  ]

  held_no_win :
      (t u : ℕ) (id : Text) (op : Op) (w : World S)
      → t < u
      → Holds (key redis codec url laws id) u w.server
      → wins redis codec url id t op w ≡ false
  held_no_win t u id (claim other) w lt h = elim (Bool-cases (text_eq id other)) [
    | inr apart ↦ rw apart
    | inl same ↦ rw (same, ← (text_eq_iff id other).0 same) (held_is_refused t u id w lt h)
  ]
  held_no_win t u id _ w lt h = refl

  win-Holds :
      (t : ℕ) (id : Text) (op : Op) (w : World S)
      → wins redis codec url id t op w ≡ true
      → Holds
          (key redis codec url laws id)
          (t + entry_signal_ttl)
          (run_op redis codec url t op w).server
  win-Holds t id (claim other) w h =
      let (same, won) = both (text_eq id other) (is_won (claimed_at t other w).0) h in
      subst
        (λ i.
          Holds (key redis codec url laws i) (t + entry_signal_ttl) (claimed_at t other w).1.server)
        (sym ((text_eq_iff id other).0 same)) (won-Holds t other w won)
  win-Holds t id _ w h = absurd (cc)

  held_no_wins :
      (id : Text) (start : ℕ) (ops : List (ℕ × Client × Op)) (s : S)
      → All (InWindow redis codec url start) ops
      → Holds (key redis codec url laws id) (start + entry_signal_ttl) s
      → count_wins redis codec url id ops s ≡ 0
  held_no_wins id start [] s i h = refl
  held_no_wins id start ((t, client, op) ∷ ops) s ((le, lt), rest) h =
      let w : World S = record { client = client; server = s } in
      let now = held_no_win t (start + entry_signal_ttl) id op w lt h in
      let kept =
        run_op-kept redis codec url laws id (start + entry_signal_ttl) t op w (omega arith) h in
      rw now
        (omega (arith, held_no_wins id start ops (run_op redis codec url t op w).server rest kept))

  -- Of all the claims of one signal that are made within the lifetime of a claim, by any number of
  -- processes, between any other calls of the module and whatever calls fail, at most one is told yes,
  -- where the server keeps a key until it expires and sets no held key under NX.
  pub claims_once :
      (id : Text) (start : ℕ) (ops : List (ℕ × Client × Op)) (s : S)
      → All (InWindow redis codec url start) ops
      → count_wins redis codec url id ops s ≤ 1
  claims_once id start [] s i = omega arith
  claims_once id start ((t, client, op) ∷ ops) s ((le, lt), rest) =
      let w : World S = record { client = client; server = s } in
      let s' = (run_op redis codec url t op w).server in
      elim (Bool-cases (wins redis codec url id t op w)) [
        | inr lost ↦ rw lost (omega (arith, claims_once id start ops s' rest))
        | inl won ↦
            let held =
              laws.earlier (key redis codec url laws id) (t + entry_signal_ttl)
                (start + entry_signal_ttl) s' (omega arith) (win-Holds t id op w won) in
            rw (won, held_no_wins id start ops s' rest held) (omega arith)
      ]
