-- ===== src/Risk/Trailing/Ratchet.antt =====
-- The stop over any sequence of quotes.
use mathlib.Core.Path.{subst}
use scalp_tn_aaa.Base.{
  ◌≡◌, refl, Bool, true, false, ◌&&◌, none, some, List, [], ◌∷◌, arith, ◌∙◌, sym, Bool-cases,
  Option-cases, inl, inr, ◌⊎◌,
}
use scalp_tn_aaa.Base.Text.{Text, upper}
use scalp_tn_aaa.Float.{Float, IsOrdered, IsSigned, IsMonotone, IsRounded, IsNumber, ◌≼◌, nought}
use scalp_tn_aaa.Risk.Trailing.{
  TrailConfig, TrailInput, TrailDecision, Candle, Stage, is_buy, compute_adaptive_trail,
  trail_decision, choose_trail, armed, should_apply,
}
use scalp_tn_aaa.Risk.Trailing.Ticket.{
  Ticket, Tick, update_ticket, run_ticks, decision_at, move_stop, apply_step, input_of, observe,
  price_of, sent_stop,
}

module _ {F : Type 0} ⦃fl : Float F⦄ where
  -- The second stop protects at least as much as the first one, for a long position and for a short
  -- one.
  abbrev pub NoWorse : Bool → F → F → Type 0
  NoWorse true a b = a ≼ b
  NoWorse false a b = b ≼ a

  decision-armed :
      (sum : List F → F) (cfg : TrailConfig F) (candles : List (Candle F)) (i : TrailInput F)
      → (compute_adaptive_trail sum cfg candles i).breakeven_armed ≡ armed i
  unfolding compute_adaptive_trail trail_decision
  decision-armed sum cfg candles i = refl

  armed-kept : (i : TrailInput F) → i.breakeven_armed ≡ true → armed i ≡ true
  unfolding armed
  armed-kept i h = ground arith

  -- Without one unit of risk earned there is no candidate.
  unarmed_candidate :
      (sum : List F → F) (cfg : TrailConfig F) (candles : List (Candle F)) (i : TrailInput F)
      → armed i ≡ false
      → (compute_adaptive_trail sum cfg candles i).candidate_sl ≡ none
  unfolding compute_adaptive_trail trail_decision choose_trail
  unarmed_candidate sum cfg candles i h = simp h

  move_stop-none :
      (cfg : TrailConfig F) (accepted : Bool) (direction : Text) (d : TrailDecision F) (sl : F)
      → d.candidate_sl ≡ none
      → move_stop cfg accepted direction d sl ≡ sl
  unfolding move_stop should_apply
  move_stop-none cfg accepted direction d sl h = ground arith

  -- The stop stays, or it moves to a candidate that passed `should_apply`.
  move_stop_cases :
      (cfg : TrailConfig F) (accepted : Bool) (direction : Text) (d : TrailDecision F) (sl : F)
      → (move_stop cfg accepted direction d sl ≡ sl)
        ⊎ ((c : F) × (d.candidate_sl ≡ some c)
            × (should_apply direction sl (some c) (apply_step cfg d.stage) ≡ true)
            × (move_stop cfg accepted direction d sl ≡ sent_stop c))
  unfolding move_stop
  move_stop_cases cfg accepted direction d sl = elim (Option-cases d.candidate_sl) [
    | inl e ↦ ground arith
    | inr (c, e) ↦
        elim (Bool-cases
          (should_apply direction sl (some c) (apply_step cfg d.stage) && accepted)) [
            | inl h ↦ inr (c, e, ground arith, rw (e, h) refl)
            | inr h ↦ inl (rw (e, h) refl)
          ]
  ]

  input-armed :
      (price : F) (t : Ticket F)
      → (input_of price (observe price t)).breakeven_armed ≡ t.breakeven_armed
  input-armed price t = ground arith

  module _ (sum : List F → F) (cfg : TrailConfig F) where
    update_ticket-armed :
        (tick : Tick F) (t : Ticket F)
        → t.breakeven_armed ≡ true
        → (update_ticket sum cfg tick t).breakeven_armed ≡ true
    unfolding update_ticket decision_at
    update_ticket-armed tick t h =
        let price = price_of tick t in
        let i = input_of price (observe price t) in
        decision-armed sum cfg tick.candles i ∙ armed-kept i (input-armed price t ∙ h)

    update_ticket-unarmed :
        (tick : Tick F) (t : Ticket F)
        → (update_ticket sum cfg tick t).breakeven_armed ≡ false
        → (update_ticket sum cfg tick t).sl ≡ t.sl
    unfolding update_ticket decision_at
    update_ticket-unarmed tick t h =
        let price = price_of tick t in
        let i = input_of price (observe price t) in
        move_stop-none cfg tick.accepted (upper t.direction) _ t.sl (
          unarmed_candidate sum cfg tick.candles i
            (sym (decision-armed sum cfg tick.candles i) ∙ h))

    run_ticks-armed :
        (ticks : List (Tick F)) (t : Ticket F)
        → t.breakeven_armed ≡ true
        → (run_ticks sum cfg ticks t).breakeven_armed ≡ true
    unfolding run_ticks
    run_ticks-armed [] t h = h
    run_ticks-armed (tick ∷ ticks) t h =
        run_ticks-armed ticks (update_ticket sum cfg tick t) (update_ticket-armed tick t h)

    -- As long as a position has not earned its initial risk, whatever the quotes were and whatever
    -- the broker accepted, its stop is where it was.
    pub no_move_before_1r :
        (ticks : List (Tick F)) (t : Ticket F)
        → (run_ticks sum cfg ticks t).breakeven_armed ≡ false
        → (run_ticks sum cfg ticks t).sl ≡ t.sl
    unfolding run_ticks
    no_move_before_1r [] t h = refl
    no_move_before_1r (tick ∷ ticks) t h =
        let next = update_ticket sum cfg tick t in
        elim (Bool-cases next.breakeven_armed) [
          | inl earned ↦ absurd (ground (arith, run_ticks-armed ticks next earned))
          | inr waits ↦ no_move_before_1r ticks next h ∙ update_ticket-unarmed tick t waits
        ]

  module _ (laws : IsOrdered F) (signed : IsSigned F) (mono : IsMonotone F)
      (rounded : IsRounded F) where
    applied-NoWorse :
        (direction : Text) (sl candidate step : F)
        → nought ≼ step
        → should_apply direction sl (some candidate) step ≡ true
        → NoWorse (is_buy direction) sl candidate
    unfolding should_apply
    applied-NoWorse direction sl candidate step positive h = elim (Bool-cases (is_buy direction)) [
      | inl e ↦ rw e (signed.le_of_sub candidate sl (laws.le_trans _ _ _ positive (ground arith)))
      | inr e ↦ rw e (signed.le_of_sub sl candidate (laws.le_trans _ _ _ positive (ground arith)))
    ]

    not_below_zero : (c : F) → fl.lt nought c ≡ true → c ≼ nought → ⊥
    not_below_zero c h k =
        let (hn, hc) = laws.number_of_lt nought c h in ground (arith, laws.lt-eq nought c hn hc)

    sent-NoWorse : (b : Bool) (x y : F) → NoWorse b x y → NoWorse b (sent_stop x) (sent_stop y)
    sent-NoWorse true x y h = mono.round_mono 2 x y h
    sent-NoWorse false x y h = mono.round_mono 2 y x h

    NoWorse-refl : (b : Bool) (x : F) → IsNumber x → NoWorse b x x
    NoWorse-refl true x h = h
    NoWorse-refl false x h = h

    NoWorse-trans : (b : Bool) (x y z : F) → NoWorse b x y → NoWorse b y z → NoWorse b x z
    NoWorse-trans true x y z h k = laws.le_trans x y z h k
    NoWorse-trans false x y z h k = laws.le_trans z y x k h

    NoWorse-IsNumber : (b : Bool) (x y : F) → NoWorse b x y → IsNumber y
    NoWorse-IsNumber true x y h = (laws.refl_of_le x y h).1
    NoWorse-IsNumber false x y h = (laws.refl_of_le y x h).0

    module _ (cfg : TrailConfig F) (positive : nought ≼ cfg.min_step_price) where
      apply_step-positive : (stage : Stage) → nought ≼ apply_step cfg stage
      apply_step-positive stage = ground (arith, laws.number_lit 0 1)

      move_stop-NoWorse :
          (accepted : Bool) (direction : Text) (d : TrailDecision F) (sl : F)
          → IsNumber sl
          → sent_stop sl ≡ sl
          → NoWorse (is_buy direction) sl (move_stop cfg accepted direction d sl)
      move_stop-NoWorse accepted direction d sl num whole =
          elim (move_stop_cases cfg accepted direction d sl) [
            | inl same ↦ rw same (NoWorse-refl (is_buy direction) sl num)
            | inr (c, _, applied, moved) ↦
                let better =
                  applied-NoWorse direction sl c (apply_step cfg d.stage)
                    (apply_step-positive d.stage) applied in
                rw moved (
                  subst (λ x. NoWorse (is_buy direction) x (sent_stop c)) whole
                    (sent-NoWorse (is_buy direction) sl c better))
          ]

      -- What was sent has two decimals.
      move_stop-whole :
          (accepted : Bool) (direction : Text) (d : TrailDecision F) (sl : F)
          → sent_stop sl ≡ sl
          → let moved = move_stop cfg accepted direction d sl in sent_stop moved ≡ moved
      move_stop-whole accepted direction d sl whole =
          elim (move_stop_cases cfg accepted direction d sl) [
            | inl same ↦ rw same whole
            | inr (c, _, _, moved) ↦ rw moved (rounded.cents_idem c)
          ]

      -- Over any quotes, with any answers of the broker, the stop that the broker holds never moves
      -- against the position: not down for a long one, not up for a short one. The minimum step is
      -- not to be negative, and the first stop is a number of two decimals, as is every stop that
      -- `modify_position` sends; the stop of a new order may have more.
      pub stop_never_retreats :
          (sum : List F → F) (ticks : List (Tick F)) (t : Ticket F)
          → IsNumber t.sl
          → sent_stop t.sl ≡ t.sl
          → NoWorse (is_buy (upper t.direction)) t.sl (run_ticks sum cfg ticks t).sl
      unfolding run_ticks update_ticket
      stop_never_retreats sum [] t num whole = NoWorse-refl (is_buy (upper t.direction)) t.sl num
      stop_never_retreats sum (tick ∷ ticks) t num whole =
          let next = update_ticket sum cfg tick t in
          let b = is_buy (upper t.direction) in
          let step =
            move_stop-NoWorse tick.accepted (upper t.direction) (decision_at sum cfg tick t) t.sl
              num whole in
          NoWorse-trans b t.sl next.sl (run_ticks sum cfg ticks next).sl step (
            stop_never_retreats sum ticks next (NoWorse-IsNumber b t.sl next.sl step) (
              move_stop-whole tick.accepted (upper t.direction) (decision_at sum cfg tick t) t.sl
                whole))

      -- A short position without a stop, whose live stop reads 0, is left without one by an update
      -- whose decision proposes no stop or a positive one. The minimum step is not to be negative.
      pub short_without_stop_stays :
          (sum : List F → F) (tick : Tick F) (t : Ticket F)
          → is_buy (upper t.direction) ≡ false
          → t.sl ≡ nought
          → ((c : F) → (decision_at sum cfg tick t).candidate_sl ≡ some c → fl.lt nought c ≡ true)
          → (update_ticket sum cfg tick t).sl ≡ nought
      unfolding update_ticket
      short_without_stop_stays sum tick t short bare above =
          let d = decision_at sum cfg tick t in
          elim (move_stop_cases cfg tick.accepted (upper t.direction) d t.sl) [
            | inl same ↦ same ∙ bare
            | inr (c, e, applied, _) ↦
                let worse =
                  applied-NoWorse (upper t.direction) t.sl c (apply_step cfg d.stage)
                    (apply_step-positive d.stage) applied in
                absurd (
                  not_below_zero c (above c e)
                    (rw (sym bare) (subst (λ b. NoWorse b t.sl c) short worse)))
          ]
