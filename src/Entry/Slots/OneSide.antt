-- ===== src/Entry/Slots/OneSide.antt =====
-- The one-way guard, the capacity guard, and the positions that they let build up.
use mathlib.Core.Path.{subst}
use scalp_tn_aaa.Base.{
  ℕ, ◌+◌, ◌≤◌, ◌<◌, ◌≡◌, ◌≢◌, refl, ◌↔◌, ◌⊎◌, inl, inr, Bool, true, false, not, List, [], ◌∷◌, ◌++◌,
  length, arith, All, any, Bool-cases, length-append,
}
use scalp_tn_aaa.Base.Text.{Text, text_eq, text_eq_iff, upper, strip}
use scalp_tn_aaa.Entry.Policy.{buy, sell, is_side, normalized}
use scalp_tn_aaa.Entry.Slots.{
  Position, Slot, permitted, normalized_direction, opposite_direction, scan_directions,
  one_way_entry_allowed, unknown, available_for_strategy_slots, available, is_active,
  is_current_active_position, first_given,
}

scan_directions_iff :
    (opposite : Text) (ps : List Position) (n : ℕ)
    → (scan_directions opposite ps n ≡ permitted) ↔ (
        (n ≡ 0)
        × All (λ p. (normalized_direction p ≢ opposite) × (normalized_direction p ≢ unknown)) ps)
unfolding scan_directions
scan_directions_iff opposite [] n = ground arith
scan_directions_iff opposite (p ∷ ps) n = ground (
  arith,
  text_eq_iff (normalized_direction p) opposite,
  text_eq_iff (normalized_direction p) unknown,
  scan_directions_iff opposite ps n,
  scan_directions_iff opposite ps (n + 1),
)

direction_cases :
    (p : Position)
    → (normalized_direction p ≡ buy)
      ⊎ (normalized_direction p ≡ sell)
      ⊎ (normalized_direction p ≡ unknown)
unfolding normalized_direction
direction_cases p =
    let side = normalized (first_given p.type p.direction) in
    ground (arith, text_eq_iff side buy, text_eq_iff side sell)

-- All positions have the direction.
abbrev pub AllSide : Text → List Position → Type 0
AllSide side = All λ p. normalized_direction p ≡ side

-- With neither the opposite direction nor an unknown one there is the candidate's direction alone.
others-AllSide :
    (side opposite : Text) (ps : List Position)
    → ((side ≡ buy) × (opposite ≡ sell)) ⊎ ((side ≡ sell) × (opposite ≡ buy))
    → All (λ p. (normalized_direction p ≢ opposite) × (normalized_direction p ≢ unknown)) ps
      ↔ AllSide side ps
others-AllSide side opposite [] h = ground arith
others-AllSide side opposite (p ∷ ps) h =
    ground (arith, direction_cases p, others-AllSide side opposite ps h)

scan_side_iff :
    (side opposite : Text) (ps : List Position)
    → ((side ≡ buy) × (opposite ≡ sell)) ⊎ ((side ≡ sell) × (opposite ≡ buy))
    → (scan_directions opposite ps 0 ≡ permitted) ↔ AllSide side ps
scan_side_iff side opposite ps h =
    ground (arith, scan_directions_iff opposite ps 0, others-AllSide side opposite ps h)

opposite_literals : (opposite_direction buy ≡ sell) × (opposite_direction sell ≡ buy)
unfolding opposite_direction text_eq upper strip
opposite_literals = (refl, refl)

opposite-sides :
    (side : Text)
    → is_side side ≡ true
    → ((side ≡ buy) × (opposite_direction side ≡ sell))
      ⊎ ((side ≡ sell) × (opposite_direction side ≡ buy))
opposite-sides side h =
    ground (arith, text_eq_iff side buy, text_eq_iff side sell, opposite_literals)

-- Unless hedging is allowed, the one-way guard permits a candidate exactly if it is BUY or SELL and
-- every open position has its direction; so a position of unknown direction blocks too.
pub one_way_entry_allowed_iff :
    (ps : List Position) (candidate : Text)
    → (one_way_entry_allowed ps candidate false ≡ permitted)
      ↔ ((is_side (normalized candidate) ≡ true) × AllSide (normalized candidate) ps)
unfolding one_way_entry_allowed
one_way_entry_allowed_iff ps candidate = elim (Bool-cases (is_side (normalized candidate))) [
  | inl side ↦
      let sides = opposite-sides (normalized candidate) side in
      ground (
        arith,
        scan_side_iff (normalized candidate) (opposite_direction (normalized candidate)) ps sides,
      )
  | inr other ↦ ground arith
]

any-false_iff :
    (f : Position → Bool) (ps : List Position)
    → (any (λ p. not (f p)) ps ≡ false) ↔ All (λ p. f p ≡ true) ps
any-false_iff f [] = ground arith
any-false_iff f (p ∷ ps) = ground (arith, any-false_iff f ps)

-- Capacity is there exactly if fewer positions than the maximum are open, the active slot is
-- claimed, and every open position carries the robot's current tag.
pub available_for_strategy_slots_iff :
    (ps : List Position) (slots : List Slot) (max_open : ℕ)
    → (available_for_strategy_slots ps slots max_open ≡ available) ↔ (
        (length ps < max_open)
        × (any is_active slots ≡ true)
        × All (λ p. is_current_active_position p ≡ true) ps)
unfolding available_for_strategy_slots
available_for_strategy_slots_iff ps slots max_open =
    ground (arith, any-false_iff is_current_active_position ps)

-- The book of one symbol, with the setting ALLOW_HEDGED_POSITIONS: an entry passes both guards and
-- adds a position of its direction, and the broker may close any position.
pub data Step (max_open : ℕ) (allow_hedged : Bool) : List Position → List Position → Type 0 where
  enter :
      (ps : List Position) (p : Position) (candidate : Text) (slots : List Slot)
      → one_way_entry_allowed ps candidate allow_hedged ≡ permitted
      → available_for_strategy_slots ps slots max_open ≡ available
      → normalized_direction p ≡ normalized candidate
      → Step max_open allow_hedged ps (p ∷ ps)
  close :
      (before after : List Position) (p : Position)
      → Step max_open allow_hedged (before ++ (p ∷ after)) (before ++ after)

pub data Reach (max_open : ℕ) (allow_hedged : Bool) : List Position → Type 0 where
  start : Reach max_open allow_hedged []
  next :
      {ps qs : List Position}
      → Reach max_open allow_hedged ps
      → Step max_open allow_hedged ps qs
      → Reach max_open allow_hedged qs

pub record IsOneSided (max_open : ℕ) (ps : List Position) : Type 0 where
  pub bounded : length ps ≤ max_open
  pub one_side : (side : Text) × AllSide side ps

AllSide-remove :
    (side : Text) (before after : List Position) (p : Position)
    → AllSide side (before ++ (p ∷ after))
    → AllSide side (before ++ after)
AllSide-remove side [] after p h = h.1
AllSide-remove side (q ∷ before) after p h = (h.0, AllSide-remove side before after p h.1)

Step-IsOneSided :
    {max_open : ℕ} {allow_hedged : Bool} {ps qs : List Position}
    → allow_hedged ≡ false
    → Step max_open allow_hedged ps qs
    → IsOneSided max_open ps
    → IsOneSided max_open qs
Step-IsOneSided {max_open} off (enter ps p candidate slots one capacity same) v =
    let guard = subst (λ b. one_way_entry_allowed ps candidate b ≡ permitted) off one in
    record {
      bounded = omega (arith, ((available_for_strategy_slots_iff ps slots max_open).0 capacity).0);
      one_side =
          (normalized candidate, (same, ((one_way_entry_allowed_iff ps candidate).0 guard).1));
    }
Step-IsOneSided {max_open} off (close before after p) v = record {
  bounded =
      omega
        (arith, v.bounded, length-append {0} before (p ∷ after), length-append {0} before after);
  one_side = (v.one_side.0, AllSide-remove v.one_side.0 before after p v.one_side.1);
}

-- Where ALLOW_HEDGED_POSITIONS is off, as it is unless the environment turns it on: from an empty book,
-- whatever entries pass the two guards and whatever positions close, there are never more positions
-- than the maximum, and all have one direction. With hedging on the guard lets both directions in.
pub Reach-IsOneSided :
    {max_open : ℕ} {allow_hedged : Bool} {ps : List Position}
    → allow_hedged ≡ false
    → Reach max_open allow_hedged ps
    → IsOneSided max_open ps
Reach-IsOneSided off start = record { bounded = omega arith; one_side = (buy, tt) }
Reach-IsOneSided off (next r st) = Step-IsOneSided off st (Reach-IsOneSided off r)
