-- ===== src/Tests/Entry.antt =====
-- The entry rules on concrete decisions, positions and quotes.
use scalp_tn_aaa.Base.{◌≡◌, ◌≢◌, refl, ◌↔◌, true, false, none, some, [], ◌∷◌, arith}
use scalp_tn_aaa.Base.Int.{ℤ, pos, ◌-ℤ◌}
use scalp_tn_aaa.Base.Text.{Text, codes, text_eq, upper, lower, strip}
use scalp_tn_aaa.Float.Fixed.{fixed}
use scalp_tn_aaa.Entry.Policy.{
  Decision, PriceAction, permitted, buy, normalized, evaluate_active_entry, evaluate_confirmation,
  pa_standalone_confirmed, has_structural_confirmation, trend_direction,
}
use scalp_tn_aaa.Entry.Policy.Laws.{IsPermitted, evaluate_active_entry_iff}
use scalp_tn_aaa.Entry.Slots.{
  Position, active, one_way_entry_allowed, available_for_strategy_slots, is_current_active_position,
  strategy_slots_from_position, strategy_order_comment, position_comment, normalized_direction,
  opposite_direction, scan_directions,
}
use scalp_tn_aaa.Entry.Slots.Tags.{IsPlain, order_comment_round_trip}
use scalp_tn_aaa.Entry.Slots.OneSide.{Reach, Step, IsOneSided, Reach-IsOneSided}
use scalp_tn_aaa.Entry.Signal.{entry_signal_comment}
use scalp_tn_aaa.Entry.Guard.{validate_entry_price_distance, compare_distance}

-- A bearish structural breakout against a bullish trend.
abbrev bear_breakout : PriceAction
bear_breakout = record {
  pa_signal = codes "SELL";
  valid_bull_breakout = false;
  bullish_inside_breakout = false;
  bullish_pullback = false;
  valid_bear_breakout = true;
  bearish_inside_breakout = false;
  bearish_pullback = false;
}

abbrev counter_trend : Decision ℤ
counter_trend = record {
  allowed = true;
  regime = codes "range";
  direction = codes " sell ";
  trend = some (codes "Bullish");
  entry_filter = some (record { trend = false; price_action = true });
  pa = some bear_breakout;
  adx = some (pos 50_000_000_000);
}

evaluate_counter_trend :
    evaluate_active_entry counter_trend (codes "xauusd") (codes "5M") ≡ permitted
unfolding evaluate_active_entry evaluate_confirmation pa_standalone_confirmed
    has_structural_confirmation trend_direction text_eq upper lower strip
evaluate_counter_trend = refl

evaluate_active_entry_iff_example :
    (evaluate_active_entry counter_trend (codes "xauusd") (codes "5M") ≡ permitted)
    ↔ IsPermitted counter_trend (codes "xauusd") (codes "5M")
evaluate_active_entry_iff_example =
    evaluate_active_entry_iff counter_trend (codes "xauusd") (codes "5M")

against_trend : trend_direction counter_trend.trend ≢ normalized counter_trend.direction
unfolding trend_direction text_eq upper strip
against_trend e = ground arith

-- A digest of ten characters, in place of the hash.
abbrev digest : Text → Text
digest _ = codes "0123456789"

abbrev base_comment : Text
base_comment = codes "XAU Robot"

abbrev order_comment : Text
order_comment =
    entry_signal_comment digest (strategy_order_comment base_comment (active ∷ [])) (codes "id")

abbrev own_position : Position
own_position = record {
  type = some (codes "BUY");
  direction = none;
  comment = order_comment;
  raw_comment = none;
}

abbrev foreign_position : Position
foreign_position = record {
  type = none;
  direction = some (codes "buy");
  comment = [];
  raw_comment = some (codes "manual");
}

base_comment-IsPlain : IsPlain base_comment
base_comment-IsPlain = record { no_bar = ground arith; no_tag = refl }

position_comment-own : position_comment own_position ≡ order_comment
unfolding position_comment
position_comment-own = refl

order_comment_round_trip_example :
    (is_current_active_position own_position ≡ true)
    × (strategy_slots_from_position own_position ≡ active ∷ [])
order_comment_round_trip_example =
    order_comment_round_trip digest (λ _. refl) base_comment (codes "id") own_position
      base_comment-IsPlain (omega arith) position_comment-own

-- One entry into an empty book, and one more of the same direction.
first_entry : Reach 2 false (own_position ∷ [])
unfolding one_way_entry_allowed opposite_direction scan_directions available_for_strategy_slots
    normalized_direction text_eq upper strip
first_entry =
    Reach.next Reach.start (Step.enter [] own_position (codes "Buy") (active ∷ []) refl refl refl)

Reach-IsOneSided_example : IsOneSided 2 (own_position ∷ [])
Reach-IsOneSided_example = Reach-IsOneSided refl first_entry

-- Quotes of 2400.00 and 2400.50 with an ATR of 2 and a limit of 0.35.
abbrev quote : ℤ
quote = pos 2_400_000_000_000

abbrev moved_quote : ℤ
moved_quote = pos 2_400_500_000_000

abbrev two : ℤ
two = pos 2_000_000_000

abbrev narrow : ℤ
narrow = pos 350_000_000

abbrev wide : ℤ
wide = pos 800_000_000

quote_allowed : (validate_entry_price_distance buy quote moved_quote two narrow).allowed ≡ true
unfolding validate_entry_price_distance compare_distance text_eq upper strip ◌-ℤ◌
quote_allowed = refl
