-- ===== src/Entry/Slots/Tags.antt =====
-- The tag in the broker's comment: what is written is read back, and what is not read as the
-- robot's own tag stays closed.
use mathlib.Core.List.{append_assoc}
use scalp_tn_aaa.Base.{
  ℕ, zero, suc, ◌≤◌, ◌≡◌, ◌≢◌, refl, Bool, true, false, none, some, [], ◌∷◌, ◌++◌, take, length,
  arith, All, any, ap, ◌⊎◌, Option-cases, inl, inr, ◌∙◌, length-append, ◌&&◌, ◌==◌,
}
use scalp_tn_aaa.Base.Text.{Text, codes, text_eq, text_eq_iff}
use scalp_tn_aaa.Entry.Slots.{
  Position, active, strategy_order_comment, search_slot_pattern, search_bars, match_tag,
  is_current_active_position, strategy_slots_from_position, position_comment, is_active,
  slots_of_tag,
}
use scalp_tn_aaa.Entry.Signal.{entry_signal_comment, entry_signal_tag}
use scalp_tn_aaa.Entry.Signal.Laws.{entry_signal_comment_fits}

abbrev tag : Text
tag = codes "|S=XVTB"

-- A base comment with no bar in it that does not begin with `S=` itself.
abbrev pub begins_tag : Text → Bool
begins_tag (c ∷ d ∷ t) = c == b'S' && d == b'='
begins_tag _ = false

pub record IsPlain (base : Text) : Type 0 where
  pub no_bar : All (λ c. c ≢ b'|') base
  pub no_tag : begins_tag base ≡ false

search_bars-append :
    (base rest : Text)
    → All (λ c. c ≢ b'|') base
    → search_bars (base ++ (b'|' ∷ rest)) ≡ search_bars (b'|' ∷ rest)
unfolding search_bars
search_bars-append [] rest h = refl
search_bars-append (c ∷ base) rest h = ground (arith, search_bars-append base rest h.1)

match_tag-append :
    (base rest : Text) → begins_tag base ≡ false → match_tag (base ++ (b'|' ∷ rest)) ≡ none
match_tag-append [] [] h = refl
match_tag-append [] (d ∷ rest) h = refl
match_tag-append (c ∷ []) rest h = ground arith
match_tag-append (c ∷ d ∷ base) rest h = ground arith

search-append :
    (base rest : Text)
    → IsPlain base
    → search_slot_pattern (base ++ (b'|' ∷ rest)) ≡ search_bars (b'|' ∷ rest)
unfolding search_slot_pattern
search-append base rest h =
    rw (match_tag-append base rest h.no_tag, search_bars-append base rest h.no_bar)

take_all : (m : ℕ) (s : Text) → length s ≤ m → take m s ≡ s
take_all zero [] h = refl
take_all (suc m) [] h = refl
take_all zero (c ∷ s) h = absurd (omega arith)
take_all (suc m) (c ∷ s) h = ap (◌∷◌ c) (take_all m s (omega arith))

-- With a short base the order's comment is the base, the strategy's tag and the signal's tag.
order_comment_whole :
    (digest : Text → Text) (digest_length : (s : Text) → length (digest s) ≡ 10) (base id : Text)
    → length base ≤ 12
    → entry_signal_comment digest (strategy_order_comment base (active ∷ [])) id
      ≡ base ++ (tag ++ entry_signal_tag digest id)
unfolding strategy_order_comment
order_comment_whole digest digest_length base id h =
    let fits : length (base ++ tag) ≤ 19 = omega (arith, length-append {0} base tag) in
    (entry_signal_comment_fits digest digest_length (take 32 (base ++ tag)) id).1
    ∙ rw (take_all 32 (base ++ tag) (omega arith), take_all 19 (base ++ tag) fits)
        (append_assoc base tag (entry_signal_tag digest id))

-- A position opened with the order comment of a short, plain base comment is read back as the
-- robot's own: it may be scaled into, and it holds the active slot alone. This is so for every
-- signal and every hash.
pub order_comment_round_trip :
    (digest : Text → Text) (digest_length : (s : Text) → length (digest s) ≡ 10) (base id : Text)
    (p : Position)
    → IsPlain base
    → length base ≤ 12
    → position_comment p
      ≡ entry_signal_comment digest (strategy_order_comment base (active ∷ [])) id
    → (is_current_active_position p ≡ true) × (strategy_slots_from_position p ≡ active ∷ [])
unfolding is_current_active_position strategy_slots_from_position search_bars entry_signal_tag
    text_eq
order_comment_round_trip digest digest_length base id p plain short e =
    let found = search-append base (codes "S=XVTB" ++ entry_signal_tag digest id) plain in
    rw (e, order_comment_whole digest digest_length base id short, found) (refl, refl)

active_tag-slots : (g : Text) → g ≡ codes "XVTB" → slots_of_tag (some g) ≡ active ∷ []
unfolding text_eq
active_tag-slots g e = rw e refl

-- Whatever its comment, an open position holds the active slot, and one that is read as the robot's
-- own holds that slot alone.
pub slots_fail_closed :
    (p : Position)
    → (any is_active (strategy_slots_from_position p) ≡ true)
      × ((is_current_active_position p ≡ false) ⊎ (strategy_slots_from_position p ≡ active ∷ []))
unfolding is_current_active_position strategy_slots_from_position
slots_fail_closed p = elim (Option-cases (search_slot_pattern (position_comment p))) [
  | inl e ↦ ground arith
  | inr (g, e) ↦ ground (arith, text_eq_iff g (codes "XVTB"), active_tag-slots g)
]
