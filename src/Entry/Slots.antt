-- ===== src/Entry/Slots.antt =====
-- live_trading/trading/strategy_slots.py. A frozenset of slots is a list, and a result carries the
-- branch that was taken in place of its message. A broker position is what these functions read.
pub mod Tags
pub mod OneSide
use scalp_tn_aaa.Base.{
  ℕ, ◌+◌, ◌≤◌, Bool, true, false, not, ◌&&◌, ◌||◌, Option, none, some, List, [], ◌∷◌, ◌++◌, map,
  any, if◌then◌else◌, is_none, is_some, leb, ltb, ◌==◌, length, take,
}
use scalp_tn_aaa.Base.Text.{Text, codes, text_eq, starts_with, upper, strip, or_else, is_empty}
use scalp_tn_aaa.Entry.Policy.{EntryFilter, buy, sell, is_side, normalized}

pub data Slot : Type 0 where
  active smc trend price_action wyckoff : Slot

abbrev pub strategy_slots : List Slot
strategy_slots = active ∷ smc ∷ trend ∷ price_action ∷ wyckoff ∷ []

-- `_SLOT_CODES`
abbrev pub slot_code : Slot → Text
slot_code active = codes "XVTB"
slot_code smc = codes "SMC"
slot_code trend = codes "TRD"
slot_code price_action = codes "PA"
slot_code wyckoff = codes "WYC"

abbrev pub is_active : Slot → Bool
is_active active = true
is_active _ = false

-- `type` and `direction` are absent, or the text of `value or ""`; `comment` is the text of
-- `value or ""`, and so is `raw_comment` where `_raw` is a mapping.
pub record Position : Type 0 where
  pub type : Option Text
  pub direction : Option Text
  pub comment : Text
  pub raw_comment : Option Text

abbrev pub unknown : Text
unknown = codes "UNKNOWN"

abbrev pub first_given : Option Text → Option Text → Text
first_given (some a) b = a
first_given none (some b) = b
first_given none none = []

unfoldable pub normalized_direction : Position → Text
normalized_direction position =
    let direction = normalized (first_given position.type position.direction) in
    if is_side direction then direction else unknown

unfoldable pub opposite_direction : Text → Text
opposite_direction direction =
    if text_eq (normalized direction) buy
    then sell
    else if text_eq (normalized direction) sell
    then buy
    else unknown

pub data OneWay : Type 0 where
  permitted : OneWay
  invalid_candidate opposite_open unknown_open : OneWay

-- The loop over the positions, with the number of unknown directions so far.
unfoldable pub scan_directions : Text → List Position → ℕ → OneWay
scan_directions opposite [] count = if leb 1 count then unknown_open else permitted
scan_directions opposite (p ∷ ps) count =
    let direction = normalized_direction p in
    let rest =
      scan_directions opposite ps (if text_eq direction unknown then count + 1 else count) in
    if text_eq direction opposite then opposite_open else rest

unfoldable pub one_way_entry_allowed : List Position → Text → Bool → OneWay
one_way_entry_allowed positions candidate_direction allow_hedged =
    let candidate = normalized candidate_direction in
    if allow_hedged
    then permitted
    else if not (is_side candidate)
    then invalid_candidate
    else scan_directions (opposite_direction candidate) positions 0

unfoldable pub strategy_slots_for_decision : Option EntryFilter → List Slot
strategy_slots_for_decision none = []
strategy_slots_for_decision (some f) = if f.trend || f.price_action then active ∷ [] else []

abbrev pub broker_comment_limit : ℕ
broker_comment_limit = 32

-- The codes of the active slots, each as often as it is given.
abbrev pub active_codes : List Slot → List Text
active_codes [] = []
active_codes (s ∷ ss) = if is_active s then slot_code s ∷ active_codes ss else active_codes ss

-- `','.join(parts)`
abbrev pub join_commas : List Text → Text
join_commas [] = []
join_commas (a ∷ []) = a
join_commas (a ∷ b ∷ rest) = a ++ (b',' ∷ join_commas (b ∷ rest))

abbrev pub tagged : Text → List Text → Text
tagged base [] = base
tagged base (c ∷ cs) = base ++ (codes "|S=" ++ join_commas (c ∷ cs))

unfoldable pub strategy_order_comment : Text → List Slot → Text
strategy_order_comment base slots = take broker_comment_limit (tagged base (active_codes slots))

-- The regular expression `(?:^|\|)S=([A-Z,]+)(?:\||$)`. A shorter run than the longest cannot match,
-- since the character behind it would be one of the run; `$` also matches before a last newline.
abbrev pub is_tag_char : ℕ → Bool
is_tag_char c = (leb b'A' c && leb c b'Z') || c == b','

abbrev pub tag_run : Text → Text
tag_run [] = []
tag_run (c ∷ t) = if is_tag_char c then c ∷ tag_run t else []

abbrev pub after_run : Text → Text
after_run [] = []
after_run (c ∷ t) = if is_tag_char c then after_run t else c ∷ t

abbrev pub ends_tag : Text → Bool
ends_tag [] = true
ends_tag (c ∷ []) = c == b'|' || c == 10
ends_tag (c ∷ d ∷ t) = c == b'|'

abbrev pub match_run : Text → Option Text
match_run t =
    if not (is_empty (tag_run t)) && ends_tag (after_run t) then some (tag_run t) else none

-- A match whose first group matched just before the text.
abbrev pub match_tag : Text → Option Text
match_tag (c ∷ d ∷ t) = if c == b'S' && d == b'=' then match_run t else none
match_tag _ = none

abbrev pub first_match : Option Text → Option Text → Option Text
first_match (some g) later = some g
first_match none later = later

unfoldable pub search_bars : Text → Option Text
search_bars [] = none
search_bars (c ∷ t) = if c == b'|' then first_match (match_tag t) (search_bars t) else search_bars t

-- `_SLOT_PATTERN.search(comment)`, as the group of the leftmost match.
unfoldable pub search_slot_pattern : Text → Option Text
search_slot_pattern comment = first_match (match_tag comment) (search_bars comment)

-- `text.split(",")`
abbrev pub push_code : ℕ → List Text → List Text
push_code c [] = (c ∷ []) ∷ []
push_code c (w ∷ ws) = (c ∷ w) ∷ ws

abbrev pub split_commas : Text → List Text
split_commas [] = [] ∷ []
split_commas (c ∷ t) = if c == b',' then [] ∷ split_commas t else push_code c (split_commas t)

-- `code in _CODE_TO_SLOT`
abbrev pub is_slot_code : Text → Bool
is_slot_code code = any (λ s. text_eq code (slot_code s)) strategy_slots

-- The comment of the position, or of the raw position where that is empty.
unfoldable pub position_comment : Position → Text
position_comment position = elim position.raw_comment [
  | none ↦ position.comment
  | some raw ↦ or_else position.comment raw
]

abbrev pub slots_of_tag : Option Text → List Slot
slots_of_tag none = strategy_slots
slots_of_tag (some g) = if any is_slot_code (split_commas g) then active ∷ [] else strategy_slots

unfoldable pub strategy_slots_from_position : Position → List Slot
strategy_slots_from_position position =
    slots_of_tag (search_slot_pattern (position_comment position))

-- `occupied.update(...)` for each position: the union, as a list.
unfoldable pub occupied_strategy_slots : List Position → List Slot
occupied_strategy_slots [] = []
occupied_strategy_slots (p ∷ ps) = strategy_slots_from_position p ++ occupied_strategy_slots ps

abbrev pub is_active_tag : Option Text → Bool
is_active_tag none = false
is_active_tag (some g) = text_eq g (slot_code active)

unfoldable pub is_current_active_position : Position → Bool
is_current_active_position position =
    is_active_tag (search_slot_pattern (position_comment position))

pub data Capacity : Type 0 where
  available : Capacity
  full no_slot legacy_open : Capacity

unfoldable pub available_for_strategy_slots : List Position → List Slot → ℕ → Capacity
available_for_strategy_slots positions candidates max_open =
    if leb max_open (length positions)
    then full
    else if not (any is_active candidates)
    then no_slot
    else if any (λ p. not (is_current_active_position p)) positions
    then legacy_open
    else available
