-- ===== src/Entry/Signal.antt =====
-- live_trading/trading/entry_signal.py. The hash is the parameter `digest`, which gives the ten
-- hexadecimal characters of a five-byte BLAKE2s digest.
pub mod Laws
use scalp_tn_aaa.Base.{
  ℕ, zero, suc, ◌+◌, ◌-◌, ◌*◌, ◌≡◌, Bool, true, false, not, ◌&&◌, ◌||◌, List, [], ◌∷◌, ◌++◌,
  if◌then◌else◌, leb, ◌==◌, length, take,
}
use scalp_tn_aaa.Base.Text.{Text, codes, upper, lower, strip, is_empty, lower_code}

abbrev pub broker_comment_limit : ℕ
broker_comment_limit = 32

abbrev pub signal_tag_prefix : Text
signal_tag_prefix = codes "|B="

module _ (digest : Text → Text) where
  unfoldable pub entry_signal_tag : Text → Text
  entry_signal_tag signal_id = signal_tag_prefix ++ digest signal_id

  unfoldable pub entry_signal_comment : Text → Text → Text
  entry_signal_comment base_comment signal_id =
      let tag = entry_signal_tag signal_id in
      take (broker_comment_limit - length tag) base_comment ++ tag

-- The letters m, h and d in either case.
unfoldable pub is_unit : ℕ → Bool
unfolding lower_code
is_unit c = let l = lower_code c in l == b'm' || l == b'h' || l == b'd'

abbrev pub is_digit : ℕ → Bool
is_digit c = leb b'0' c && leb c b'9'

abbrev pub all_digits : Text → Bool
all_digits [] = true
all_digits (c ∷ s) = is_digit c && all_digits s

-- `str(int(s))` of a text of digits: the leading zeros go, and the last digit stays.
abbrev pub canonical_number : Text → Text
canonical_number [] = []
canonical_number (c ∷ []) = c ∷ []
canonical_number (c ∷ d ∷ s) = if c == b'0' then canonical_number (d ∷ s) else c ∷ d ∷ s

-- `_TIMEFRAME_PREFIX`: a unit, then digits.
abbrev pub prefix_form : Text → Bool
prefix_form [] = false
prefix_form (u ∷ ds) = is_unit u && not (is_empty ds) && all_digits ds

-- `_TIMEFRAME_SUFFIX`: digits, then a unit; `rest` is behind the first digit.
abbrev pub suffix_rest : Text → Bool
suffix_rest [] = false
suffix_rest (u ∷ []) = is_unit u
suffix_rest (c ∷ d ∷ s) = is_digit c && suffix_rest (d ∷ s)

abbrev pub suffix_form : Text → Bool
suffix_form [] = false
suffix_form (c ∷ s) = is_digit c && suffix_rest s

-- The digits of a text in the suffix form, and its unit.
abbrev pub suffix_digits : Text → Text
suffix_digits [] = []
suffix_digits (u ∷ []) = []
suffix_digits (c ∷ d ∷ s) = c ∷ suffix_digits (d ∷ s)

abbrev pub suffix_unit : Text → Text
suffix_unit [] = []
suffix_unit (u ∷ []) = u ∷ []
suffix_unit (c ∷ d ∷ s) = suffix_unit (d ∷ s)

abbrev pub canonical_prefix : Text → Text
canonical_prefix [] = []
canonical_prefix (u ∷ ds) = canonical_number ds ++ (lower_code u ∷ [])

unfoldable pub canonical_timeframe : Text → Text
canonical_timeframe timeframe =
    let value = strip timeframe in
    if prefix_form value
    then canonical_prefix value
    else if suffix_form value
    then canonical_number (suffix_digits value) ++ lower (suffix_unit value)
    else lower value

-- `timestamp` is the bar time in UTC, as ISO text to the second.
unfoldable pub entry_signal_id : Text → Text → Text → Text
entry_signal_id symbol timeframe timestamp =
    upper (strip symbol) ++ (b'|' ∷ (canonical_timeframe timeframe ++ (b'|' ∷ timestamp)))
