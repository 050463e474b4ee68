-- ===== src/Signals/Filter.antt =====
-- live_trading/signals/entry_filter.py: which engine's direction is taken, and whether it is allowed.
-- The arguments that the function ignores are left out; a score that `float` rejects is `none`, and
-- `pa_min` is the setting PA_STANDALONE_MIN_SCORE.
pub mod Laws
pub mod Confirmed
use scalp_tn_aaa.Base.{
  ℕ, ◌+◌, Bool, true, false, not, ◌&&◌, ◌||◌, Option, none, some, if◌then◌else◌, leb, ltb,
}
use scalp_tn_aaa.Base.Int.{ℤ, pos, negsuc}
use scalp_tn_aaa.Base.Text.{Text, codes, text_eq}
use scalp_tn_aaa.Float.{Float, nought, ge, max, min}
use scalp_tn_aaa.Entry.Policy.{buy, sell, neutral, is_side}

pub record FilterInput (F : Type 0) : Type 0 where
  pub smc_signal : Text
  pub ema_trend : Text
  pub pa_signal : Text
  pub wyckoff_signal : Text
  pub min_confirmations : ℤ
  pub price_action_standalone : Bool
  pub trend_score : Option F
  pub trend_standalone : Bool
  pub trend_standalone_min_score : F
  pub pa_score : Option F
  pub pa_standalone_min_score : F

pub record EntryFilterResult : Type 0 where
  pub allowed : Bool
  pub direction : Text
  pub confirmation_count : ℕ
  pub smc : Bool
  pub trend : Bool
  pub price_action : Bool
  pub wyckoff : Bool

unfoldable pub vote : Text → Text
vote value = if is_side value then value else neutral

-- The direction of an EMA trend.
unfoldable pub trend_vote : Text → Text
trend_vote ema_trend = vote (
    if text_eq ema_trend (codes "BULLISH")
    then buy
    else if text_eq ema_trend (codes "BEARISH")
    then sell
    else neutral)

-- `min(max(1, int(min_confirmations)), len(ENTRY_STRATEGIES))`
abbrev pub required_confirmations : ℤ → ℕ
required_confirmations (pos n) = if leb n 1 then 1 else 2
required_confirmations (negsuc n) = 1

abbrev pub count : Bool → ℕ
count b = if b then 1 else 0

abbrev pub blocked_entry : EntryFilterResult
blocked_entry = record {
  allowed = false;
  direction = neutral;
  confirmation_count = 0;
  smc = false;
  trend = false;
  price_action = false;
  wyckoff = false;
}

-- The direction, from whether the engines agree and which of them may decide alone; `strong` is the
-- one with the stronger margin.
abbrev pub pick : Bool → Bool → Bool → Text → Text → Text → Text
pick agree trend_ok pa_ok trend pa strong =
    if agree
    then trend
    else if trend_ok && not pa_ok
    then trend
    else if pa_ok && not trend_ok
    then pa
    else if trend_ok && pa_ok
    then strong
    else neutral

module _ {F : Type 0} ⦃fl : Float F⦄ where
  abbrev pub score_of : Option F → F
  score_of none = nought
  score_of (some x) = x

  -- A score on the side of the direction, at least `floor` from 0.
  abbrev pub is_aligned : Text → F → F → Bool
  is_aligned direction score floor =
      if text_eq direction buy then ge score floor else fl.le score (fl.neg floor)

  module _ (pa_min : F) where
    abbrev pub trend_floor : FilterInput F → F
    trend_floor i = max nought i.trend_standalone_min_score

    abbrev pub pa_floor : FilterInput F → F
    pa_floor i = min i.pa_standalone_min_score pa_min

    -- Trend alone may decide.
    abbrev pub trend_alone : Text → FilterInput F → Bool
    trend_alone trend i =
        i.trend_standalone
        && is_side trend
        && is_aligned trend (score_of i.trend_score) (trend_floor i)

    -- Price Action alone may decide.
    abbrev pub pa_alone : Text → FilterInput F → Bool
    pa_alone pa i = i.price_action_standalone && is_side pa && ge (score_of i.pa_score) (pa_floor i)

    -- The stronger margin wins.
    abbrev pub stronger : Text → Text → FilterInput F → Text
    stronger trend pa i =
        let trend_margin = fl.sub (fl.abs (score_of i.trend_score)) (trend_floor i) in
        let pa_margin = fl.sub (score_of i.pa_score) (pa_floor i) in
        if ge trend_margin (fl.mul pa_margin (fl.lit 100 1)) then trend else pa

    unfoldable pub select_independent_direction : Text → Text → FilterInput F → Text
    select_independent_direction trend_direction pa_direction i =
        let trend = vote trend_direction in
        let pa = vote pa_direction in
        pick (is_side trend && text_eq trend pa) (trend_alone trend i) (pa_alone pa i) trend pa
          (stronger trend pa i)

    -- The standalone paths of the filter itself.
    abbrev pub trend_standalone_ok : Text → Bool → FilterInput F → Bool
    trend_standalone_ok trend trend_ok i =
        i.trend_standalone
        && trend_ok
        && is_aligned trend (score_of i.trend_score) i.trend_standalone_min_score

    abbrev pub pa_standalone_ok : Bool → FilterInput F → Bool
    pa_standalone_ok pa_ok i =
        i.price_action_standalone && pa_ok && ge (score_of i.pa_score) (pa_floor i)

    abbrev pub is_allowed : ℕ → ℕ → Bool → Bool → Bool
    is_allowed votes required pa_ok trend_ok =
        (leb required votes && (ltb 1 votes || pa_ok || trend_ok)) || pa_ok || trend_ok

    -- The votes for a direction, and what they allow.
    unfoldable pub authorize : Text → Text → Text → FilterInput F → EntryFilterResult
    authorize trend pa direction i =
        let trend_ok = text_eq trend direction in
        let pa_ok = text_eq pa direction in
        let votes = count trend_ok + count pa_ok in
        let allowed =
          is_allowed votes (required_confirmations i.min_confirmations) (pa_standalone_ok pa_ok i)
            (trend_standalone_ok trend trend_ok i) in
        record {
          allowed = allowed;
          direction = if allowed then direction else neutral;
          confirmation_count = votes;
          smc = text_eq neutral direction;
          trend = trend_ok;
          price_action = pa_ok;
          wyckoff = text_eq neutral direction;
        }

    unfoldable pub apply_entry_filter : FilterInput F → EntryFilterResult
    apply_entry_filter i =
        let trend = trend_vote i.ema_trend in
        let pa = vote i.pa_signal in
        let direction = select_independent_direction trend pa i in
        if text_eq direction neutral then blocked_entry else authorize trend pa direction i
