-- ===== src/Signals/Mtf.antt =====
-- live_trading/signals/mtf_filter.py: the bias of the higher timeframe and its veto. The reasons are
-- left out; the bias has the fields that the veto and its callers decide on.
use mathlib.Core.Path.{subst}
use scalp_tn_aaa.Base.{
  ◌≡◌, ◌↔◌, refl, sym, some-injective, Bool, true, false, not, ◌&&◌, Option, none, some, arith,
  if◌then◌else◌, ◌⊎◌, inl, inr,
}
use scalp_tn_aaa.Base.Text.{Text, text_eq, text_eq_iff, upper}
use scalp_tn_aaa.Float.{Float, ◌≼◌, nought, ge, max, min}
use scalp_tn_aaa.Entry.Policy.{buy, sell, neutral, is_side}
use scalp_tn_aaa.Signals.Regime.{Side, bullish, bearish, neutral_side, Strength, weak}

pub record MtfBias (F : Type 0) : Type 0 where
  pub direction : Text
  pub trend : Side
  pub strength : Strength
  pub trend_score : F

pub record MtfOppositionCheck (F : Type 0) : Type 0 where
  pub candidate : Text
  pub htf_trend : Text
  pub opposition_strength : F
  pub threshold : F
  pub would_block : Bool

-- "BUY" for a bullish trend, "SELL" for a bearish one.
unfoldable pub side_text : Side → Text
side_text bullish = buy
side_text bearish = sell
side_text neutral_side = neutral

abbrev pub bias_strength : Side → Strength → Strength
bias_strength neutral_side strength = weak
bias_strength bullish strength = strength
bias_strength bearish strength = strength

-- Two sides, and not the same one.
unfoldable pub are_opposite : Text → Text → Bool
are_opposite candidate htf = is_side candidate && is_side htf && not (text_eq candidate htf)

sides_opposite :
    (are_opposite buy sell ≡ true)
    × (are_opposite sell buy ≡ true)
    × (text_eq buy sell ≡ false)
    × (text_eq sell buy ≡ false)
unfolding are_opposite text_eq
sides_opposite = (refl, refl, refl, refl)

opposite_of_buy : (c : Text) → are_opposite c buy ≡ true → c ≡ sell
unfolding are_opposite
opposite_of_buy c h = ground (arith, text_eq_iff c buy, text_eq_iff c sell)

opposite_of_sell : (c : Text) → are_opposite c sell ≡ true → c ≡ buy
unfolding are_opposite
opposite_of_sell c h = ground (arith, text_eq_iff c buy, text_eq_iff c sell)

opposite_of_neutral : (c : Text) → are_opposite c neutral ≡ false
unfolding are_opposite text_eq
opposite_of_neutral c = ground arith

are_opposite_iff :
    (side : Side) (c : Text)
    → (are_opposite c (side_text side) ≡ true)
      ↔ (((c ≡ buy) × (side ≡ bearish)) ⊎ ((c ≡ sell) × (side ≡ bullish)))
unfolding side_text
are_opposite_iff bullish c = (
  λ h. inr (opposite_of_buy c h, refl),
  λ h. elim h [ inl (_, e) ↦ absurd (ground arith) | inr (e, _) ↦ rw e sides_opposite.1 ],
)
are_opposite_iff bearish c = (
  λ h. inl (opposite_of_sell c h, refl),
  λ h. elim h [ inl (e, _) ↦ rw e sides_opposite.0 | inr (_, e) ↦ absurd (ground arith) ],
)
are_opposite_iff neutral_side c =
    (λ h. absurd (ground (arith, opposite_of_neutral c)), λ h. absurd (ground arith))

module _ {F : Type 0} ⦃fl : Float F⦄ where
  -- The end of `compute_mtf_bias`, from the Trend Engine's result.
  abbrev pub combined_bias : Side → Strength → F → MtfBias F
  combined_bias trend strength score = record {
    direction = side_text trend;
    trend = trend;
    strength = bias_strength trend strength;
    trend_score = score;
  }

  abbrev pub htf_trend_of : Option (MtfBias F) → Text
  htf_trend_of none = neutral
  htf_trend_of (some b) = side_text b.trend

  -- `max(0.0, min(100.0, x))`
  abbrev pub percent : F → F
  percent x = max nought (min (fl.lit 100 1) x)

  abbrev pub measured : Option (MtfBias F) → F
  measured none = nought
  measured (some b) = fl.round 1 (percent (fl.abs b.trend_score))

  unfoldable pub evaluate_mtf_opposition : Option (MtfBias F) → Text → F → MtfOppositionCheck F
  evaluate_mtf_opposition bias candidate opposition_threshold =
      let side = upper candidate in
      let htf = htf_trend_of bias in
      let threshold = percent opposition_threshold in
      let opposite = are_opposite side htf in
      let strength = if opposite then measured bias else nought in
      record {
        candidate = side;
        htf_trend = htf;
        opposition_strength = strength;
        threshold = threshold;
        would_block = opposite && ge strength threshold;
      }

  unfoldable pub mtf_allows_trade : Option (MtfBias F) → Text → F → Bool
  mtf_allows_trade bias direction opposition_threshold =
      not (evaluate_mtf_opposition bias direction opposition_threshold).would_block

  -- The veto falls exactly on a candidate that is a side, against a trend of the higher timeframe
  -- that is the other side, whose score has at least the size of the threshold, both cut to at
  -- most 100 and the score's rounded to one place; a missing or a neutral bias never vetoes.
  pub mtf_allows_trade_iff :
      (bias : Option (MtfBias F)) (direction : Text) (opposition_threshold : F)
      → (mtf_allows_trade bias direction opposition_threshold ≡ false) ↔ (
          (b : MtfBias F) × (bias ≡ some b)
          × (((upper direction ≡ buy) × (b.trend ≡ bearish))
              ⊎ ((upper direction ≡ sell) × (b.trend ≡ bullish)))
          × (percent opposition_threshold ≼ fl.round 1 (percent (fl.abs b.trend_score))))
  unfolding mtf_allows_trade evaluate_mtf_opposition
  mtf_allows_trade_iff none direction t = (
    λ h. absurd (ground (arith, opposite_of_neutral (upper direction))),
    λ (b, e, _, _). absurd (ground arith),
  )
  mtf_allows_trade_iff (some b) direction t = (
    λ h. (b, refl, ground (arith, are_opposite_iff b.trend (upper direction)), ground arith),
    λ (b', e, opposed, high).
        let same : b ≡ b' = some-injective e in
        let opp = (are_opposite_iff b'.trend (upper direction)).1 opposed in
        subst (λ x. mtf_allows_trade (some x) direction t ≡ false) (sym same) (rw (opp, high) refl),
  )
