-- ===== src/Signals/Quality/Allowed.antt =====
-- live_trading/signals/quality_filter.py: what blocks a setup, and what does not.
use mathlib.Core.Path.{subst}
use scalp_tn_aaa.Base.{
  ℕ, ◌≤◌, ◌<◌, ◌≡◌, ◌↔◌, refl, sym, Bool, true, false, Option, none, some, List, ◌++◌, arith,
  if◌then◌else◌, ltb, length, last_at, some-injective,
}
use scalp_tn_aaa.Float.{Float}
use scalp_tn_aaa.Signals.Quality.{
  Ohlcv, QualityConfig, QualityFilterResult, too_few, is_blocked_session, session_of_hour,
  get_session_quality, bad_timestamp, severe_range, late_entry, low_momentum, low_confidence,
  reason_if, no_reasons, hour_of, adx_or_calc, severe, late, judge, apply_quality_filter,
}

session_is_open : (n : ℕ) → (is_blocked_session (session_of_hour n) ≡ false) ↔ (n < 24)
unfolding session_of_hour
session_is_open n = ground arith

get_session_quality-hour :
    (o : Option ℕ)
    → (is_blocked_session (get_session_quality o) ≡ false) ↔ ((h : ℕ) × (o ≡ some h) × (h < 24))
unfolding get_session_quality
get_session_quality-hour none = (λ h. absurd (ground arith), λ (_, e, _). absurd (ground arith))
get_session_quality-hour (some n) = (
  (λ h. (n, refl, (session_is_open n).0 h)),
  (λ (h, e, lt). (session_is_open n).1 (subst (λ k. k < 24) (sym (some-injective e)) lt)),
)

no_reasons_lem :
    (a b c d e : Bool)
    → (no_reasons (
          reason_if a bad_timestamp
          ++ reason_if b severe_range
          ++ reason_if c late_entry
          ++ reason_if d low_momentum
          ++ reason_if e low_confidence)
        ≡ true)
      ↔ ((a ≡ false) × (b ≡ false) × (c ≡ false) × (d ≡ false) × (e ≡ false))
no_reasons_lem false false false false false = ground arith
no_reasons_lem false false false false true = ground arith
no_reasons_lem false false false true e = ground arith
no_reasons_lem false false true d e = ground arith
no_reasons_lem false true c d e = ground arith
no_reasons_lem true b c d e = ground arith

module _ {F : Type 0} ⦃fl : Float F⦄ where
  judge-allowed :
      (sum : List F → F)
      → (cfg : QualityConfig F) → (candles : List (Ohlcv F)) → (confidence adx : F)
      → ((judge sum cfg candles confidence adx).allowed ≡ true) ↔ (
          (is_blocked_session (get_session_quality (hour_of (last_at 1 candles))) ≡ false)
          × (severe sum candles adx ≡ false)
          × (late sum candles ≡ false)
          × (fl.lt adx cfg.quality_adx_min ≡ false)
          × (fl.lt confidence cfg.conf_hard_min ≡ false))
  unfolding judge
  judge-allowed sum cfg candles confidence adx =
      no_reasons_lem (is_blocked_session (get_session_quality (hour_of (last_at 1 candles))))
        (severe sum candles adx) (late sum candles) (fl.lt adx cfg.quality_adx_min)
        (fl.lt confidence cfg.conf_hard_min)

  enough_candles :
      (n : ℕ)
      → (r : QualityFilterResult F)
      → ((if ltb n 30 then too_few else r).allowed ≡ true) ↔ ((30 ≤ n) × (r.allowed ≡ true))
  enough_candles n r = ground arith

  -- The quality filter lets a setup pass exactly when it sees at least thirty candles, the timestamp
  -- of the last one has an hour of the day, the range is not severely compressed, the entry is not
  -- late, the ADX (the caller's, or else the one computed from the candles) is not below its minimum,
  -- and the confidence is not below the hard minimum. The session's quality and the weak volume,
  -- which it reports too, never block.
  pub apply_quality_filter_iff :
      (sum : List F → F)
      → (cfg : QualityConfig F) → (candles : List (Ohlcv F)) → (confidence : F) → (adx : Option F)
      → ((apply_quality_filter sum cfg candles confidence adx).allowed ≡ true) ↔ (
          (30 ≤ length candles)
          × ((h : ℕ) × (hour_of (last_at 1 candles) ≡ some h) × (h < 24))
          × (severe sum candles (adx_or_calc sum candles adx) ≡ false)
          × (late sum candles ≡ false)
          × (fl.lt (adx_or_calc sum candles adx) cfg.quality_adx_min ≡ false)
          × (fl.lt confidence cfg.conf_hard_min ≡ false))
  unfolding apply_quality_filter
  apply_quality_filter_iff sum cfg candles confidence adx =
      let adx_val = adx_or_calc sum candles adx in
      let r = judge sum cfg candles confidence adx_val in
      let n = enough_candles (length candles) r in
      let j = judge-allowed sum cfg candles confidence adx_val in
      let g = get_session_quality-hour (hour_of (last_at 1 candles)) in
      (
        (λ h.
            let (enough, good) = n.0 h in
            let (hour, sev, lat, mom, prob) = j.0 good in (enough, g.0 hour, sev, lat, mom, prob)),
        (λ (enough, hour, sev, lat, mom, prob). n.1 (enough, j.1 (g.1 hour, sev, lat, mom, prob))),
      )
