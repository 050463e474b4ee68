-- ===== src/Entry/Policy/Laws.antt =====
-- What the active entry policy permits and refuses.
use scalp_tn_aaa.Base.{
  ◌≡◌, ◌≢◌, ◌↔◌, ◌⊎◌, true, false, none, some, any, arith, inl, inr, Option-cases,
}
use scalp_tn_aaa.Base.Text.{Text, text_eq, text_eq_iff, lower, strip}
use scalp_tn_aaa.Float.{Float}
use scalp_tn_aaa.Entry.Policy.{
  Decision, permitted, evaluate_active_entry, evaluate_confirmation, pa_standalone_confirmed,
  has_structural_confirmation, trend_direction, normalized, is_side, active_entry_symbol,
  active_entry_timeframe, regimes, buy, sell, neutral, filter_trend, filter_price_action,
  pa_direction, strong_trend_validation_reason, strong_trend_direction, strong_adx_trend_threshold,
  check_strong_trend,
}

is_side_iff :
    (direction : Text) → (is_side direction ≡ true) ↔ ((direction ≡ buy) ⊎ (direction ≡ sell))
is_side_iff direction = ground (arith, text_eq_iff direction buy, text_eq_iff direction sell)

module _ {F : Type 0} ⦃fl : Float F⦄ where
  -- One of the two engines authorises the direction: Trend, agreeing with it, or Price Action alone
  -- with a structural event.
  pub record IsAuthorised (d : Decision F) (direction : Text) : Type 0 where
    pub engine :
        ((filter_trend d.entry_filter ≡ true) × (trend_direction d.trend ≡ direction))
        ⊎ ((filter_trend d.entry_filter ≡ false)
            × (filter_price_action d.entry_filter ≡ true)
            × (pa_direction d.pa ≡ direction)
            × (has_structural_confirmation d.pa direction ≡ true))

  evaluate_confirmation_iff :
      (d : Decision F) (direction : Text)
      → (evaluate_confirmation d direction ≡ permitted) ↔ IsAuthorised d direction
  unfolding evaluate_confirmation pa_standalone_confirmed
  evaluate_confirmation_iff d direction = ground (
    arith,
    text_eq_iff (trend_direction d.trend) direction,
    text_eq_iff direction (pa_direction d.pa),
  )

  -- Everything that a permitted entry needs.
  pub record IsPermitted (d : Decision F) (symbol timeframe : Text) : Type 0 where
    pub gold : normalized symbol ≡ active_entry_symbol
    pub five_minutes : lower (strip timeframe) ≡ active_entry_timeframe
    pub approved : d.allowed ≡ true
    pub known_regime : any (text_eq (normalized d.regime)) regimes ≡ true
    pub side : (normalized d.direction ≡ buy) ⊎ (normalized d.direction ≡ sell)
    pub authorised : IsAuthorised d (normalized d.direction)

  -- An entry is permitted exactly when symbol, timeframe, approval, regime and direction pass and
  -- an engine authorises the direction: Trend with a trend in that direction, or Price Action
  -- alone, on the same direction and with a structural event.
  pub evaluate_active_entry_iff :
      (d : Decision F) (symbol timeframe : Text)
      → (evaluate_active_entry d symbol timeframe ≡ permitted) ↔ IsPermitted d symbol timeframe
  unfolding evaluate_active_entry
  evaluate_active_entry_iff d symbol timeframe = ground (
    arith,
    text_eq_iff (normalized symbol) active_entry_symbol,
    text_eq_iff (lower (strip timeframe)) active_entry_timeframe,
    is_side_iff (normalized d.direction),
    evaluate_confirmation_iff d (normalized d.direction),
  )

  -- A permitted entry whose direction differs from the trend, a neutral trend included, comes from
  -- Price Action alone, with a structural event.
  pub counter_trend_is_structural :
      (d : Decision F) (symbol timeframe : Text)
      → evaluate_active_entry d symbol timeframe ≡ permitted
      → trend_direction d.trend ≢ normalized d.direction
      → (filter_trend d.entry_filter ≡ false)
        × (pa_direction d.pa ≡ normalized d.direction)
        × (has_structural_confirmation d.pa (normalized d.direction) ≡ true)
  counter_trend_is_structural d symbol timeframe e ne =
      let p = (evaluate_active_entry_iff d symbol timeframe).0 e in
      elim p.authorised.engine [ inl (_, same) ↦ absurd (ne same) | inr (a, _, b, c) ↦ (a, b, c) ]

  -- What the final validation of a strong regime lets pass: another regime, a readable ADX below
  -- the threshold, or a decision in the regime's direction that Trend or a structural Price Action
  -- event confirms.
  abbrev pub IsConfirmed : Decision F → Type 0
  IsConfirmed d =
      let expected = strong_trend_direction (normalized d.regime) in
      (expected ≡ neutral)
      ⊎ ((adx : F) × (d.adx ≡ some adx)
          × ((fl.lt adx strong_adx_trend_threshold ≡ true)
              ⊎ ((normalized d.direction ≡ expected)
                  × ((trend_direction d.trend ≡ expected)
                      ⊎ (has_structural_confirmation d.pa expected ≡ true)))))

  check_strong_trend_iff :
      (d : Decision F) (expected : Text) (adx : F)
      → (check_strong_trend d expected adx ≡ none) ↔ (
          (fl.lt adx strong_adx_trend_threshold ≡ true)
          ⊎ ((normalized d.direction ≡ expected)
              × ((trend_direction d.trend ≡ expected)
                  ⊎ (has_structural_confirmation d.pa expected ≡ true))))
  check_strong_trend_iff d expected adx = ground (
    arith,
    text_eq_iff (normalized d.direction) expected,
    text_eq_iff (trend_direction d.trend) expected,
  )

  -- The final validation reports no reason exactly for the decisions above; an ADX that cannot be
  -- read blocks every strong regime.
  pub strong_trend_validation_reason_iff :
      (d : Decision F) → (strong_trend_validation_reason d ≡ none) ↔ IsConfirmed d
  unfolding strong_trend_validation_reason
  strong_trend_validation_reason_iff d =
      let expected = strong_trend_direction (normalized d.regime) in
      elim (Option-cases d.adx) [
        | inl e ↦ ground (arith, text_eq_iff expected neutral)
        | inr (adx, e) ↦
            ground (arith, text_eq_iff expected neutral, check_strong_trend_iff d expected adx)
      ]
