-- ===== src/Signals/Filter/Laws.antt =====
-- The filter allows every direction that the selection finds, and the entry policy confirms what the
-- filter allows.
use scalp_tn_aaa.Base.{
  ℕ, ◌+◌, ◌≡◌, refl, sym, Bool, true, false, not, ◌&&◌, arith, ◌⊎◌, inl, inr, Bool-cases,
}
use scalp_tn_aaa.Base.Int.{ℤ, pos, negsuc}
use scalp_tn_aaa.Base.Text.{Text, text_eq, text_eq_iff, text_eq_refl}
use scalp_tn_aaa.Float.{Float, IsOrdered, IsMonotone, IsNumber, nought, max, le_max_right}
use scalp_tn_aaa.Entry.Policy.{neutral, is_side}
use scalp_tn_aaa.Signals.Filter.{
  FilterInput, vote, trend_vote, is_aligned, trend_alone, pa_alone, stronger, pick,
  select_independent_direction, authorize, apply_entry_filter, score_of, is_allowed,
  required_confirmations, count, pa_standalone_ok, trend_standalone_ok,
}

pick_cases :
    (agree trend_ok pa_ok : Bool) (trend pa strong : Text)
    → (strong ≡ trend) ⊎ (strong ≡ pa)
    → let d = pick agree trend_ok pa_ok trend pa strong in
      ((agree ≡ true) × (d ≡ trend))
      ⊎ ((trend_ok ≡ true) × (d ≡ trend))
      ⊎ ((pa_ok ≡ true) × (d ≡ pa))
      ⊎ (d ≡ neutral)
pick_cases true t p trend pa strong h = inl (refl, refl)
pick_cases false true false trend pa strong h = inr (inl (refl, refl))
pick_cases false false true trend pa strong h = inr (inr (inl (refl, refl)))
pick_cases false false false trend pa strong h = inr (inr (inr refl))
pick_cases false true true trend pa strong (inl e) = inr (inl (refl, e))
pick_cases false true true trend pa strong (inr e) = inr (inr (inl (refl, e)))

pub vote-vote : (t : Text) → vote (vote t) ≡ vote t
unfolding vote
vote-vote t = ground arith

pub vote-trend_vote : (t : Text) → vote (trend_vote t) ≡ trend_vote t
unfolding trend_vote
vote-trend_vote t = vote-vote _

module _ {F : Type 0} ⦃fl : Float F⦄ (pa_min : F) where
  stronger_cases :
      (trend pa : Text) (i : FilterInput F)
      → (stronger pa_min trend pa i ≡ trend) ⊎ (stronger pa_min trend pa i ≡ pa)
  stronger_cases trend pa i = ground arith

  -- The ways to a direction, for two votes.
  pub select_cases :
      (trend pa : Text) (i : FilterInput F)
      → vote trend ≡ trend
      → vote pa ≡ pa
      → let d = select_independent_direction pa_min trend pa i in
        (((is_side trend && text_eq trend pa) ≡ true) × (d ≡ trend))
        ⊎ ((trend_alone pa_min trend i ≡ true) × (d ≡ trend))
        ⊎ ((pa_alone pa_min pa i ≡ true) × (d ≡ pa))
        ⊎ (d ≡ neutral)
  unfolding select_independent_direction
  select_cases trend pa i ht hp =
      rw (ht, hp) (pick_cases _ _ _ trend pa _ (stronger_cases trend pa i))

  two_votes : (n : ℤ) (p t : Bool) → is_allowed pa_min 2 (required_confirmations n) p t ≡ true
  two_votes (pos n) p t = ground arith
  two_votes (negsuc n) p t = ground arith

  pa_votes : (v n : ℕ) (t : Bool) → is_allowed pa_min v n true t ≡ true
  pa_votes v n t = ground arith

  trend_votes : (v n : ℕ) (p : Bool) → is_allowed pa_min v n p true ≡ true
  trend_votes v n p = ground arith

  authorize-agreed :
      (trend pa : Text) (i : FilterInput F)
      → text_eq trend pa ≡ true
      → (authorize pa_min trend pa trend i).allowed ≡ true
  unfolding authorize
  authorize-agreed trend pa i h =
      let same : pa ≡ trend = sym ((text_eq_iff trend pa).0 h) in
      rw (same, text_eq_refl trend) (two_votes i.min_confirmations _ _)

  authorize-by_pa :
      (trend pa : Text) (i : FilterInput F)
      → pa_alone pa_min pa i ≡ true
      → (authorize pa_min trend pa pa i).allowed ≡ true
  unfolding authorize
  authorize-by_pa trend pa i h =
      let alone : pa_standalone_ok pa_min true i ≡ true = ground arith in
      rw (text_eq_refl pa, alone) (pa_votes (count (text_eq trend pa) + 1) _ _)

  module _ (laws : IsOrdered F) (mono : IsMonotone F) where
    aligned-lower :
        (d : Text) (s m : F)
        → IsNumber m
        → is_aligned d s (max nought m) ≡ true
        → is_aligned d s m ≡ true
    aligned-lower d s m num h =
        let le = le_max_right laws nought m (laws.number_lit 0 1) num in
        ground (
          arith,
          laws.le_trans m (max nought m) s,
          laws.le_trans s (fl.neg (max nought m)) (fl.neg m),
          mono.neg_anti m (max nought m),
        )

    authorize-by_trend :
        (trend pa : Text) (i : FilterInput F)
        → IsNumber i.trend_standalone_min_score
        → trend_alone pa_min trend i ≡ true
        → (authorize pa_min trend pa trend i).allowed ≡ true
    unfolding authorize
    authorize-by_trend trend pa i num h =
        let aligned =
          aligned-lower trend (score_of i.trend_score) i.trend_standalone_min_score num
            (ground arith) in
        let alone : trend_standalone_ok pa_min trend true i ≡ true = ground arith in
        rw (text_eq_refl trend, alone) (trend_votes (1 + count (text_eq pa trend)) _ _)

    authorize-allowed :
        (trend pa : Text) (i : FilterInput F) (d : Text)
        → IsNumber i.trend_standalone_min_score
        → (((is_side trend && text_eq trend pa) ≡ true) × (d ≡ trend))
          ⊎ ((trend_alone pa_min trend i ≡ true) × (d ≡ trend))
          ⊎ ((pa_alone pa_min pa i ≡ true) × (d ≡ pa))
          ⊎ (d ≡ neutral)
        → text_eq d neutral ≡ false
        → (authorize pa_min trend pa d i).allowed ≡ true
    authorize-allowed trend pa i d num (inl (h, e)) _ =
        rw e (authorize-agreed trend pa i (ground arith))
    authorize-allowed trend pa i d num (inr (inl (h, e))) _ =
        rw e (authorize-by_trend trend pa i num h)
    authorize-allowed trend pa i d num (inr (inr (inl (h, e)))) _ =
        rw e (authorize-by_pa trend pa i h)
    authorize-allowed trend pa i d num (inr (inr (inr e))) away =
        absurd (ground (arith, text_eq_iff d neutral))

    -- The filter allows an entry exactly when the selection finds a direction: no direction that the
    -- selection takes, by agreement or from one engine alone, is refused by the count of votes or by
    -- the standalone gates behind it. The least score of the trend is to be a number.
    pub allowed_iff_selected :
        (i : FilterInput F)
        → IsNumber i.trend_standalone_min_score
        → (apply_entry_filter pa_min i).allowed
          ≡ not (
              text_eq
                (select_independent_direction pa_min (trend_vote i.ema_trend) (vote i.pa_signal) i)
                neutral)
    unfolding apply_entry_filter
    allowed_iff_selected i num =
        let trend = trend_vote i.ema_trend in
        let pa = vote i.pa_signal in
        let d = select_independent_direction pa_min trend pa i in
        elim (Bool-cases (text_eq d neutral)) [
          | inl e ↦ rw e refl
          | inr e ↦
              let ways =
                select_cases trend pa i (vote-trend_vote i.ema_trend) (vote-vote i.pa_signal) in
              rw e (authorize-allowed trend pa i d num ways e)
        ]
