-- ===== src/Signals/Confidence/Bounds.antt =====
-- The score stays in its scale, and so does each of its parts.
use scalp_tn_aaa.Base.{
  ℕ, ◌≤◌, not, ◌&&◌, ◌||◌, Option, none, some, List, [], ◌∷◌, arith, if◌then◌else◌, length, ltb,
  Bool-cases, inl, inr,
}
use scalp_tn_aaa.Base.Text.{Text, text_eq}
use scalp_tn_aaa.Float.{
  Float, IsOrdered, IsMonotone, IsSigned, IsNumber, ◌≼◌, nought, max, min, le_of_lt,
}
use scalp_tn_aaa.Entry.Policy.{buy, is_side}
use scalp_tn_aaa.Risk.Trailing.{Candle}
use scalp_tn_aaa.Signals.Regime.{Side, Strength, RegimeResult}
use scalp_tn_aaa.Signals.Confidence.{
  ConfidenceInput, ConfidenceResult, WyckoffResult, cap, calc_trend_score, calc_pa_score,
  calc_wyckoff_score, calc_liquidity_score, liquidity_of, calc_volatility_score,
  calc_divergence_score, pa_component, calc_confidence, raw_total, flag_points,
}

module _ {F : Type 0} ⦃fl : Float F⦄ where
  abbrev pub IsWithin : F → F → F → Type 0
  IsWithin low high x = (low ≼ x) × (x ≼ high)

  -- The scale of the score and of its parts.
  pub record IsScaled (r : ConfidenceResult F) : Type 0 where
    pub confidence_in : IsWithin (fl.round 1 nought) (fl.round 1 (fl.lit 100 1)) r.confidence
    pub trend_in : IsWithin nought (fl.lit 20 1) r.components.trend_score
    pub pa_in : IsWithin nought (fl.lit 35 1) r.components.pa_score
    pub wyckoff_in : IsWithin nought (fl.lit 15 1) r.components.wyckoff_score
    pub liquidity_in : IsWithin nought (fl.lit 5 1) r.components.liquidity_score
    pub volatility_in : IsWithin nought (fl.lit 5 1) r.components.volatility_score
    pub divergence_in : IsWithin nought (fl.lit 10 1) r.components.divergence_score

  module _ (laws : IsOrdered F) (mono : IsMonotone F) (signed : IsSigned F) where
    literal : (n m : ℕ) → n ≤ m → IsWithin nought (fl.lit m 1) (fl.lit n 1)
    literal n m h = (signed.lit_mono 0 n 1 (omega arith), signed.lit_mono n m 1 h)

    cap-IsWithin : (val m : F) → nought ≼ m → IsWithin nought m (cap val m)
    unfolding cap max min
    cap-IsWithin val m h = ground (
      arith,
      le_of_lt laws val m,
      le_of_lt laws nought val,
      le_of_lt laws nought m,
      laws.refl_of_le nought m,
    )

    clip-IsWithin : (x m : F) → nought ≼ m → IsWithin nought m (min m (max nought x))
    unfolding max min
    clip-IsWithin x m h = ground (
      arith,
      le_of_lt laws nought x,
      le_of_lt laws x m,
      le_of_lt laws nought m,
      laws.refl_of_le nought m,
    )

    trend-IsWithin :
        (t : Side) (s : Strength) (c : Text)
        → IsWithin nought (fl.lit 20 1) (calc_trend_score t s c)
    trend-IsWithin t s c = ground (arith, literal 20 20, literal 14 20, literal 7 20, literal 0 20)

    wyckoff-IsWithin :
        (w : WyckoffResult F) (c : Text) → IsWithin nought (fl.lit 15 1) (calc_wyckoff_score w c)
    unfolding calc_wyckoff_score
    wyckoff-IsWithin w c = elim (Bool-cases (text_eq w.wyckoff_signal c)) [
      | inl e ↦ rw e (cap-IsWithin _ (fl.lit 15 1) (literal 0 15 (omega arith)).1)
      | inr e ↦ rw e (literal 0 15 (omega arith))
    ]

    liquidity_of-IsWithin :
        (c : Text) (cs : List (Candle F)) (signal : Option (Candle F))
        → IsWithin nought (fl.lit 5 1) (liquidity_of c cs signal)
    liquidity_of-IsWithin c [] signal = literal 0 5 (omega arith)
    liquidity_of-IsWithin c (x ∷ cs) none = literal 0 5 (omega arith)
    liquidity_of-IsWithin c (x ∷ cs) (some s) =
        cap-IsWithin _ (fl.lit 5 1) (literal 0 5 (omega arith)).1

    liquidity-IsWithin :
        (cs : List (Candle F)) (c : Text) → IsWithin nought (fl.lit 5 1) (calc_liquidity_score cs c)
    unfolding calc_liquidity_score
    liquidity-IsWithin cs c = elim (Bool-cases (ltb (length cs) 3 || not (is_side c))) [
      | inl e ↦ rw e (literal 0 5 (omega arith))
      | inr e ↦ rw e (liquidity_of-IsWithin c _ _)
    ]

    volatility-IsWithin :
        (r : RegimeResult F) (session : Text)
        → IsWithin nought (fl.lit 5 1) (calc_volatility_score r session)
    unfolding calc_volatility_score
    volatility-IsWithin r session = cap-IsWithin _ (fl.lit 5 1) (literal 0 5 (omega arith)).1

    divergence-IsWithin :
        (d : Side) (c : Text)
        → IsWithin nought (fl.lit 10 1) (max nought (calc_divergence_score d c))
    unfolding max
    divergence-IsWithin d c =
        let down =
          laws.le_trans _ _ _ (mono.neg_anti nought (fl.lit 5 1) (literal 0 5 (omega arith)).1)
            signed.neg_nought in
        let (num, _) = laws.refl_of_le (fl.neg (fl.lit 5 1)) nought down in
        ground (
          arith,
          literal 0 10,
          literal 10 10,
          laws.lt-eq nought (fl.neg (fl.lit 5 1)) (laws.number_lit 0 1) num,
        )

    raised-IsWithin :
        (x y m : F) → IsWithin nought m x → IsNumber m → IsWithin nought m (max x (min m y))
    unfolding max min
    raised-IsWithin x y m h num = ground (
      arith,
      le_of_lt laws x m,
      le_of_lt laws x y,
      le_of_lt laws y m,
      laws.le_trans nought x y,
      laws.le_trans nought x m,
    )

    pa-IsWithin : (i : ConfidenceInput F) → IsWithin nought (fl.lit 35 1) (pa_component i)
    unfolding pa_component calc_pa_score
    pa-IsWithin i =
        let (low, high) =
          cap-IsWithin (flag_points (if text_eq i.candidate buy then i.pa.bull else i.pa.bear))
            (fl.lit 20 1) (literal 0 20 (omega arith)).1 in
        let local : IsWithin nought (fl.lit 35 1) (calc_pa_score i.pa i.candidate) =
          (low, laws.le_trans _ _ _ high (literal 20 35 (omega arith)).1) in
        elim (Bool-cases (i.price_action_standalone && text_eq i.pa.pa_signal i.candidate)) [
          | inl e ↦ rw e (raised-IsWithin _ _ (fl.lit 35 1) local (laws.number_lit 35 1))
          | inr e ↦ rw e local
        ]

    -- Whatever the engines report, the confidence lies between 0 and 100, as rounded to one place, and
    -- each part on its own scale: the trend up to 20, Price Action up to 35, Wyckoff up to 15, liquidity
    -- and volatility up to 5 and the reported divergence up to 10, and none below 0.
    pub calc_confidence-IsScaled :
        (conf_hard_min : F) (i : ConfidenceInput F) → IsScaled (calc_confidence conf_hard_min i)
    unfolding calc_confidence
    calc_confidence-IsScaled conf_hard_min i =
        let (low, high) =
          clip-IsWithin (raw_total i) (fl.lit 100 1) (literal 0 100 (omega arith)).1 in
        record {
          confidence_in = (mono.round_mono 1 _ _ low, mono.round_mono 1 _ _ high);
          trend_in = trend-IsWithin i.trend i.strength i.candidate;
          pa_in = pa-IsWithin i;
          wyckoff_in = wyckoff-IsWithin i.wyckoff i.candidate;
          liquidity_in = liquidity-IsWithin i.candles i.candidate;
          volatility_in = volatility-IsWithin i.regime i.session;
          divergence_in = divergence-IsWithin i.divergence_signal i.candidate;
        }
