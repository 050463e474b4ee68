-- ===== src/Risk/Capital/Envelope.antt =====
-- The distance of the stop.
use scalp_tn_aaa.Base.{◌≡◌, ◌⊎◌, refl, true, none, some, arith, ap, sym, ◌∙◌, Bool-cases, inl, inr}
use scalp_tn_aaa.Base.Text.{Text}
use scalp_tn_aaa.Float.{
  Float, IsOrdered, IsMonotone, IsSigned, IsNumber, ◌≼◌, nought, gt, max, le_max_left, le_max_right,
  le_of_not_lt,
}
use scalp_tn_aaa.Entry.Policy.{normalized}
use scalp_tn_aaa.Risk.Capital.{
  CapitalInput, calc_smart_stop, structural_plan, plan_for, nearest_level, levels, stop_at,
  raw_distance, min_distance, max_distance, safe_atr, min_mult, max_mult, max_sl_atr_mult, epsilon,
}
use scalp_tn_aaa.Risk.Capital.Lots.{clamp-bounds, max_le}

module _ {F : Type 0} ⦃fl : Float F⦄ where
  -- The figures are numbers, and the literals of the code are in their order.
  pub record IsSizable (inp : CapitalInput F) (entry atr : F) (side : Text) : Type 0 where
    pub atr_number : IsNumber atr
    pub min_number : IsNumber (min_distance inp atr)
    pub max_number : IsNumber (max_distance inp atr)
    pub raw_number :
        (nearest_level side (levels inp entry side) ≡ none)
        ⊎ ((level : F) × (nearest_level side (levels inp entry side) ≡ some level)
            × IsNumber (raw_distance inp entry atr level))
    pub positive_epsilon : nought {F = F} ≼ epsilon
    pub least_mult : fl.lit 75 100 ≼ max_sl_atr_mult

  -- What a valid plan promises of the distance behind its stop.
  pub record IsInEnvelope (inp : CapitalInput F) (entry atr : F) (side : Text) (stop : F)
      : Type 0 where
    pub distance : F
    pub placed : stop ≡ stop_at side entry distance
    pub floor : min_distance inp atr ≼ distance
    pub ceiling : distance ≼ fl.add (max_distance inp atr) epsilon
    pub behind_structure :
        (nearest_level side (levels inp entry side) ≡ none)
        ⊎ ((level : F) × (nearest_level side (levels inp entry side) ≡ some level)
            × (raw_distance inp entry atr level ≼ distance))

  module _ (laws : IsOrdered F) (mono : IsMonotone F) (signed : IsSigned F) where
    mult_order :
        (inp : CapitalInput F) → fl.lit 75 100 ≼ max_sl_atr_mult → min_mult inp ≼ max_mult inp
    unfolding min_mult max_mult
    mult_order inp h =
        let (_, high) =
          clamp-bounds laws inp.sl_min_atr_multiplier (fl.lit 75 100) max_sl_atr_mult h in
        (clamp-bounds laws inp.sl_atr_multiplier (min_mult inp) max_sl_atr_mult high).0

    safe_atr-positive : (atr : F) → IsNumber atr → nought {F = F} ≼ epsilon → nought ≼ safe_atr atr
    unfolding safe_atr
    safe_atr-positive atr num h =
        laws.le_trans nought epsilon (max atr epsilon) h
          (le_max_right laws atr epsilon num (laws.refl_of_le nought epsilon h).1)

    distance_order :
        (inp : CapitalInput F) (entry atr : F) (side : Text)
        → IsSizable inp entry atr side
        → min_distance inp atr ≼ max_distance inp atr
    distance_order inp entry atr side v =
        let safe = safe_atr-positive atr v.atr_number v.positive_epsilon in
        rw
          (mono.mul_comm (safe_atr atr) (min_mult inp), mono.mul_comm (safe_atr atr) (max_mult inp))
          (mono.mul_mono (min_mult inp) (max_mult inp) (safe_atr atr) (mult_order inp v.least_mult)
            safe (rw (mono.mul_comm (min_mult inp) (safe_atr atr)) v.min_number)
            (rw (mono.mul_comm (max_mult inp) (safe_atr atr)) v.max_number))

    structural_plan_valid :
        (inp : CapitalInput F) (side : Text) (entry atr level : F)
        → IsNumber (raw_distance inp entry atr level)
        → IsNumber (min_distance inp atr)
        → min_distance inp atr ≼ fl.add (max_distance inp atr) epsilon
        → (structural_plan inp side entry atr level).valid ≡ true
        → let d = max (raw_distance inp entry atr level) (min_distance inp atr) in
          ((structural_plan inp side entry atr level).stop_loss ≡ stop_at side entry d)
          × (d ≼ fl.add (max_distance inp atr) epsilon)
    unfolding structural_plan
    structural_plan_valid inp side entry atr level num num_min within ok =
        let raw = raw_distance inp entry atr level in
        let most = fl.add (max_distance inp atr) epsilon in
        elim (Bool-cases (gt raw most)) [
          | inl far ↦ absurd (ground arith)
          | inr near ↦ rw near (
            refl,
            max_le laws raw (min_distance inp atr) most
                (le_of_not_lt laws most raw (laws.refl_of_le _ most within).1 num near) within,
          )
        ]

    -- A valid plan puts the stop, before it is rounded, at a distance within the envelope: not closer
    -- than the noise floor, not farther than the greatest distance and the tolerance, and not closer
    -- than the chosen structural level and the buffer. The figures are to be numbers.
    pub valid_stop-IsInEnvelope :
        (direction : Text) (entry atr : F) (inp : CapitalInput F)
        → IsSizable inp entry atr (normalized direction)
        → (calc_smart_stop direction entry atr inp).valid ≡ true
        → IsInEnvelope inp entry atr
            (normalized direction)
            (calc_smart_stop direction entry atr inp).stop_loss
    unfolding calc_smart_stop
    valid_stop-IsInEnvelope direction entry atr inp v ok =
        let side = normalized direction in
        let least = distance_order inp entry atr side v in
        let ceiling = signed.le_add (max_distance inp atr) 1 1_000_000_000 v.max_number in
        elim v.raw_number [
          | inl e ↦ record {
            distance = max_distance inp atr;
            placed = ap (λ o. (plan_for inp side entry atr o).stop_loss) e;
            floor = least;
            ceiling = ceiling;
            behind_structure = inl e;
          }
          | inr (level, e, num) ↦
              let raw = raw_distance inp entry atr level in
              let same = ap (plan_for inp side entry atr) e in
              let within = laws.le_trans _ _ _ least ceiling in
              let (placed, most) =
                structural_plan_valid inp side entry atr level num v.min_number within
                  (sym (ap (λ p. p.valid) same) ∙ ok) in
              record {
                distance = max raw (min_distance inp atr);
                placed = ap (λ p. p.stop_loss) same ∙ placed;
                floor = le_max_right laws raw (min_distance inp atr) num v.min_number;
                ceiling = most;
                behind_structure = inr (level, e, le_max_left laws raw (min_distance inp atr) num);
              }
        ]
