-- ===== src/Risk/Aggregate/Sizing/Ladder.antt =====
-- The loop over the volume steps stops, and where it stops.
use mathlib.Core.Path.{subst}
use scalp_tn_aaa.Base.{
  ℕ, zero, suc, ◌≤◌, ◌<◌, ◌≡◌, refl, true, false, some, Bool, ◌⊎◌, inl, inr, arith, Bool-cases, ◌∙◌,
  ◌==◌, ==_iff, ap,
}
use scalp_tn_aaa.Base.Int.{pos}
use scalp_tn_aaa.Float.{Float, IsOrdered, IsNumber, ◌≼◌}
use scalp_tn_aaa.Risk.Aggregate.Sizing.{Decimals, rung, shrink}

module _ {F D : Type 0} ⦃fl : Float F⦄ (dec : Decimals F D) (minimum step : D) where
  abbrev pub rung_at : ℕ → D
  rung_at k = rung dec minimum step (pos k)

  -- Decimals that keep `n` steps above the minimum exact: a step taken back from a rung gives the one
  -- below, and the rungs rise, also as floats.
  pub record IsLadder (n : ℕ) : Type 0 where
    pub bottom : rung_at 0 ≡ minimum
    pub not_above : dec.gt minimum minimum ≡ false
    pub down : (k : ℕ) → k < n → dec.sub (rung_at (suc k)) step ≡ rung_at k
    pub above : (k : ℕ) → k < n → dec.gt (rung_at (suc k)) minimum ≡ true
    pub rise : (k : ℕ) → k < n → dec.to_float (rung_at k) ≼ dec.to_float (rung_at (suc k))

  pub lower : {m : ℕ} (n : ℕ) → n ≤ m → IsLadder m → IsLadder n
  lower n le l = record {
    bottom = l.bottom;
    not_above = l.not_above;
    down = λ k h. l.down k (omega arith);
    above = λ k h. l.above k (omega arith);
    rise = λ k h. l.rise k (omega arith);
  }

  module _ (budget per_lot : F) where
    abbrev pub is_too_much : ℕ → Bool
    is_too_much k = fl.lt budget (fl.mul per_lot (dec.to_float (rung_at k)))

    -- Of the rungs up to `n`, `k` is the highest one within the budget, or the lowest of all.
    pub record IsBest (n k : ℕ) : Type 0 where
      pub within : k ≤ n
      pub fits : (k ≡ 0) ⊎ (is_too_much k ≡ false)
      pub highest : (j : ℕ) → (j ≤ k) ⊎ (n < j) ⊎ (is_too_much j ≡ true)

    IsBest-suc : (n k : ℕ) → is_too_much (suc n) ≡ true → IsBest n k → IsBest (suc n) k
    IsBest-suc n k over best = record {
      within = omega (arith, best.within);
      fits = best.fits;
      highest = λ j. raised j (best.highest j);
    }
      where
        raised :
            (j : ℕ)
            → (j ≤ k) ⊎ (n < j) ⊎ (is_too_much j ≡ true)
            → (j ≤ k) ⊎ (suc n < j) ⊎ (is_too_much j ≡ true)
        raised j h = let here = λ (e : j ≡ suc n). ap is_too_much e ∙ over in ground (arith, here)

    shrink-zero :
        IsLadder 0 → shrink dec 0 budget per_lot minimum step (rung_at 0) ≡ some (rung_at 0)
    unfolding shrink
    shrink-zero l = let e = ap (λ v. dec.gt v minimum) l.bottom ∙ l.not_above in ground arith

    pub shrink-IsBest :
        (n : ℕ)
        → IsLadder n
        → (k : ℕ) × (shrink dec n budget per_lot minimum step (rung_at n) ≡ some (rung_at k))
          × IsBest n k
    unfolding shrink
    shrink-IsBest zero l = (
      0,
      shrink-zero l,
      record { within = omega arith; fits = inl refl; highest = λ j. ground arith },
    )
    shrink-IsBest (suc n) l = elim (Bool-cases (is_too_much (suc n))) [
      | inl over ↦
          let (k, e, best) = shrink-IsBest n (lower n (omega arith) l) in
          (
            k,
            let d = l.down n (omega arith) in let g = l.above n (omega arith) in rw (over, g, d) e,
            IsBest-suc n k over best,
          )
      | inr under ↦ (
        suc n,
        rw under refl,
        record { within = omega arith; fits = inr under; highest = λ j. ground arith },
      )
    ]

  -- The rungs rise, as floats.
  pub rung-le :
      (laws : IsOrdered F) (n j k : ℕ)
      → IsLadder n
      → IsNumber (dec.to_float (rung_at j))
      → j ≤ k
      → k ≤ n
      → dec.to_float (rung_at j) ≼ dec.to_float (rung_at k)
  rung-le laws n j zero l num le h = grind arith
  rung-le laws n j (suc k) l num le h = elim (Bool-cases (j == suc k)) [
    | inl e ↦
        let same = (==_iff j (suc k)).0 e in
        subst (λ i. dec.to_float (rung_at j) ≼ dec.to_float (rung_at i)) same num
    | inr e ↦
        laws.le_trans _ _ _ (rung-le laws n j k l num (ground arith) (omega arith))
          (l.rise k (omega arith))
  ]
