-- ===== src/Risk/Aggregate/Tickets.antt =====
-- The open risk counts each ticket once, and an open position that cannot be priced stops the order.
use mathlib.Core.Path.{subst}
use scalp_tn_aaa.Base.{
  ◌≡◌, ◌≢◌, refl, sym, ◌∙◌, ◌||◌, Option, List, [], ◌∷◌, ◌++◌, any, arith, if◌then◌else◌, is_some,
  ap, inl, inr,
}
use scalp_tn_aaa.Base.Text.{Text, text_eq, text_eq_iff}
use scalp_tn_aaa.Base.Results.{
  Result, ok, err, ◌>>=◌, >>=-ok, ok-injective, >>=-assoc, Result-cases,
}
use scalp_tn_aaa.Float.{Float, nought, max}
use scalp_tn_aaa.Float.Values.{find, find-put, IsDistinct, put-IsDistinct}
use scalp_tn_aaa.Risk.Aggregate.{
  RiskError, SymbolRiskSpec, OpenPosition, priced, charge, collect, or_nought,
}

module _ {F : Type 0} ⦃fl : Float F⦄ where
  -- The worst risk that the rows report for a ticket.
  abbrev pub worst : Text → F → List (Text × F) → F
  worst t x [] = x
  worst t x (row ∷ rows) = worst t (if text_eq t row.0 then max x row.1 else x) rows

  -- One entry for each ticket of the rows, with the worst risk reported for it.
  pub record IsTally (rows risks : List (Text × F)) : Type 0 where
    pub distinct : IsDistinct risks
    pub each : (t : Text) → or_nought (find t risks) ≡ worst t nought rows
    pub listed : (t : Text) → is_some (find t risks) ≡ any (λ row. text_eq t row.0) rows

  abbrev pub charges : List (Text × F) → List (Text × F) → List (Text × F)
  charges [] risks = risks
  charges (row ∷ rows) risks = charges rows (charge row.0 row.1 risks)

  find-charge :
      (t k : Text) (x : F) (risks : List (Text × F))
      → or_nought (find t (charge k x risks))
        ≡ (if text_eq t k then max (or_nought (find t risks)) x else or_nought (find t risks))
  unfolding charge
  find-charge t k x risks =
      ground (arith, find-put t k (max (or_nought (find k risks)) x) risks, text_eq_iff t k)

  charges-each :
      (t : Text) (rows risks : List (Text × F))
      → or_nought (find t (charges rows risks)) ≡ worst t (or_nought (find t risks)) rows
  charges-each t [] risks = refl
  charges-each t (row ∷ rows) risks =
      charges-each t rows (charge row.0 row.1 risks)
      ∙ ap (λ x. worst t x rows) (find-charge t row.0 row.1 risks)

  charges-IsDistinct :
      (rows risks : List (Text × F)) → IsDistinct risks → IsDistinct (charges rows risks)
  unfolding charge
  charges-IsDistinct [] risks h = h
  charges-IsDistinct (row ∷ rows) risks h =
      charges-IsDistinct rows (charge row.0 row.1 risks)
        (put-IsDistinct row.0 (max (or_nought (find row.0 risks)) row.1) risks h)

  charges-listed :
      (t : Text) (rows risks : List (Text × F))
      → is_some (find t (charges rows risks))
        ≡ (is_some (find t risks) || any (λ row. text_eq t row.0) rows)
  unfolding charge
  charges-listed t [] risks = ground arith
  charges-listed t (row ∷ rows) risks = ground (
    arith,
    charges-listed t rows (charge row.0 row.1 risks),
    find-put t row.0 (max (or_nought (find row.0 risks)) row.1) risks,
  )

  module _ (parse : Text → Option F) (spec : SymbolRiskSpec F) where
    abbrev pub price_all : List (OpenPosition F) → Result RiskError (List (Text × F))
    price_all [] = ok []
    price_all (p ∷ ps) = do row ← priced parse spec p; rows ← price_all ps; ok (row ∷ rows)

    collect-charges :
        (ps : List (OpenPosition F)) (risks : List (Text × F))
        → collect parse spec ps risks ≡ (price_all ps >>= λ rows. ok (charges rows risks))
    unfolding collect
    collect-charges [] risks = refl
    collect-charges (p ∷ ps) risks = elim (Result-cases (priced parse spec p)) [
      | inl (row, e) ↦ rw e (
          collect-charges ps (charge row.0 row.1 risks)
          ∙ sym
              (>>=-assoc (price_all ps) (λ rows. ok (row ∷ rows)) λ rows. ok (charges rows risks)))
      | inr (d, e) ↦ rw e refl
    ]

    -- When the positions can be priced, the open risk is summed over a table that has exactly the
    -- tickets that the positions name, each once, and for each the worst risk that they report for it.
    pub collect-IsTally :
        (ps : List (OpenPosition F)) {rows risks : List (Text × F)}
        → price_all ps ≡ ok rows
        → collect parse spec ps [] ≡ ok risks
        → IsTally rows risks
    unfolding IsDistinct find
    collect-IsTally ps {rows} {risks} hr hc =
        let e : charges rows [] ≡ risks = ok-injective (
          sym (ap (λ r. r >>= λ rows. ok (charges rows [])) hr)
          ∙ sym (collect-charges ps [])
          ∙ hc) in
        record {
          distinct = subst IsDistinct e (charges-IsDistinct rows [] tt);
          each = λ t. ap (λ d. or_nought (find t d)) (sym e) ∙ charges-each t rows [];
          listed = λ t. ap (λ d. is_some (find t d)) (sym e) ∙ charges-listed t rows [];
        }

    pub unpriced-collect :
        (before : List (OpenPosition F)) (p : OpenPosition F) (after : List (OpenPosition F))
        (risks final : List (Text × F)) (e : RiskError)
        → priced parse spec p ≡ err e
        → collect parse spec (before ++ p ∷ after) risks ≢ ok final
    unfolding collect
    unpriced-collect [] p after risks final e h k = ground arith
    unpriced-collect (q ∷ before) p after risks final e h k =
        let (row, _, k') = >>=-ok (priced parse spec q) _ k in
        unpriced-collect before p after (charge row.0 row.1 risks) final e h k'
