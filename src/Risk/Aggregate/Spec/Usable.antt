-- ===== src/Risk/Aggregate/Spec/Usable.antt =====
-- What a specification that was built guarantees to the sizing.
use mathlib.Core.Path.{subst}
use scalp_tn_aaa.Base.{
  ◌≡◌, ap, Bool, false, Option, none, some, List, [], ◌∷◌, arith, ◌⊎◌, inl, inr, Bool-cases,
}
use scalp_tn_aaa.Base.Text.{Text, codes, upper, strip, is_empty}
use scalp_tn_aaa.Base.Results.{ok, >>=-ok, >>-ok, ok-injective}
use scalp_tn_aaa.Float.{Float, gt}
use scalp_tn_aaa.Float.Values.{Value, Fields, get, null, float_of, is_boolean}
use scalp_tn_aaa.Risk.Aggregate.{
  RiskError, SymbolRiskSpec, currency_unavailable, volume_units_error, constraint_insane,
  maximum_below_minimum, tick_size_unavailable,
}
use scalp_tn_aaa.Risk.Aggregate.Spec.{
  SymbolParams, mappings, is_true, is_unusable, positive_number, number_in, usable_value,
  or_else_number, volume_scale, volume_constraint, constraint_or_raise, constraint_value,
  checked_number, checked_lots, usable, lots_of, is_insane, or_raise, first_value, tick_value_of,
}
use scalp_tn_aaa.Risk.Aggregate.Spec.Build.{
  TickEconomics, VolumeLimits, tick_economics, volume_limits, spec_of, build_symbol_risk_spec,
  tick_size_keys,
}

module _ {F : Type 0} ⦃fl : Float F⦄ where
  -- Positive, finite numbers in order: at most one lot to start with, 10000 lots at the most.
  pub record IsUsable (spec : SymbolRiskSpec F) : Type 0 where
    pub tick_size : is_unusable spec.tick_size ≡ false
    pub currency : is_empty spec.account_currency ≡ false
    pub minimum : is_unusable spec.volume_min ≡ false
    pub step : is_unusable spec.volume_step ≡ false
    pub maximum : is_unusable spec.volume_max ≡ false
    pub minimum_lot : gt spec.volume_min (fl.lit 1 1) ≡ false
    pub maximum_lot : gt spec.volume_max (fl.lit 10_000 1) ≡ false
    pub ordered : fl.lt spec.volume_max spec.volume_min ≡ false

  record IsBounded (v : VolumeLimits F) : Type 0 where
    pub minimum : is_unusable v.volume_min ≡ false
    pub step : is_unusable v.volume_step ≡ false
    pub maximum : is_unusable v.volume_max ≡ false
    pub minimum_lot : gt v.volume_min (fl.lit 1 1) ≡ false
    pub maximum_lot : gt v.volume_max (fl.lit 10_000 1) ≡ false
    pub ordered : fl.lt v.volume_max v.volume_min ≡ false

  insane :
      (a b c : F)
      → is_insane a b c ≡ false
      → (gt a (fl.lit 1 1) ≡ false) × (gt c (fl.lit 10_000 1) ≡ false)
  unfolding is_insane
  insane a b c h = ground arith

  or_raise-some : (o : Option F) (e : RiskError) {x : F} → or_raise o e ≡ ok x → o ≡ some x
  or_raise-some none e h = absurd (ground arith)
  or_raise-some (some y) e h = ground arith

  usable-usable : (o : Option F) {x : F} → usable o ≡ some x → is_unusable x ≡ false
  usable-usable none h = absurd (ground arith)
  usable-usable (some y) h = ground arith

  or_else_number_cases :
      (o rest : Option F) {x : F} → or_else_number o rest ≡ some x → (o ≡ some x) ⊎ (rest ≡ some x)
  or_else_number_cases none rest h = inr h
  or_else_number_cases (some y) rest h = inl h

  checked_lots-usable :
      (field : Text) (o : Option F) {x : F} → checked_lots field o ≡ ok x → is_unusable x ≡ false
  checked_lots-usable field none h = absurd (ground arith)
  checked_lots-usable field (some y) h = ground arith

  checked_number-usable :
      (field : Text) (scale : F) (lots : Bool) (o : Option F) {x : F}
      → checked_number field scale lots o ≡ ok x
      → is_unusable x ≡ false
  checked_number-usable field scale lots none h = absurd (ground arith)
  checked_number-usable field scale lots (some y) h = elim (Bool-cases (fl.is_finite y)) [
    | inl e ↦ checked_lots-usable field (lots_of lots y scale) (ground arith)
    | inr e ↦ absurd (ground arith)
  ]

  module _ (parse : Text → Option F) where
    usable_value-usable :
        (v : Value F) {x : F} → usable_value parse v ≡ some x → is_unusable x ≡ false
    usable_value-usable v h = elim (Bool-cases (is_boolean v)) [
      | inl e ↦ absurd (ground arith)
      | inr e ↦ usable-usable (float_of parse v) (ground arith)
    ]

    number_in-usable :
        (d : Fields F) (ks : List Text) {x : F}
        → number_in parse d ks ≡ some x
        → is_unusable x ≡ false
    number_in-usable d [] h = absurd (ground arith)
    number_in-usable d (k ∷ ks) h =
        elim (or_else_number_cases (usable_value parse (get k null d)) (number_in parse d ks) h) [
          | inl e ↦ usable_value-usable (get k null d) e
          | inr e ↦ number_in-usable d ks e
        ]

    positive_number-usable :
        (ms : List (Option (Fields F))) (ks : List Text) {x : F}
        → positive_number parse ms ks ≡ some x
        → is_unusable x ≡ false
    unfolding positive_number
    positive_number-usable [] ks h = absurd (ground arith)
    positive_number-usable (none ∷ ms) ks h = positive_number-usable ms ks h
    positive_number-usable (some d ∷ ms) ks h =
        elim (or_else_number_cases (number_in parse d ks) (positive_number parse ms ks) h) [
          | inl e ↦ number_in-usable d ks e
          | inr e ↦ positive_number-usable ms ks e
        ]

    constraint_value-usable :
        (field : Text) (scale : F) (lots : Bool) (v : Value F) {x : F}
        → constraint_value parse field scale lots v ≡ ok x
        → is_unusable x ≡ false
    unfolding constraint_value
    constraint_value-usable field scale lots v h = elim (Bool-cases (is_boolean v)) [
      | inl e ↦ absurd (ground arith)
      | inr e ↦ checked_number-usable field scale lots (float_of parse v) (ground arith)
    ]

    constraint_or_raise-usable :
        (field : Text) (scale : F) (lots : Bool) (v : Option (Value F)) {x : F}
        → constraint_or_raise parse field scale lots v ≡ ok x
        → is_unusable x ≡ false
    constraint_or_raise-usable field scale lots none h = absurd (ground arith)
    constraint_or_raise-usable field scale lots (some v) h =
        constraint_value-usable field scale lots v h

    constraint-usable :
        (ms : List (Option (Fields F))) (field : Text) (ks : List Text) (scale : F) (lots : Bool)
        {x : F}
        → volume_constraint parse ms field ks scale lots ≡ ok x
        → is_unusable x ≡ false
    unfolding volume_constraint
    constraint-usable ms field ks scale lots h =
        constraint_or_raise-usable field scale lots (first_value ms ks) h

    tick_economics-usable :
        (p : SymbolParams F) (ccy : Text) {t : TickEconomics F}
        → tick_economics parse p ccy ≡ ok t
        → is_unusable t.tick_size ≡ false
    unfolding tick_economics
    tick_economics-usable p ccy {t} h =
        let found = positive_number parse (mappings p) tick_size_keys in
        let (size, e, h1) = >>=-ok (or_raise found tick_size_unavailable) _ h in
        let (value, _, h2) = >>=-ok (tick_value_of _ _ ccy _ size _) _ h1 in
        let same : size ≡ t.tick_size = ap (λ t. t.tick_size) (ok-injective h2) in
        subst (λ x. is_unusable x ≡ false) same
          (positive_number-usable (mappings p) tick_size_keys (or_raise-some found _ e))

    volume_limits-IsBounded :
        (p : SymbolParams F) (scale : F) {v : VolumeLimits F}
        → volume_limits parse p scale ≡ ok v
        → IsBounded v
    unfolding volume_limits
    volume_limits-IsBounded p scale {v} h =
        let (least, e1, h1) = >>=-ok (volume_constraint parse (mappings p) _ _ scale _) _ h in
        let (step, e2, h2) = >>=-ok (volume_constraint parse (mappings p) _ _ scale _) _ h1 in
        let (most, e3, h3) = >>=-ok (volume_constraint parse (mappings p) _ _ scale _) _ h2 in
        let (sane, h4) = >>-ok (is_insane least step most) constraint_insane _ h3 in
        let (ordered, h5) = >>-ok (fl.lt most least) maximum_below_minimum _ h4 in
        subst IsBounded (ok-injective h5) (record {
          minimum = constraint-usable (mappings p) _ _ scale _ e1;
          step = constraint-usable (mappings p) _ _ scale _ e2;
          maximum = constraint-usable (mappings p) _ _ scale _ e3;
          minimum_lot = (insane least step most sane).0;
          maximum_lot = (insane least step most sane).1;
          ordered = ordered;
        })

    spec_of-IsUsable :
        (env_scale : Option Text) (p : SymbolParams F) (ccy : Text) {spec : SymbolRiskSpec F}
        → is_empty ccy ≡ false
        → spec_of parse env_scale p ccy ≡ ok spec
        → IsUsable spec
    unfolding spec_of
    spec_of-IsUsable env_scale p ccy {spec} named h =
        let (scale, _, h1) = >>=-ok (volume_scale parse env_scale p) _ h in
        let (ticks, et, h2) = >>=-ok (tick_economics parse p ccy) _ h1 in
        let (limits, el, h3) = >>=-ok (volume_limits parse p scale) _ h2 in
        let b = volume_limits-IsBounded p scale el in
        subst IsUsable (ok-injective h3) (record {
          tick_size = tick_economics-usable p ccy et;
          currency = named;
          minimum = b.minimum;
          step = b.step;
          maximum = b.maximum;
          minimum_lot = b.minimum_lot;
          maximum_lot = b.maximum_lot;
          ordered = b.ordered;
        })

    -- Whatever the broker's metadata holds, a specification comes out of it only with a positive, finite
    -- tick size, positive, finite volume limits, a smallest lot that is not over 1 nor over the largest,
    -- a largest one that is not over 10000, and a named account currency.
    pub build_symbol_risk_spec-IsUsable :
        (env_scale : Option Text) (params : Option (SymbolParams F)) (account_currency : Text)
        {spec : SymbolRiskSpec F}
        → build_symbol_risk_spec parse env_scale params account_currency ≡ ok spec
        → IsUsable spec
    unfolding build_symbol_risk_spec
    build_symbol_risk_spec-IsUsable env_scale none account_currency h = absurd (ground arith)
    build_symbol_risk_spec-IsUsable env_scale (some p) account_currency h =
        let (named, h1) =
          >>-ok (is_empty (upper (strip account_currency))) currency_unavailable _ h in
        let (_, h2) =
          >>-ok (is_true (get (codes "_mtapi_volume_units_error") null p.root)) volume_units_error _
            h1 in
        spec_of-IsUsable env_scale p (upper (strip account_currency)) named h2
