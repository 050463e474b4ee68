-- ===== src/Signals/Filter/Confirmed.antt =====
-- The entry filter in front of the entry policy.
use mathlib.Core.Path.{subst}
use mathlib.Core.Bool.{true≢false}
use scalp_tn_aaa.Base.{
  ◌≡◌, refl, sym, ◌∙◌, Bool, true, false, not, ◌&&◌, Option, some, arith, if◌then◌else◌, ◌⊎◌, inl,
  inr, Bool-cases,
}
use scalp_tn_aaa.Base.Text.{Text, codes, text_eq, text_eq_iff, text_eq_refl, upper, strip}
use scalp_tn_aaa.Float.{Float}
use scalp_tn_aaa.Entry.Policy.{
  buy, sell, neutral, is_side, Decision, PriceAction, Verdict, permitted, unstructured_price_action,
  evaluate_confirmation, has_structural_confirmation, trend_direction, pa_direction,
  pa_standalone_confirmed,
}
use scalp_tn_aaa.Signals.Filter.{
  FilterInput, vote, trend_vote, select_independent_direction, authorize, apply_entry_filter,
  blocked_entry,
}
use scalp_tn_aaa.Signals.Filter.Laws.{select_cases, vote-vote, vote-trend_vote}

bullish-side : trend_direction (some (codes "BULLISH")) ≡ trend_vote (codes "BULLISH")
unfolding trend_vote vote trend_direction text_eq upper strip
bullish-side = refl

bearish-side : trend_direction (some (codes "BEARISH")) ≡ trend_vote (codes "BEARISH")
unfolding trend_vote vote trend_direction text_eq upper strip
bearish-side = refl

vote-neutral : vote neutral ≡ neutral
unfolding vote text_eq
vote-neutral = refl

other_trend :
    (t : Text)
    → text_eq t (codes "BULLISH") ≡ false
    → text_eq t (codes "BEARISH") ≡ false
    → trend_vote t ≡ neutral
unfolding trend_vote
other_trend t h k = rw (h, k) vote-neutral

-- The policy reads a trend as the filter does.
same_side : (t : Text) → (trend_direction (some t) ≡ trend_vote t) ⊎ (trend_vote t ≡ neutral)
same_side t = elim (Bool-cases (text_eq t (codes "BULLISH"))) [
  | inl e ↦ inl (
      subst (λ x. trend_direction (some x) ≡ trend_vote x)
        (sym ((text_eq_iff t (codes "BULLISH")).0 e)) bullish-side)
  | inr e ↦ elim (Bool-cases (text_eq t (codes "BEARISH"))) [
    | inl f ↦ inl (
        subst (λ x. trend_direction (some x) ≡ trend_vote x)
          (sym ((text_eq_iff t (codes "BEARISH")).0 f)) bearish-side)
    | inr f ↦ inr (other_trend t e f)
  ]
]

side_of_vote : (t : Text) → ((is_side (vote t) ≡ true) × (vote t ≡ t)) ⊎ (vote t ≡ neutral)
unfolding vote
side_of_vote t = ground arith

upper-side : (d : Text) → is_side d ≡ true → upper d ≡ d
unfolding upper
upper-side d h = elim (Bool-cases (text_eq d buy)) [
  | inl e ↦ subst (λ x. upper x ≡ x) (sym ((text_eq_iff d buy).0 e)) refl
  | inr e ↦ subst (λ x. upper x ≡ x) (sym ((text_eq_iff d sell).0 (ground arith))) refl
]

abbrev confirmed : Bool → Option PriceAction → Text → Verdict
confirmed trend pa d =
    if not trend && not (has_structural_confirmation pa d)
    then unstructured_price_action
    else permitted

module _ {F : Type 0} ⦃fl : Float F⦄ where
  -- The policy's checks, for flags that the filter can have given.
  confirm :
      (dec : Decision F) (d : Text) (trend pa : Bool)
      → dec.entry_filter ≡ some (record { trend = trend; price_action = pa })
      → ((trend ≡ true) × (text_eq (trend_direction dec.trend) d ≡ true))
        ⊎ ((trend ≡ false) × (pa ≡ true) × (text_eq d (pa_direction dec.pa) ≡ true))
      → evaluate_confirmation dec d ≡ (
          if not trend && not (has_structural_confirmation dec.pa d)
          then unstructured_price_action
          else permitted)
  unfolding evaluate_confirmation pa_standalone_confirmed
  confirm dec d trend pa f h = ground arith

  module _ (pa_min : F) where
    abbrev chosen : FilterInput F → Text
    chosen i = select_independent_direction pa_min (trend_vote i.ema_trend) (vote i.pa_signal) i

    -- The result of an entry that the filter allows.
    allowed_result :
        (i : FilterInput F)
        → (apply_entry_filter pa_min i).allowed ≡ true
        → let r = apply_entry_filter pa_min i in
          (text_eq (chosen i) neutral ≡ false)
          × (r.direction ≡ chosen i)
          × (r.trend ≡ text_eq (trend_vote i.ema_trend) (chosen i))
          × (r.price_action ≡ text_eq (vote i.pa_signal) (chosen i))
    unfolding apply_entry_filter authorize
    allowed_result i h = elim (Bool-cases (text_eq (chosen i) neutral)) [
      | inl e ↦ absurd (true≢false (sym h ∙ rw e refl))
      | inr e ↦ (
        e,
        let k =
              subst
                (λ b.
                  (if b
                    then blocked_entry
                    else authorize pa_min (trend_vote i.ema_trend) (vote i.pa_signal) (chosen i)
                        i).allowed
                  ≡ true)
                e h in
            rw (e, k) refl,
        rw e refl,
        rw e refl,
      )
    ]

    -- One of the engines votes for the direction.
    voted :
        (i : FilterInput F)
        → text_eq (chosen i) neutral ≡ false
        → (text_eq (trend_vote i.ema_trend) (chosen i) ≡ true)
          ⊎ (text_eq (vote i.pa_signal) (chosen i) ≡ true)
    voted i away =
        elim (select_cases pa_min (trend_vote i.ema_trend) (vote i.pa_signal) i
          (vote-trend_vote i.ema_trend) (vote-vote i.pa_signal)) [
            | inl (_, e) ↦ inl (rw e (text_eq_refl (trend_vote i.ema_trend)))
            | inr (inl (_, e)) ↦ inl (rw e (text_eq_refl (trend_vote i.ema_trend)))
            | inr (inr (inl (_, e))) ↦ inr (rw e (text_eq_refl (vote i.pa_signal)))
            | inr (inr (inr e)) ↦ absurd (ground (arith, text_eq_iff (chosen i) neutral))
          ]

    trend_confirms :
        (t d : Text)
        → text_eq (trend_vote t) d ≡ true
        → text_eq d neutral ≡ false
        → text_eq (trend_direction (some t)) d ≡ true
    trend_confirms t d h away =
        ground (arith, same_side t, text_eq_iff (trend_vote t) d, text_eq_iff d neutral)

    pa_confirms :
        (p d : Text)
        → text_eq (vote p) d ≡ true
        → text_eq d neutral ≡ false
        → text_eq d (upper p) ≡ true
    pa_confirms p d h away = ground (
      arith,
      side_of_vote p,
      upper-side p,
      text_eq_iff (vote p) d,
      text_eq_iff d neutral,
      text_eq_iff d (upper p),
    )

    flags :
        (i : FilterInput F) (dec : Decision F) (pa : PriceAction)
        → let r = apply_entry_filter pa_min i in
          r.allowed ≡ true
          → dec.trend ≡ some i.ema_trend
          → dec.pa ≡ some pa
          → pa.pa_signal ≡ i.pa_signal
          → ((r.trend ≡ true) × (text_eq (trend_direction dec.trend) (chosen i) ≡ true))
            ⊎ ((r.trend ≡ false)
                × (r.price_action ≡ true)
                × (text_eq (chosen i) (pa_direction dec.pa) ≡ true))
    flags i dec pa allowed ht hp hs =
        let r = apply_entry_filter pa_min i in
        let (away, _, trend_eq, pa_eq) = allowed_result i allowed in
        elim (Bool-cases r.trend) [
          | inl e ↦ inl (e, rw ht (trend_confirms i.ema_trend (chosen i) (sym trend_eq ∙ e) away))
          | inr e ↦ elim (voted i away) [
            | inl v ↦ absurd (true≢false (sym v ∙ sym trend_eq ∙ e))
            | inr v ↦ inr (e, pa_eq ∙ v, rw (hp, hs) (pa_confirms i.pa_signal (chosen i) v away))
          ]
        ]

    -- A decision that carries an entry which the filter allows, with the filter's direction and flags
    -- and the engines' results that the filter read, passes the policy's confirmation, with one
    -- exception: Price Action alone is turned down when it has no structural event.
    pub filter_then_policy :
        (i : FilterInput F) (dec : Decision F) (pa : PriceAction)
        → let r = apply_entry_filter pa_min i in
          r.allowed ≡ true
          → dec.trend ≡ some i.ema_trend
          → dec.pa ≡ some pa
          → pa.pa_signal ≡ i.pa_signal
          → dec.entry_filter ≡ some (record { trend = r.trend; price_action = r.price_action })
          → evaluate_confirmation dec r.direction ≡ (
              if not r.trend && not (has_structural_confirmation (some pa) r.direction)
              then unstructured_price_action
              else permitted)
    filter_then_policy i dec pa allowed ht hp hs hf =
        let r = apply_entry_filter pa_min i in
        let (_, hd, _, _) = allowed_result i allowed in
        let step =
          confirm dec (chosen i) r.trend r.price_action hf (flags i dec pa allowed ht hp hs) in
        rw hd (
          subst (λ o. evaluate_confirmation dec (chosen i) ≡ confirmed r.trend o (chosen i)) hp
            step)
