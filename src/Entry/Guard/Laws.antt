-- ===== src/Entry/Guard/Laws.antt =====
-- The drift guard on the execution price.
use scalp_tn_aaa.Base.{◌≡◌, ◌↔◌, true, false, arith}
use scalp_tn_aaa.Base.Text.{Text}
use scalp_tn_aaa.Float.{Float, IsOrdered, IsMonotone, IsNumber, ◌≼◌, nought}
use scalp_tn_aaa.Entry.Policy.{is_side, normalized}
use scalp_tn_aaa.Entry.Guard.{validate_entry_price_distance, compare_distance}

module _ {F : Type 0} ⦃fl : Float F⦄ where
  -- What market data must satisfy before distances are compared.
  record IsMarketData (signal execution atr limit : F) : Type 0 where
    pub finite_signal : fl.is_finite signal ≡ true
    pub finite_execution : fl.is_finite execution ≡ true
    pub finite_atr : fl.is_finite atr ≡ true
    pub finite_limit : fl.is_finite limit ≡ true
    pub positive_signal : fl.le signal nought ≡ false
    pub positive_execution : fl.le execution nought ≡ false
    pub positive_atr : fl.le atr nought ≡ false
    pub positive_limit : fl.le limit nought ≡ false

  -- The guard lets an entry pass exactly if the direction is BUY or SELL, the four numbers are
  -- finite and positive, and the rounded drift does not exceed the rounded limit.
  validate_entry_price_distance_iff :
      (direction : Text) (signal execution atr limit : F)
      → ((validate_entry_price_distance direction signal execution atr limit).allowed ≡ true) ↔ (
          (is_side (normalized direction) ≡ true)
          × IsMarketData signal execution atr limit
          × (fl.lt (fl.round 6 (fl.mul atr limit)) (fl.round 6 (fl.abs (fl.sub execution signal)))
              ≡ false))
  unfolding validate_entry_price_distance compare_distance
  validate_entry_price_distance_iff direction signal execution atr limit = ground arith

  module _ (laws : IsOrdered F) (mono : IsMonotone F) where
    open laws use {le_trans, le_total, lt-eq, number_lit, number_of_finite}
    open mono use {sub_number, mul_number, abs_number, mul_comm, mul_mono, round_mono}

    -- The rounded limit grows with the limit.
    limit_mono :
        (atr narrow wide : F)
        → fl.is_finite atr ≡ true
        → fl.is_finite narrow ≡ true
        → fl.is_finite wide ≡ true
        → fl.le atr nought ≡ false
        → narrow ≼ wide
        → fl.round 6 (fl.mul atr narrow) ≼ fl.round 6 (fl.mul atr wide)
    limit_mono atr narrow wide fa fn fw pos le =
        let positive : nought ≼ atr =
          ground (arith, le_total nought atr (number_lit 0 1) (number_of_finite atr fa)) in
        round_mono 6 _ _ (
          rw (mul_comm atr narrow, mul_comm atr wide)
            (mul_mono narrow wide atr le positive (mul_number narrow atr fn fa)
              (mul_number wide atr fw fa)))

    -- What is not beyond a limit is not beyond a greater one.
    not_lt_mono : (d m n : F) → IsNumber d → m ≼ n → fl.lt m d ≡ false → fl.lt n d ≡ false
    not_lt_mono d m n hd le h =
        let (hm, hn) = laws.refl_of_le m n le in
        ground (arith, lt-eq m d hm hd, lt-eq n d hn hd, le_trans d m n)

    -- A wider finite limit never refuses an entry that a narrower one lets pass, on the same
    -- quotes.
    pub wider_limit_allows :
        (direction : Text) (signal execution atr narrow wide : F)
        → (validate_entry_price_distance direction signal execution atr narrow).allowed ≡ true
        → fl.is_finite wide ≡ true
        → narrow ≼ wide
        → (validate_entry_price_distance direction signal execution atr wide).allowed ≡ true
    wider_limit_allows direction signal execution atr narrow wide e finite le =
        let (side, d, near) =
          (validate_entry_price_distance_iff direction signal execution atr narrow).0 e in
        let moved = abs_number _ (sub_number execution signal d.finite_execution d.finite_signal) in
        let grown =
          limit_mono atr narrow wide d.finite_atr d.finite_limit finite d.positive_atr le in
        let still = not_lt_mono _ _ _ (round_mono 6 _ _ moved) grown near in
        let positive : fl.le wide nought ≡ false =
          ground (arith, le_trans narrow wide nought le, d.positive_limit) in
        (validate_entry_price_distance_iff direction signal execution atr wide).1 (
          side,
          record {
            finite_signal = d.finite_signal;
            finite_execution = d.finite_execution;
            finite_atr = d.finite_atr;
            finite_limit = finite;
            positive_signal = d.positive_signal;
            positive_execution = d.positive_execution;
            positive_atr = d.positive_atr;
            positive_limit = positive;
          },
          still,
        )
