-- ===== src/Signals/Range/Edges.antt =====
-- live_trading/signals/range_strategy.py: what a valid range entry rests on.
use scalp_tn_aaa.Base.{
  ℕ, ◌+◌, ◌≤◌, ◌≡◌, ◌⊎◌, ◌||◌, refl, Bool, true, false, Option, none, some, List, arith, length,
  ltb, last_at, if◌then◌else◌, not,
}
use scalp_tn_aaa.Float.{Float}
use scalp_tn_aaa.Entry.Policy.{is_side}
use scalp_tn_aaa.Risk.Trailing.{Candle}
use scalp_tn_aaa.Signals.Confidence.{PriceActionResult}
use scalp_tn_aaa.Signals.Range.{
  RangeContext, RangeRequest, RangeLocation, is_edge_of, is_accepted, range_reason, reversal_of,
  latest_sweep, context_at, context_or_neutral, neutral_context, range_atr, evaluate_range_entry,
}

-- The two ways out before the context.
measured : (b : Bool) (n m : ℕ) → (not b || ltb n m) ≡ false → (b ≡ true) × (m ≤ n)
measured b n m h = ground arith

module _ {F : Type 0} where
  range_reason-Accepted :
      (r : RangeRequest F) (location : RangeLocation) (sweep reversal : Bool)
      → is_accepted (range_reason r location sweep reversal) ≡ true
      → (r.min_confirmations ≤ r.confirmation_count)
        × ((r.strict_filters ≡ false)
            ⊎ (((r.require_edge_position ≡ false) ⊎ (is_edge_of r.direction location ≡ true))
                × (sweep ≡ true)
                × (reversal ≡ true)))
  unfolding range_reason
  range_reason-Accepted r location sweep reversal h = ground arith

module _ {F : Type 0} ⦃fl : Float F⦄ where
  -- What a valid context rests on.
  pub record IsGrounded (candles : List (Candle F)) (pa : PriceActionResult F) (r : RangeRequest F)
      (c : RangeContext F) : Type 0 where
    pub confirmed : r.min_confirmations ≤ r.confirmation_count
    pub direction_eq : c.direction ≡ r.direction
    pub filtered :
        (r.strict_filters ≡ false)
        ⊎ (((r.require_edge_position ≡ false) ⊎ (is_edge_of r.direction c.location ≡ true))
            × (latest_sweep candles r.direction ≡ true)
            × (reversal_of pa r.direction ≡ true))

  -- A test that gives the neutral context has failed where the context is valid.
  past_guard :
      (P : RangeContext F → Type 0) (b : Bool) (n : ℕ) (c : RangeContext F)
      → (c.valid ≡ true → P c)
      → (if b then neutral_context n else c).valid ≡ true
      → (b ≡ false) × P (if b then neutral_context n else c)
  past_guard P true n c f h = absurd (ground arith)
  past_guard P false n c f h = (refl, f h)

  context_at-IsGrounded :
      (atr : F) (candles : List (Candle F)) (pa : PriceActionResult F) (r : RangeRequest F)
      (support resistance : F) (signal : Candle F)
      → (context_at atr candles pa r support resistance signal).valid ≡ true
      → IsGrounded candles pa r (context_at atr candles pa r support resistance signal)
  unfolding context_at
  context_at-IsGrounded atr candles pa r support resistance signal h =
      let c = context_at atr candles pa r support resistance signal in
      let (confirmed, filtered) =
        range_reason-Accepted r c.location (latest_sweep candles r.direction)
          (reversal_of pa r.direction) h in
      record { confirmed = confirmed; direction_eq = rw h; filtered = filtered }

  context_or_neutral-IsGrounded :
      (atr : F) (candles : List (Candle F)) (pa : PriceActionResult F) (r : RangeRequest F)
      (o : Option (Candle F))
      → (context_or_neutral atr candles pa r o).valid ≡ true
      → IsGrounded candles pa r (context_or_neutral atr candles pa r o)
  context_or_neutral-IsGrounded atr candles pa r none h = absurd (ground arith)
  context_or_neutral-IsGrounded atr candles pa r (some signal) h =
      (past_guard (IsGrounded candles pa r) _ r.confirmation_count _
        (context_at-IsGrounded atr candles pa r _ _ signal) h).1

  -- A range entry is valid only for a purchase or a sale, over enough candles, with enough
  -- confirmations, and, where the strict filters are on, after a sweep in its direction and with a
  -- reversal candle, at its own edge if the edge is required; the context names the direction.
  pub valid_range-IsGrounded :
      (sum : List F → F) (candles : List (Candle F)) (pa : PriceActionResult F) (r : RangeRequest F)
      → (evaluate_range_entry sum candles pa r).valid ≡ true
      → (is_side r.direction ≡ true)
        × (r.lookback + 1 ≤ length candles)
        × IsGrounded candles pa r (evaluate_range_entry sum candles pa r)
  unfolding evaluate_range_entry
  valid_range-IsGrounded sum candles pa r h =
      let (open_gate, grounded) =
        past_guard (IsGrounded candles pa r) _ r.confirmation_count _
          (context_or_neutral-IsGrounded (range_atr sum candles) candles pa r (last_at 1 candles))
          h in
      let (side, enough) =
        measured (is_side r.direction) (length candles) (r.lookback + 1) open_gate in
      (side, enough, grounded)
