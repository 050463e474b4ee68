-- ===== src/Float/Model.antt =====
-- Python's `float`: the sources only use it, so its operations are a parameter, and what a proof
-- relies on are laws of IEEE 754 arithmetic and of correctly rounded decimals, stated for values
-- that are numbers.
use scalp_tn_aaa.Base.{ℕ, ◌≤◌, ◌≡◌, Bool, true, false, not, ◌⊎◌, if◌then◌else◌, arith, Option, none}
use scalp_tn_aaa.Base.Text.{Text}

pub record Float (F : Type 0) : Type 0 where
  -- `lit n d` is the literal n / d, for d a power of ten.
  pub lit : ℕ → ℕ → F
  pub add : F → F → F
  pub sub : F → F → F
  pub mul : F → F → F
  pub div : F → F → F
  pub neg : F → F
  pub abs : F → F
  -- `math.floor`, which raises for what is not finite.
  pub floor : F → Option F
  pub lt : F → F → Bool
  pub le : F → F → Bool
  pub is_finite : F → Bool
  -- `round n x` is Python's `round(x, n)`.
  pub round : ℕ → F → F
  -- `fmt spec x` is the text of `f"{x:spec}"`.
  pub fmt : Text → F → Text

module _ {F : Type 0} ⦃fl : Float F⦄ where
  infix 4 ◌≼◌
  abbrev pub ◌≼◌ : F → F → Type 0
  x ≼ y = fl.le x y ≡ true

  -- NaN is the one value that is not `<=` itself.
  abbrev pub IsNumber : F → Type 0
  IsNumber x = fl.le x x ≡ true

  abbrev pub gt : F → F → Bool
  gt x y = fl.lt y x

  abbrev pub ge : F → F → Bool
  ge x y = fl.le y x

  abbrev pub nought : F
  nought = fl.lit 0 1

  -- `max(a, b)` and `min(a, b)`: the second argument wins only if it is strictly beyond the first.
  unfoldable pub max : F → F → F
  max a b = if fl.lt a b then b else a

  unfoldable pub min : F → F → F
  min a b = if fl.lt b a then b else a

pub record IsOrdered (F : Type 0) ⦃fl : Float F⦄ : Type 0 where
  pub refl_of_le : (x y : F) → x ≼ y → IsNumber x × IsNumber y
  pub le_trans : (x y z : F) → x ≼ y → y ≼ z → x ≼ z
  pub le_total : (x y : F) → IsNumber x → IsNumber y → (x ≼ y) ⊎ (y ≼ x)
  pub lt-eq : (x y : F) → IsNumber x → IsNumber y → fl.lt x y ≡ not (fl.le y x)
  pub number_of_lt : (x y : F) → fl.lt x y ≡ true → IsNumber x × IsNumber y
  pub number_lit : (n d : ℕ) → IsNumber (fl.lit n d)
  pub number_of_finite : (x : F) → fl.is_finite x ≡ true → IsNumber x

-- Each operation is monotone, and rounding is; `neg` turns an order round. Finite operands give a
-- number; products commute, and `abs` and `round` of a number are numbers.
pub record IsMonotone (F : Type 0) ⦃fl : Float F⦄ : Type 0 where
  pub add_number : (a b : F) → fl.is_finite a ≡ true → fl.is_finite b ≡ true → IsNumber (fl.add a b)
  pub sub_number : (a b : F) → fl.is_finite a ≡ true → fl.is_finite b ≡ true → IsNumber (fl.sub a b)
  pub mul_number : (a b : F) → fl.is_finite a ≡ true → fl.is_finite b ≡ true → IsNumber (fl.mul a b)
  pub abs_number : (a : F) → IsNumber a → IsNumber (fl.abs a)
  pub neg_anti : (a b : F) → a ≼ b → fl.neg b ≼ fl.neg a
  pub mul_comm : (a b : F) → fl.mul a b ≡ fl.mul b a
  pub sub_mono :
      (a b c : F) → a ≼ b → IsNumber (fl.sub a c) → IsNumber (fl.sub b c) → fl.sub a c ≼ fl.sub b c
  pub mul_mono :
      (a b c : F)
      → a ≼ b
      → fl.lit 0 1 ≼ c
      → IsNumber (fl.mul a c)
      → IsNumber (fl.mul b c)
      → fl.mul a c ≼ fl.mul b c
  pub round_mono : (n : ℕ) (a b : F) → a ≼ b → fl.round n a ≼ fl.round n b

-- What is exact about zero: a finite difference with itself, and its multiples and parts.
pub record IsExact (F : Type 0) ⦃fl : Float F⦄ : Type 0 where
  pub sub_self : (x : F) → fl.is_finite x ≡ true → fl.sub x x ≡ fl.lit 0 1
  pub zero_div : (x : F) → fl.lt (fl.lit 0 1) x ≡ true → fl.div (fl.lit 0 1) x ≡ fl.lit 0 1
  pub zero_mul : (n d : ℕ) → fl.mul (fl.lit 0 1) (fl.lit n d) ≡ fl.lit 0 1

-- A difference that is not negative is one of numbers in order, and a literal, which is never
-- negative, does not make a sum smaller; literals keep the order of their
-- numerators, and `-0.0` is not above `0.0`.
pub record IsSigned (F : Type 0) ⦃fl : Float F⦄ : Type 0 where
  pub le_of_sub : (a b : F) → fl.lit 0 1 ≼ fl.sub a b → b ≼ a
  pub neg_nought : fl.neg (fl.lit 0 1) ≼ fl.lit 0 1
  pub lit_mono : (m n d : ℕ) → m ≤ n → fl.lit m d ≼ fl.lit n d
  pub le_add : (x : F) (n d : ℕ) → IsNumber x → x ≼ fl.add x (fl.lit n d)

-- Only what is not finite has no floor.
pub record IsFloored (F : Type 0) ⦃fl : Float F⦄ : Type 0 where
  pub floor_none : (x : F) → fl.floor x ≡ none → fl.is_finite x ≡ false

-- What has two decimals stays as it is when it is rounded to two.
pub record IsRounded (F : Type 0) ⦃fl : Float F⦄ : Type 0 where
  pub cents_idem : (x : F) → fl.round 2 (fl.round 2 x) ≡ fl.round 2 x

module _ {F : Type 0} ⦃fl : Float F⦄ (laws : IsOrdered F) where
  open laws use {refl_of_le, le_total, le_trans, lt-eq, number_of_lt}

  pub le_of_lt : (x y : F) → fl.lt x y ≡ true → x ≼ y
  le_of_lt x y h =
      let (hx, hy) = number_of_lt x y h in ground (arith, lt-eq x y hx hy, le_total x y hx hy)

  pub le_of_not_lt : (x y : F) → IsNumber x → IsNumber y → fl.lt x y ≡ false → y ≼ x
  le_of_not_lt x y hx hy h = ground (arith, lt-eq x y hx hy)

  pub le_max_left : (a b : F) → IsNumber a → a ≼ max a b
  unfolding max
  le_max_left a b ha = ground (arith, le_of_lt a b)

  pub le_max_right : (a b : F) → IsNumber a → IsNumber b → b ≼ max a b
  unfolding max
  le_max_right a b ha hb = ground (arith, le_of_not_lt a b ha hb)

  pub min_le_left : (a b : F) → IsNumber a → min a b ≼ a
  unfolding min
  min_le_left a b ha = ground (arith, le_of_lt b a)

  pub min_le_right : (a b : F) → IsNumber a → IsNumber b → min a b ≼ b
  unfolding min
  min_le_right a b ha hb = ground (arith, le_of_not_lt b a hb ha)

  pub lt_of_lt_of_le : (x y z : F) → fl.lt x y ≡ true → y ≼ z → fl.lt x z ≡ true
  lt_of_lt_of_le x y z h le =
      let (hx, hy) = number_of_lt x y h in
      let (_, hz) = refl_of_le y z le in
      ground (arith, lt-eq x y hx hy, lt-eq x z hx hz, le_trans y z x le)
