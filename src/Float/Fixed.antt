-- ===== src/Float/Fixed.antt =====
-- Decimals with nine places, which instantiate the parameter: `n : ℤ` stands for n / 10 ^ 9.
-- Products and quotients are cut towards zero, and `round` takes a tie away from zero.
use native.Mathlib.Nat.{mul_comm}
use scalp_tn_aaa.Base.{
  some, ℕ, zero, suc, ◌+◌, ◌-◌, ◌*◌, ◌/◌, ◌%◌, ◌^◌, ◌≤◌, ◌≡◌, refl, true, [], ◌∷◌, ◌++◌, arith, ap,
  ◌∙◌, ◌≢◌, All, All-append,
}
use scalp_tn_aaa.Base.Int.{
  ℤ, pos, negsuc, pos_part, neg_part, ◌+ℤ◌, ◌-ℤ◌, ◌≤ℤ◌, ltb_ℤ, leb_ℤ, int_laws, eq_of_parts,
}
use scalp_tn_aaa.Base.Text.{Text}
use scalp_tn_aaa.Float.Model.{
  Float, IsOrdered, IsMonotone, IsExact, IsSigned, IsNumber, IsRounded, IsFloored,
}

abbrev unit : ℕ
unit = 1_000_000_000

abbrev minus : ℕ → ℤ
minus zero = pos 0
minus (suc n) = negsuc n

-- A function of the size, carried over to both signs.
abbrev on_size : (ℕ → ℕ) → ℤ → ℤ
on_size f (pos n) = pos (f n)
on_size f (negsuc n) = minus (f (suc n))

abbrev opposite : ℤ → ℤ
opposite (pos n) = minus n
opposite (negsuc n) = pos (suc n)

abbrev times : ℤ → ℤ → ℤ
times a (pos c) = on_size (λ n. n * c / unit) a
times a (negsuc c) = opposite (on_size (λ n. n * suc c / unit) a)

abbrev over : ℤ → ℤ → ℤ
over a (pos c) = on_size (λ n. n * unit / c) a
over a (negsuc c) = opposite (on_size (λ n. n * unit / suc c) a)

abbrev places : ℕ → ℕ
places n = 10 ^ (9 - n)

abbrev nearest : ℕ → ℤ → ℤ
nearest n = on_size λ m. (2 * m + places n) / (2 * places n) * places n

abbrev whole_part : ℤ → ℤ
whole_part (pos n) = pos (n / unit * unit)
whole_part (negsuc n) = minus ((n / unit + 1) * unit)

-- The decimal digits of a number below 10 ^ fuel.
abbrev digits : ℕ → ℕ → Text
digits zero n = []
digits (suc fuel) n = digits fuel (n / 10) ++ ((48 + n % 10) ∷ [])

abbrev printed : Text → ℤ → Text
printed _ (pos n) = digits 15 n
printed _ (negsuc n) = b'-' ∷ digits 15 (suc n)

instance abbrev pub fixed : Float ℤ
fixed = record {
  lit = λ n d. pos (n * unit / d);
  add = ◌+ℤ◌;
  sub = ◌-ℤ◌;
  mul = times;
  div = over;
  neg = opposite;
  abs = λ x. pos (pos_part x + neg_part x);
  floor = λ x. some (whole_part x);
  lt = ltb_ℤ;
  le = leb_ℤ;
  is_finite = λ _. true;
  round = nearest;
  fmt = printed;
}

pub fixed-IsOrdered : IsOrdered ℤ
fixed-IsOrdered = ground arith

on_size_mono :
    (f : ℕ → ℕ) (mono : (m n : ℕ) → m ≤ n → f m ≤ f n) (a b : ℤ)
    → a ≤ℤ b
    → on_size f a ≤ℤ on_size f b
on_size_mono f mono (pos m) (pos n) h = ground (arith, mono m n)
on_size_mono f mono (pos m) (negsuc n) h = absurd (omega arith)
on_size_mono f mono (negsuc m) (pos n) h = ground arith
on_size_mono f mono (negsuc m) (negsuc n) h = ground (arith, mono (suc n) (suc m))

pub number : (x : ℤ) → IsNumber x
number x = ground arith

leb-eq_true : (a b : ℤ) → a ≤ℤ b → leb_ℤ a b ≡ true
leb-eq_true a b h = ground arith

le_of_leb : (a b : ℤ) → leb_ℤ a b ≡ true → a ≤ℤ b
le_of_leb a b h = ground arith

times_comm : (a b : ℤ) → times a b ≡ times b a
times_comm (pos m) (pos n) = ap (λ k. pos (k / unit)) (mul_comm m n)
times_comm (pos m) (negsuc n) = ap (λ k. minus (k / unit)) (mul_comm m (suc n))
times_comm (negsuc m) (pos n) = ap (λ k. minus (k / unit)) (mul_comm (suc m) n)
times_comm (negsuc m) (negsuc n) = ap (λ k. opposite (minus (k / unit))) (mul_comm (suc m) (suc n))

sub_mono : (a b c : ℤ) → a ≤ℤ b → a -ℤ c ≤ℤ b -ℤ c
sub_mono a b c h = omega int_laws

times_mono : (a b : ℤ) (c : ℕ) → a ≤ℤ b → times a (pos c) ≤ℤ times b (pos c)
times_mono a b c h = on_size_mono (λ n. n * c / unit) (λ m n le. grind arith) a b h

rounded_mono : (p x y : ℕ) → x ≤ y → (2 * x + p) / (2 * p) * p ≤ (2 * y + p) / (2 * p) * p
rounded_mono p x y h = grind arith

nearest_mono : (n : ℕ) (a b : ℤ) → a ≤ℤ b → nearest n a ≤ℤ nearest n b
nearest_mono n a b h =
    on_size_mono (λ m. (2 * m + places n) / (2 * places n) * places n) (rounded_mono (places n)) a b
      h

product_mono :
    (a b c : ℤ) → leb_ℤ a b ≡ true → leb_ℤ (pos 0) c ≡ true → leb_ℤ (times a c) (times b c) ≡ true
product_mono a b (pos c) h _ =
    leb-eq_true (times a (pos c)) (times b (pos c)) (times_mono a b c (le_of_leb a b h))
product_mono a b (negsuc c) _ h = absurd (ground arith)

opposite_anti : (a b : ℤ) → leb_ℤ a b ≡ true → leb_ℤ (opposite b) (opposite a) ≡ true
opposite_anti (pos zero) (pos zero) h = refl
opposite_anti (pos zero) (pos (suc n)) h = ground arith
opposite_anti (pos (suc m)) (pos zero) h = ground arith
opposite_anti (pos (suc m)) (pos (suc n)) h = ground arith
opposite_anti (negsuc m) (pos zero) h = ground arith
opposite_anti (negsuc m) (pos (suc n)) h = ground arith
opposite_anti (pos zero) (negsuc n) h = ground arith
opposite_anti (pos (suc m)) (negsuc n) h = ground arith
opposite_anti (negsuc m) (negsuc n) h = ground arith

pub fixed-IsMonotone : IsMonotone ℤ
fixed-IsMonotone = record {
  add_number = λ a b _ _. number (fixed.add a b);
  sub_number = λ a b _ _. number (fixed.sub a b);
  mul_number = λ a b _ _. number (fixed.mul a b);
  abs_number = λ a _. number (fixed.abs a);
  neg_anti = opposite_anti;
  mul_comm = times_comm;
  sub_mono = λ a b c h _ _. leb-eq_true (a -ℤ c) (b -ℤ c) (sub_mono a b c (le_of_leb a b h));
  mul_mono = λ a b c h k _ _. product_mono a b c h k;
  round_mono =
      λ n a b h. leb-eq_true (nearest n a) (nearest n b) (nearest_mono n a b (le_of_leb a b h));
}

sub_self : (x : ℤ) → x -ℤ x ≡ pos 0
sub_self x = eq_of_parts (x -ℤ x) (pos 0) (omega int_laws)

zero_over : (x : ℤ) → over (pos 0) x ≡ pos 0
zero_over (pos n) = ground arith
zero_over (negsuc n) = ground arith

zero_times : (k : ℕ) → times (pos 0) (pos k) ≡ pos 0
zero_times k = ground arith

pub fixed-IsExact : IsExact ℤ
fixed-IsExact = record {
  sub_self = λ x _. sub_self x;
  zero_div = λ x _. zero_over x;
  zero_mul = λ n d. zero_times (n * unit / d);
}

sub-le : (a b : ℤ) → pos 0 ≤ℤ a -ℤ b → b ≤ℤ a
sub-le a b h = omega int_laws

add-ge : (x : ℤ) (k : ℕ) → x ≤ℤ x +ℤ pos k
add-ge x k = omega int_laws

quotient_mono : (m n d : ℕ) → m ≤ n → m * unit / d ≤ n * unit / d
quotient_mono m n d h = grind arith

lit_le : (m n d : ℕ) → m ≤ n → pos (m * unit / d) ≤ℤ pos (n * unit / d)
lit_le m n d h = omega (arith, quotient_mono m n d h)

pub fixed-IsSigned : IsSigned ℤ
fixed-IsSigned = record {
  le_of_sub = λ a b h. leb-eq_true b a (sub-le a b (le_of_leb (pos 0) (a -ℤ b) h));
  neg_nought = refl;
  lit_mono = λ m n d h. leb-eq_true (pos (m * unit / d)) (pos (n * unit / d)) (lit_le m n d h);
  le_add = λ x n d _. leb-eq_true x (x +ℤ pos (n * unit / d)) (add-ge x (n * unit / d));
}

nearest_again :
    (m : ℕ)
    → let k = (2 * m + places 2) / (2 * places 2) * places 2 in
      (2 * k + places 2) / (2 * places 2) * places 2 ≡ k
nearest_again m = omega arith

nearest-minus :
    (m : ℕ) → nearest 2 (minus m) ≡ minus ((2 * m + places 2) / (2 * places 2) * places 2)
nearest-minus zero = refl
nearest-minus (suc m) = refl

cents_idem : (x : ℤ) → nearest 2 (nearest 2 x) ≡ nearest 2 x
cents_idem (pos m) = ap pos (nearest_again m)
cents_idem (negsuc m) = nearest-minus _ ∙ ap minus (nearest_again (suc m))

pub fixed-IsFloored : IsFloored ℤ
fixed-IsFloored = record { floor_none = λ x h. absurd (cc) }

pub fixed-IsRounded : IsRounded ℤ
fixed-IsRounded = record { cents_idem = cents_idem }

digits-plain : (fuel n : ℕ) → All (λ c. c ≢ b'D') (digits fuel n)
digits-plain zero n = tt
digits-plain (suc fuel) n =
    All-append {0, 0} (λ c. c ≢ b'D') (digits fuel (n / 10)) ((48 + n % 10) ∷ [])
      (digits-plain fuel (n / 10)) (ground arith)

-- No number is printed with the letter `D`.
pub printed-plain : (spec : Text) (x : ℤ) → All (λ c. c ≢ b'D') (printed spec x)
printed-plain spec (pos n) = digits-plain 15 n
printed-plain spec (negsuc n) = (ground arith, digits-plain 15 (suc n))
