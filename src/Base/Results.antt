-- ===== src/Base/Results.antt =====
-- Python's exceptions as values: a call returns, or it raises.
use mathlib.Core.Path.{◌≡◌, refl}
use mathlib.Core.Logic.{◌≢◌, ◌⊎◌, inl, inr}
use mathlib.Core.Bool.{Bool, true, false}

pub data Result (E A : Type 0) : Type 0 where
  ok : A → Result E A
  err : E → Result E A

abbrev pub raise_if : {E : Type 0} → Bool → E → Result E (Unit {0})
raise_if true e = err e
raise_if false e = ok tt

module _ {E A : Type 0} where
  infixl 5 ◌>>=◌ ◌>>◌
  abbrev pub ◌>>=◌ : {B : Type 0} → Result E A → (A → Result E B) → Result E B
  ok a >>= f = f a
  err e >>= f = err e

  abbrev pub ◌>>◌ : Result E (Unit {0}) → Result E A → Result E A
  ok _ >> k = k
  err e >> k = err e

  -- Inversion of a bind that succeeded, for proofs in which its parts stay shut.
  pub >>=-ok :
      {B : Type 0} (m : Result E A) (f : A → Result E B) {b : B}
      → (m >>= f) ≡ ok b
      → (a : A) × (m ≡ ok a) × (f a ≡ ok b)
  >>=-ok (ok a) f h = (a, refl, h)
  >>=-ok (err e) f h = cc

  pub >>-ok :
      (t : Bool) (e : E) (k : Result E A) {b : A}
      → (raise_if t e >> k) ≡ ok b
      → (t ≡ false) × (k ≡ ok b)
  >>-ok true e k h = cc
  >>-ok false e k h = (refl, h)

  pub Result-cases : (r : Result E A) → ((a : A) × (r ≡ ok a)) ⊎ ((e : E) × (r ≡ err e))
  Result-cases (ok a) = inl (a, refl)
  Result-cases (err e) = inr (e, refl)

  -- A chain does not raise what none of its steps raises.
  pub >>=-spares :
      {B : Type 0} {e : E} (m : Result E A) (f : A → Result E B)
      → m ≢ err e
      → ((a : A) → f a ≢ err e)
      → (m >>= f) ≢ err e
  >>=-spares (ok a) f first rest h = rest a h
  >>=-spares (err e) f first rest h = first cc

  -- The same, where the rest may rely on what the first step returned.
  pub >>=-avoids :
      {B : Type 0} {e : E} (m : Result E A) (f : A → Result E B)
      → m ≢ err e
      → ((a : A) → m ≡ ok a → f a ≢ err e)
      → (m >>= f) ≢ err e
  >>=-avoids (ok a) f first rest h = rest a refl h
  >>=-avoids (err e) f first rest h = first cc

  pub >>-spares :
      {e : E} (t : Bool) (d : E) (k : Result E A) → d ≢ e → k ≢ err e → (raise_if t d >> k) ≢ err e
  >>-spares true d k first rest h = first cc
  >>-spares false d k first rest h = rest h

  pub ok-injective : {a b : A} → ◌≡◌ {A = Result E A} (ok a) (ok b) → a ≡ b
  ok-injective h = cc

module _ {E A B C : Type 0} where
  pub >>=-assoc :
      (m : Result E A) (f : A → Result E B) (g : B → Result E C)
      → ((m >>= f) >>= g) ≡ (m >>= λ a. f a >>= g)
  >>=-assoc (ok a) f g = refl
  >>=-assoc (err e) f g = refl

-- Whatever a computation raises satisfies `P`, with a rule for each way to chain.
module _ {E : Type 0} where
  unfoldable pub Raises : {A : Type 0} → (E → Type 0) → Result E A → Type 0
  Raises P (ok a) = Unit {0}
  Raises P (err e) = P e

module _ {E A : Type 0} (P : E → Type 0) where
  pub ok-Raises : (a : A) → Raises P (ok a)
  unfolding Raises
  ok-Raises a = tt

  pub raise_if-Raises :
      (t : Bool) (e : E) (k : Result E A)
      → (t ≡ true → P e)
      → Raises P k
      → Raises P (raise_if t e >> k)
  unfolding Raises
  raise_if-Raises true e k p q = p refl
  raise_if-Raises false e k p q = q

  pub >>=-Raises :
      {B : Type 0} (m : Result E A) (f : A → Result E B)
      → Raises P m
      → ((a : A) → m ≡ ok a → Raises P (f a))
      → Raises P (m >>= f)
  unfolding Raises
  >>=-Raises (ok a) f p q = q a refl
  >>=-Raises (err e) f p q = p
