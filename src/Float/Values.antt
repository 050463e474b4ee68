-- ===== src/Float/Values.antt =====
-- The objects in a row that the broker's bridge sends: what `str` and `float` make of each, and a
-- `dict` with text keys as an association list in insertion order.
use scalp_tn_aaa.Base.{
  ◌≡◌, refl, Bool, true, false, Option, none, some, List, [], ◌∷◌, arith, if◌then◌else◌, Bool-cases,
  inl, inr,
}
use scalp_tn_aaa.Base.Text.{Text, codes, text_eq, text_eq_iff}
use scalp_tn_aaa.Float.Model.{Float}

-- A number, `int` or `float`, comes with the text that `str` gives it; `other` is any other object
-- with its text.
pub data Value (F : Type 0) : Type 0 where
  null : Value F
  boolean : Bool → Value F
  number : Text → F → Value F
  string : Text → Value F
  other : Text → Value F

abbrev pub Fields : Type 0 → Type 0
Fields F = List (Text × Value F)

-- `text_eq` as the test of a key.
module _ {V : Type 0} where
  -- `d.get(k)`
  unfoldable pub find : Text → List (Text × V) → Option V
  find k [] = none
  find k (e ∷ d) = if text_eq k e.0 then some e.1 else find k d

  -- `d[k] = v`
  unfoldable pub put : Text → V → List (Text × V) → List (Text × V)
  put k v [] = (k, v) ∷ []
  put k v (e ∷ d) = let rest = put k v d in if text_eq k e.0 then (k, v) ∷ d else e ∷ rest

module _ {F : Type 0} where
  abbrev pub is_boolean : Value F → Bool
  is_boolean (boolean _) = true
  is_boolean _ = false

  abbrev pub is_null : Value F → Bool
  is_null null = true
  is_null _ = false

  -- `d.get(k, default)`
  abbrev pub or_default : Option (Value F) → Value F → Value F
  or_default none v = v
  or_default (some x) v = x

  abbrev pub get : Text → Value F → Fields F → Value F
  get k v d = or_default (find k d) v

  -- `str(value)`
  unfoldable pub str : Value F → Text
  str null = codes "None"
  str (boolean true) = codes "True"
  str (boolean false) = codes "False"
  str (number t _) = t
  str (string t) = t
  str (other t) = t

module _ {F : Type 0} ⦃fl : Float F⦄ where
  -- `float(value)`, `none` where it raises a TypeError or a ValueError; `parse` is `float` of a text.
  unfoldable pub float_of : (Text → Option F) → Value F → Option F
  float_of parse null = none
  float_of parse (boolean true) = some (fl.lit 1 1)
  float_of parse (boolean false) = some (fl.lit 0 1)
  float_of parse (number _ x) = some x
  float_of parse (string t) = parse t
  float_of parse (other _) = none

-- Each key stands once.
module _ {V : Type 0} where
  unfoldable pub IsDistinct : List (Text × V) → Type 0
  IsDistinct [] = Unit
  IsDistinct (e ∷ d) = (find e.0 d ≡ none) × IsDistinct d

  pub find-put :
      (j k : Text) (v : V) (d : List (Text × V))
      → find j (put k v d) ≡ (if text_eq j k then some v else find j d)
  unfolding find put
  find-put j k v [] = refl
  find-put j k v (e ∷ d) =
      ground (arith, find-put j k v d, text_eq_iff j k, text_eq_iff j e.0, text_eq_iff k e.0)

  pub put-IsDistinct :
      (k : Text) (v : V) (d : List (Text × V)) → IsDistinct d → IsDistinct (put k v d)
  unfolding IsDistinct find put
  put-IsDistinct k v [] h = (refl, tt)
  put-IsDistinct k v (e ∷ d) (fresh, rest) = elim (Bool-cases (text_eq k e.0)) [
    | inl same ↦ rw same (rw ((text_eq_iff k e.0).0 same) fresh, rest)
    | inr differ ↦ rw differ (
      ground (arith, find-put e.0 k v d, text_eq_iff e.0 k, text_eq_iff k e.0),
      put-IsDistinct k v d rest,
    )
  ]
