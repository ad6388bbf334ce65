-- ===== src/Ui/Attributes.antt =====
-- What is read of attributes that are put together.
use kdelta.Prelude.{
  List, [], ◌∷◌, ◌++◌, Option, none, some, ◌≡◌, refl, sym, Bool-cases, inl, inr, or_some, arith,
  if◌then◌else◌,
}
use kdelta.Text.{Text, text_eq, text_eq_sound}
use kdelta.Ui.{Attributes, attribute, has, rest}

or_some_assoc : {A : Type 0} (a b c : Option A) → or_some (or_some a b) c ≡ or_some a (or_some b c)
or_some_assoc none b c = refl
or_some_assoc (some a) b c = refl

pub or_some-none : {A : Type 0} (a : Option A) → or_some a none ≡ a
or_some-none none = refl
or_some-none (some a) = refl

-- Behind other attributes, later ones win.
pub attribute-append :
    (name : Text) (a b : Attributes)
    → attribute name (a ++ b) ≡ or_some (attribute name b) (attribute name a)
unfolding attribute
attribute-append name [] b = sym (or_some-none (attribute name b))
attribute-append name ((n, v) ∷ a) b =
    rw (attribute-append name a b) (
      or_some_assoc (attribute name b) (attribute name a) (if text_eq n name then some v else none))

-- What is taken out is not read any more, and every other attribute is read as before.
pub attribute-rest :
    (name : Text) (names : List Text) (a : Attributes)
    → attribute name (rest names a) ≡ (if has names name then none else attribute name a)
unfolding attribute rest
attribute-rest name names [] = elim (Bool-cases (has names name)) [
  | inl taken ↦ rw taken refl
  | inr kept ↦ rw kept refl
]
attribute-rest name names ((n, v) ∷ a) =
    ground (arith, text_eq_sound n name, attribute-rest name names a)
