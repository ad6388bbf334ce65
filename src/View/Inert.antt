-- ===== src/View/Inert.antt =====
-- Trees that hold no link, no handler and no item to pick.
use mathlib.Core.Path.{ap₂}
use kdelta.Prelude.{
  ℕ, suc, Bool, true, false, ◌&&◌, List, [], ◌∷◌, ◌++◌, Option, none, some, ◌≡◌, refl, arith,
  if◌then◌else◌,
}
use kdelta.Text.{Text}
use kdelta.View.{
  Attr, href, on_click, on_submit, on_value_change, on_change, Node, empty, text, number, ◌<>◌,
  element, each, each_from, show_if, show_some, value,
}
use kdelta.View.Links.{own_links, links}
use kdelta.View.Offers.{own_offers, own_values, offers, values, is_disabled}

-- A sequence is inert where its two sides are.
pub and_intro : (a b : Bool) → a ≡ true → b ≡ true → (a && b) ≡ true
and_intro a b h k = ground arith

and_left : (a b : Bool) → (a && b) ≡ true → a ≡ true
and_left a b h = ground arith

and_right : (a b : Bool) → (a && b) ≡ true → b ≡ true
and_right a b h = ground arith

module _ {Msg : Type 0} where
  abbrev pub inert_attrs : List (Attr Msg) → Bool
  inert_attrs [] = true
  inert_attrs (href u ∷ attrs) = false
  inert_attrs (on_click m ∷ attrs) = false
  inert_attrs (on_submit m ∷ attrs) = false
  inert_attrs (on_value_change f ∷ attrs) = false
  inert_attrs (on_change f ∷ attrs) = false
  inert_attrs (value v ∷ attrs) = false
  inert_attrs (a ∷ attrs) = inert_attrs attrs

  abbrev pub inert : Node Msg → Bool
  inert empty = true
  inert (text t) = true
  inert (number n) = true
  inert (a <> b) = inert a && inert b
  inert (element tag attrs children) = inert_attrs attrs && inert children

  pub inert-each :
      {A : Type 0} (xs : List A) (f : A → Node Msg)
      → ((x : A) → inert (f x) ≡ true)
      → inert (each xs f) ≡ true
  inert-each [] f h = refl
  inert-each (x ∷ xs) f h = rw (h x, inert-each xs f h)

  pub inert-each_from :
      {A : Type 0} (i : ℕ) (xs : List A) (f : ℕ → A → Node Msg)
      → ((i : ℕ) (x : A) → inert (f i x) ≡ true)
      → inert (each_from i xs f) ≡ true
  inert-each_from i [] f h = refl
  inert-each_from i (x ∷ xs) f h = rw (h i x, inert-each_from (suc i) xs f h)

  pub inert-show_if : (b : Bool) (n : Node Msg) → inert n ≡ true → inert (show_if b n) ≡ true
  inert-show_if true n h = h
  inert-show_if false n h = refl

  pub inert-show_some :
      {A : Type 0} (o : Option A) (f : A → Node Msg) (n : Node Msg)
      → ((x : A) → inert (f x) ≡ true)
      → inert n ≡ true
      → inert (show_some o f n) ≡ true
  inert-show_some none f n h k = k
  inert-show_some (some x) f n h k = h x

  own_links-inert : (attrs : List (Attr Msg)) → inert_attrs attrs ≡ true → own_links attrs ≡ []
  own_links-inert [] h = refl
  own_links-inert (href u ∷ attrs) h = cc
  own_links-inert (on_click m ∷ attrs) h = cc
  own_links-inert (on_submit m ∷ attrs) h = cc
  own_links-inert (on_value_change f ∷ attrs) h = cc
  own_links-inert (on_change f ∷ attrs) h = cc
  own_links-inert (value v ∷ attrs) h = cc
  own_links-inert (_ ∷ attrs) h = own_links-inert attrs h

  own_offers-inert :
      (attrs : List (Attr Msg)) (vs : List Text)
      → inert_attrs attrs ≡ true
      → own_offers attrs vs ≡ []
  own_offers-inert [] vs h = refl
  own_offers-inert (href u ∷ attrs) vs h = cc
  own_offers-inert (on_click m ∷ attrs) vs h = cc
  own_offers-inert (on_submit m ∷ attrs) vs h = cc
  own_offers-inert (on_value_change f ∷ attrs) vs h = cc
  own_offers-inert (on_change f ∷ attrs) vs h = cc
  own_offers-inert (value v ∷ attrs) vs h = cc
  own_offers-inert (_ ∷ attrs) vs h = own_offers-inert attrs vs h

  pub links-inert : (n : Node Msg) → inert n ≡ true → links n ≡ []
  links-inert empty h = refl
  links-inert (text t) h = refl
  links-inert (number n) h = refl
  links-inert (a <> b) h =
      ap₂ ◌++◌ (links-inert a (and_left _ _ h)) (links-inert b (and_right _ _ h))
  links-inert (element tag attrs children) h =
      ap₂ ◌++◌ (own_links-inert attrs (and_left _ _ h)) (links-inert children (and_right _ _ h))

  offers_if : (b : Bool) (xs : List Msg) → xs ≡ [] → (if b then [] else xs) ≡ []
  offers_if true xs h = refl
  offers_if false xs h = h

  pub offers-inert : (n : Node Msg) → inert n ≡ true → offers n ≡ []
  offers-inert empty h = refl
  offers-inert (text t) h = refl
  offers-inert (number n) h = refl
  offers-inert (a <> b) h =
      ap₂ ◌++◌ (offers-inert a (and_left _ _ h)) (offers-inert b (and_right _ _ h))
  offers-inert (element tag attrs children) h = offers_if (is_disabled attrs) _ (
      ap₂ ◌++◌ (own_offers-inert attrs (values children) (and_left _ _ h))
        (offers-inert children (and_right _ _ h)))

  own_values-inert : (attrs : List (Attr Msg)) → inert_attrs attrs ≡ true → own_values attrs ≡ []
  own_values-inert [] h = refl
  own_values-inert (href u ∷ attrs) h = cc
  own_values-inert (on_click m ∷ attrs) h = cc
  own_values-inert (on_submit m ∷ attrs) h = cc
  own_values-inert (on_value_change f ∷ attrs) h = cc
  own_values-inert (on_change f ∷ attrs) h = cc
  own_values-inert (value v ∷ attrs) h = cc
  own_values-inert (_ ∷ attrs) h = own_values-inert attrs h

  pub values-inert : (n : Node Msg) → inert n ≡ true → values n ≡ []
  values-inert empty h = refl
  values-inert (text t) h = refl
  values-inert (number n) h = refl
  values-inert (a <> b) h =
      ap₂ ◌++◌ (values-inert a (and_left _ _ h)) (values-inert b (and_right _ _ h))
  values-inert (element tag attrs children) h =
      ap₂ ◌++◌ (own_values-inert attrs (and_left _ _ h)) (values-inert children (and_right _ _ h))

  -- Parts one by one.
  pub links-each :
      {A : Type 0} (xs : List A) (f : A → Node Msg)
      → ((x : A) → links (f x) ≡ [])
      → links (each xs f) ≡ []
  links-each [] f h = refl
  links-each (x ∷ xs) f h = rw (h x) (links-each xs f h)

  pub offers-each :
      {A : Type 0} (xs : List A) (f : A → Node Msg)
      → ((x : A) → offers (f x) ≡ [])
      → offers (each xs f) ≡ []
  offers-each [] f h = refl
  offers-each (x ∷ xs) f h = rw (h x) (offers-each xs f h)

  pub links-show_some_else :
      {A : Type 0} (o : Option A) (f : A → Node Msg) (n : Node Msg)
      → ((x : A) → links (f x) ≡ [])
      → links n ≡ []
      → links (show_some o f n) ≡ []
  links-show_some_else none f n h k = k
  links-show_some_else (some x) f n h k = h x

  pub links-show_some :
      {A : Type 0} (o : Option A) (f : A → Node Msg)
      → ((x : A) → links (f x) ≡ [])
      → links (show_some o f empty) ≡ []
  links-show_some o f h = links-show_some_else o f empty h refl

  pub offers-show_some :
      {A : Type 0} (o : Option A) (f : A → Node Msg)
      → ((x : A) → offers (f x) ≡ [])
      → offers (show_some o f empty) ≡ []
  offers-show_some none f h = refl
  offers-show_some (some x) f h = h x

  pub offers-show_some_else :
      {A : Type 0} (o : Option A) (f : A → Node Msg) (n : Node Msg)
      → ((x : A) → offers (f x) ≡ [])
      → offers n ≡ []
      → offers (show_some o f n) ≡ []
  offers-show_some_else none f n h k = k
  offers-show_some_else (some x) f n h k = h x

  pub offers-show_if : (b : Bool) (n : Node Msg) → offers n ≡ [] → offers (show_if b n) ≡ []
  offers-show_if true n h = h
  offers-show_if false n h = refl

  pub offers-if_else :
      (b : Bool) (m n : Node Msg) → offers m ≡ [] → offers n ≡ [] → offers (if b then m else n) ≡ []
  offers-if_else true m n h k = h
  offers-if_else false m n h k = k

  pub values-show_some :
      {A : Type 0} (o : Option A) (f : A → Node Msg)
      → ((x : A) → values (f x) ≡ [])
      → values (show_some o f empty) ≡ []
  values-show_some none f h = refl
  values-show_some (some x) f h = h x
