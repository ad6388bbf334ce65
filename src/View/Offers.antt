-- ===== src/View/Offers.antt =====
-- The messages that a tree lets the user send. A disabled element sends nothing, nor does anything
-- below it; an element with `onValueChange` (a select, the tabs) sends it with the value of one of
-- the items below.
use kdelta.Prelude.{Bool, false, List, [], ◌∷◌, ◌++◌, ◌||◌, map, if◌then◌else◌}
use kdelta.Text.{Text}
use kdelta.View.{
  Attr, disabled, value, on_click, on_value_change, Node, empty, text, number, ◌<>◌, element,
}

module _ {Msg : Type 0} where
  abbrev pub is_disabled : List (Attr Msg) → Bool
  is_disabled [] = false
  is_disabled (disabled b ∷ attrs) = b || is_disabled attrs
  is_disabled (a ∷ attrs) = is_disabled attrs

  abbrev pub own_values : List (Attr Msg) → List Text
  own_values [] = []
  own_values (value v ∷ attrs) = v ∷ own_values attrs
  own_values (a ∷ attrs) = own_values attrs

  abbrev pub values : Node Msg → List Text
  values empty = []
  values (text t) = []
  values (number n) = []
  values (a <> b) = values a ++ values b
  values (element tag attrs children) = own_values attrs ++ values children

  abbrev pub own_offers : List (Attr Msg) → List Text → List Msg
  own_offers [] vs = []
  own_offers (on_click m ∷ attrs) vs = m ∷ own_offers attrs vs
  own_offers (on_value_change f ∷ attrs) vs = map f vs ++ own_offers attrs vs
  own_offers (a ∷ attrs) vs = own_offers attrs vs

  abbrev pub offers : Node Msg → List Msg
  offers empty = []
  offers (text t) = []
  offers (number n) = []
  offers (a <> b) = offers a ++ offers b
  offers (element tag attrs children) =
      if is_disabled attrs then [] else own_offers attrs (values children) ++ offers children
