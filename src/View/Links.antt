-- ===== src/View/Links.antt =====
-- The targets of the anchors of a tree, in order.
use kdelta.Prelude.{List, [], ◌∷◌, ◌++◌, some}
use kdelta.Text.{Text}
use kdelta.View.{Attr, href, Node, empty, text, number, ◌<>◌, element}

module _ {Msg : Type 0} where
  abbrev pub own_links : List (Attr Msg) → List Text
  own_links [] = []
  own_links (href (some url) ∷ attrs) = url ∷ own_links attrs
  own_links (a ∷ attrs) = own_links attrs

  abbrev pub links : Node Msg → List Text
  links empty = []
  links (text t) = []
  links (number n) = []
  links (a <> b) = links a ++ links b
  links (element tag attrs children) = own_links attrs ++ links children
