-- ===== src/Ui/Tree.antt =====
-- What is read of a tree of markup: the attributes and the content of its outermost element, the
-- words on the page, where it links, and what its click handlers call.
use kdelta.Prelude.{List, [], ◌∷◌, ◌++◌, Option, none, some, String, Bool}
use kdelta.Text.{Text, js}
use kdelta.Ui.{
  Call, Value, string, handler, boolean, Attributes, Markup, empty, text, ◌<>◌, element, attribute,
}

abbrev pub attributes_of : Markup → Attributes
attributes_of (element tag attrs children) = attrs
attributes_of _ = []

abbrev pub content_of : Markup → Markup
content_of (element tag attrs children) = children
content_of _ = empty

abbrev pub tag_of : Markup → Option String
tag_of (element tag attrs children) = some tag
tag_of _ = none

-- The words, in the order of the page.
abbrev pub words : Markup → List Text
words empty = []
words (text t) = t ∷ []
words (m <> n) = words m ++ words n
words (element tag attrs children) = words children

-- The value of one attribute, wherever an element has it, as a string.
abbrev pub strings_of : Option Value → List Text
strings_of (some (string t)) = t ∷ []
strings_of _ = []

unfoldable pub links : Markup → List Text
links empty = []
links (text t) = []
links (m <> n) = links m ++ links n
links (element tag attrs children) = strings_of (attribute (js "href") attrs) ++ links children

abbrev pub calls_of : Option Value → List (List Call)
calls_of (some (handler cs)) = cs ∷ []
calls_of _ = []

-- What each element calls on a click.
unfoldable pub clicks : Markup → List (List Call)
clicks empty = []
clicks (text t) = []
clicks (m <> n) = clicks m ++ clicks n
clicks (element tag attrs children) = calls_of (attribute (js "onClick") attrs) ++ clicks children

abbrev pub booleans_of : Option Value → List Bool
booleans_of (some (boolean b)) = b ∷ []
booleans_of _ = []

-- The values of a Boolean attribute, wherever an element has it.
unfoldable pub flags : Text → Markup → List Bool
flags name empty = []
flags name (text t) = []
flags name (m <> n) = flags name m ++ flags name n
flags name (element tag attrs children) = booleans_of (attribute name attrs) ++ flags name children
