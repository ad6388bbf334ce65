-- ===== src/Api/Enum.antt =====
-- The object of a generated enum, which gives a number's name: `LinkKind[kind]`.
use kdelta.Prelude.{ℕ, List, [], ◌∷◌, Option, none, some, ◌==◌, if◌then◌else◌}
use kdelta.Text.{Text}

unfoldable pub name_of : List (ℕ × Text) → ℕ → Option Text
name_of [] value = none
name_of ((n, name) ∷ names) value = if n == value then some name else name_of names value
