-- ===== src/Enums/Labels.antt =====
-- What the labels can hold.
use kdelta.Prelude.{ℕ, ◌≤◌, ◌⊎◌, List, [], ◌∷◌, ◌≢◌, arith, All, get_or}
use kdelta.Text.{Text, js, display_name, lower_unit, underscore_to_space}
use kdelta.Api.Enum.{name_of}
use kdelta.Enums.{enum_label, or_else}

-- A unit of a label: no underscore and no ASCII capital.
pub record IsLabelUnit (c : ℕ) : Type 0 where
  pub no_underscore : c ≢ b'_'
  pub no_capital : (c ≤ 64) ⊎ (91 ≤ c)

unit-IsLabelUnit : (c : ℕ) → IsLabelUnit (underscore_to_space (lower_unit c))
unfolding underscore_to_space lower_unit
unit-IsLabelUnit c = ground arith

display_name-IsLabelUnit : (s : Text) → All IsLabelUnit (display_name s)
unfolding display_name
display_name-IsLabelUnit [] = tt
display_name-IsLabelUnit (c ∷ s) = (unit-IsLabelUnit c, display_name-IsLabelUnit s)

or_else-label :
    (s t : Text)
    → All IsLabelUnit s
    → All IsLabelUnit t
    → t ≢ []
    → (or_else s t ≢ []) × All IsLabelUnit (or_else s t)
or_else-label [] t hs ht h = (h, ht)
or_else-label (c ∷ s) t hs ht h = ((λ e. cc), hs)

unknown-label : (js "unknown" ≢ []) × All IsLabelUnit (js "unknown")
unfolding js
unknown-label = ((λ e. cc), omega arith)

-- Whatever the names of the enum and the value, the label is not empty and has neither an
-- underscore nor an ASCII capital.
enum_label-IsLabelUnit :
    (enum_obj : List (ℕ × Text)) (value : ℕ)
    → (enum_label enum_obj value ≢ []) × All IsLabelUnit (enum_label enum_obj value)
unfolding enum_label
enum_label-IsLabelUnit enum_obj value =
    or_else-label (display_name (get_or (name_of enum_obj value) [])) (js "unknown")
      (display_name-IsLabelUnit _) unknown-label.1 unknown-label.0
