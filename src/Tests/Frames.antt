-- ===== src/Tests/Frames.antt =====
-- The component library, the sidebar's modes, the navigation and the frame.
use kdelta.Prelude.{true, false, List, [], ◌∷◌, ◌++◌, map, none, some, ◌≡◌, refl}
use kdelta.Text.{Text, js, text_eq, decimal}
use kdelta.Ui.{
  Value, string, handler, caller, toggle_sidebar, Attributes, Markup, text, Styling, attr,
  attribute, lit, prop, rest,
}
use kdelta.Ui.Button.{button}
use kdelta.Ui.Tree.{attributes_of}
use kdelta.Sidebar.{Props, Cells}
use kdelta.Sidebar.Toggle.{IsUncontrolled}
use kdelta.Sidebar.Panel.{Context}
use kdelta.Sidebar.Controls.{calls_in, sidebar_trigger}

-- Class names side by side, later ones behind earlier ones; the variants are left out.
abbrev class_text : List Value → Text
class_text [] = []
class_text (string t ∷ vs) = t ++ (b' ' ∷ class_text vs)
class_text (v ∷ vs) = class_text vs

abbrev styling : Styling
unfolding js
styling = record { tw_merge = λ t. t; clsx = class_text; cva = λ c attrs. js c.base }

abbrev given : Attributes
given = attr "className" "wide" ∷ (js "onClick", handler (caller 1 ∷ [])) ∷ []

abbrev page : Markup
page = text (js "the page")

abbrev phone : Context
phone = record { state = js "collapsed"; open_state = false; is_mobile = true; open_mobile = true }

abbrev own : Props
own = record { default_open = true; open_prop = none; has_on_open_change = false }

own-IsUncontrolled : IsUncontrolled own
own-IsUncontrolled = record { no_open = refl; no_handler = refl }

abbrev cells : Cells
cells = record { open_cell = true; open_mobile = false }

-- The trigger of a caller's own handler calls both; the caller's class names come last.
trigger_test :
    (attribute (js "onClick") (attributes_of (sidebar_trigger styling given))
      ≡ some (handler (caller 1 ∷ toggle_sidebar ∷ [])))
    × (attribute (js "data-slot") (attributes_of (sidebar_trigger styling given))
        ≡ some (lit "sidebar-trigger"))
unfolding sidebar_trigger button attribute attr text_eq calls_in prop lit rest
trigger_test = (refl, refl)

pipeline_numbers : map decimal (4 ∷ 12 ∷ 305 ∷ []) ≡ js "4" ∷ js "12" ∷ js "305" ∷ []
unfolding decimal js
pipeline_numbers = refl
