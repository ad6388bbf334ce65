-- ===== src/Sidebar/Content.antt =====
-- What the sidebar shows in each of its modes, and what a click on its controls calls.
use kdelta.Prelude.{[], ◌∷◌, ◌++◌, some, ◌≡◌, refl, if◌then◌else◌, Bool-cases, inl, inr, or_some}
use kdelta.Text.{js, text_eq}
use kdelta.Ui.{
  Styling, handler, Attributes, toggle_sidebar, Markup, attr, lit, attribute, has, prop, prop_or,
  is_string,
}
use kdelta.Ui.Attributes.{attribute-rest, or_some-none}
use kdelta.Ui.Slot.{slot, attribute-render}
use kdelta.Ui.Button.{button}
use kdelta.Ui.Tree.{words, attributes_of}
use kdelta.Sidebar.Panel.{Context, sidebar, fixed_sidebar, mobile_sidebar, desktop_sidebar}
use kdelta.Sidebar.Controls.{calls_in, sidebar_trigger, sidebar_rail}

module _ (s : Styling) (ctx : Context) (attrs : Attributes) (children : Markup) where
  mobile_sidebar-words :
      words (mobile_sidebar s ctx attrs children)
      ≡ js "Sidebar" ∷ js "Displays the mobile sidebar." ∷ (words children ++ (js "Close" ∷ []))
  unfolding mobile_sidebar slot text_eq attr
  mobile_sidebar-words = refl

  desktop_sidebar-words : words (desktop_sidebar s ctx attrs children) ≡ words children
  unfolding desktop_sidebar
  desktop_sidebar-words = refl

  fixed_sidebar-words : words (fixed_sidebar s attrs children) ≡ words children
  unfolding fixed_sidebar
  fixed_sidebar-words = refl

  -- Whatever the caller gives, the children's words are shown once and in every mode: as they are
  -- in a sidebar that does not collapse and on a desktop, and on a mobile device between the
  -- sheet's title, its description and its close button.
  sidebar-words : words (sidebar s ctx attrs children) ≡ (
      if is_string (prop_or "collapsible" (lit "offcanvas") attrs) "none"
      then words children
      else if ctx.is_mobile
      then js "Sidebar" ∷ js "Displays the mobile sidebar." ∷ (words children ++ (js "Close" ∷ []))
      else words children)
  unfolding sidebar
  sidebar-words =
      elim (Bool-cases (is_string (prop_or "collapsible" (lit "offcanvas") attrs) "none")) [
        | inl fixed ↦ rw fixed fixed_sidebar-words
        | inr collapsing ↦ elim (Bool-cases ctx.is_mobile) [
          | inl mobile ↦ rw (collapsing, mobile) mobile_sidebar-words
          | inr desktop ↦ rw (collapsing, desktop) desktop_sidebar-words
        ]
      ]

-- A button's click handler is the caller's.
button-click :
    (s : Styling) (attrs : Attributes) (children : Markup)
    → attribute (js "onClick") (attributes_of (button s attrs children))
      ≡ attribute (js "onClick") attrs
unfolding button attribute has text_eq attr
button-click s attrs children =
    rw (attribute-render s (js "onClick") _ _ _ _ attrs children) (or_some-none _)

module _ (s : Styling) (attrs : Attributes) where
  trigger-click :
      attribute (js "onClick") (attributes_of (sidebar_trigger s attrs))
      ≡ some (handler (calls_in (prop "onClick" attrs) ++ (toggle_sidebar ∷ [])))
  unfolding sidebar_trigger attribute text_eq attr has
  trigger-click =
      rw (button-click s, attribute-rest (js "onClick") (js "className" ∷ js "onClick" ∷ []) attrs)

  rail-click :
      (children : Markup)
      → attribute (js "onClick") (attributes_of (sidebar_rail s attrs children))
        ≡ or_some (attribute (js "onClick") attrs) (some (handler (toggle_sidebar ∷ [])))
  unfolding sidebar_rail slot attribute text_eq attr has
  rail-click children = rw (attribute-render s (js "onClick") _ _ _ _ attrs children) refl

  -- Whatever the caller gives, a click on the trigger calls the caller's handler, if there is one,
  -- and then toggles the sidebar; a click on the rail toggles it unless the caller gives a handler,
  -- which is then called instead.
  sidebar_clicks :
      (children : Markup)
      → (attribute (js "onClick") (attributes_of (sidebar_trigger s attrs))
          ≡ some (handler (calls_in (prop "onClick" attrs) ++ (toggle_sidebar ∷ []))))
        × (attribute (js "onClick") (attributes_of (sidebar_rail s attrs children))
            ≡ or_some (attribute (js "onClick") attrs) (some (handler (toggle_sidebar ∷ []))))
  sidebar_clicks children = (trigger-click, rail-click children)
