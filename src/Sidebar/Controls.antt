-- ===== src/Sidebar/Controls.antt =====
-- sidebar.tsx: the trigger and the rail that turn the sidebar, and the components that stand on
-- another component of the library.
use kdelta.Prelude.{List, [], ◌∷◌, ◌++◌}
use kdelta.Text.{js}
use kdelta.Ui.{
  Value, minus, handler, Call, Attributes, Markup, empty, text, ◌<>◌, element, Styling, cn, attr,
  lit, prop, component_tag, rest,
}
use kdelta.Ui.{toggle_sidebar}
use kdelta.Ui.Slot.{render, slot, with_caller}
use kdelta.Ui.Button.{button}
use kdelta.Ui.Form.{text_input, separator}

-- `onClick?.(event)`
unfoldable pub calls_in : Value → List Call
calls_in (handler cs) = cs
calls_in _ = []

module _ (s : Styling) where
  unfoldable pub sidebar_trigger : Attributes → Markup
  sidebar_trigger attrs =
      button s
        (attr "data-sidebar" "trigger"
          ∷ attr "data-slot" "sidebar-trigger"
          ∷ attr "variant" "ghost"
          ∷ attr "size" "icon"
          ∷ (js "className", cn s (lit "size-7" ∷ prop "className" attrs ∷ []))
          ∷ (js "onClick", handler (calls_in (prop "onClick" attrs) ++ (toggle_sidebar ∷ [])))
          ∷ rest (js "className" ∷ js "onClick" ∷ []) attrs)
        (element "PanelLeftIcon" [] empty
          <> element "span" (attr "className" "sr-only" ∷ []) (text (js "Toggle Sidebar")))

  unfoldable pub sidebar_rail : Attributes → Markup → Markup
  sidebar_rail =
      slot s "button" "sidebar-rail"
        (attr "data-sidebar" "rail"
          ∷ attr "aria-label" "Toggle Sidebar"
          ∷ (js "tabIndex", minus 1)
          ∷ (js "onClick", handler (toggle_sidebar ∷ []))
          ∷ attr "title" "Toggle Sidebar"
          ∷ [])
        ("absolute inset-y-0 z-20 hidden w-4 -translate-x-1/2 transition-all ease-linear group-data-[side=left]:-right-4 group-data-[side=right]:left-0 after:absolute after:inset-y-0 after:left-1/2 after:w-[2px] hover:after:bg-sidebar-border sm:flex"
          ∷ "in-data-[side=left]:cursor-w-resize in-data-[side=right]:cursor-e-resize"
          ∷ "[[data-side=left][data-state=collapsed]_&]:cursor-e-resize [[data-side=right][data-state=collapsed]_&]:cursor-w-resize"
          ∷ "group-data-[collapsible=offcanvas]:translate-x-0 group-data-[collapsible=offcanvas]:after:left-full hover:group-data-[collapsible=offcanvas]:bg-sidebar"
          ∷ "[[data-side=left][data-collapsible=offcanvas]_&]:-right-2"
          ∷ "[[data-side=right][data-collapsible=offcanvas]_&]:-left-2" ∷ [])

  unfoldable pub sidebar_input : Attributes → Markup → Markup
  unfolding text_input prop cn lit rest
  sidebar_input attrs = text_input s (
      attr "data-slot" "sidebar-input"
      ∷ attr "data-sidebar" "input"
      ∷ (
        js "className",
        cn s (lit "h-8 w-full bg-background shadow-none" ∷ prop "className" attrs ∷ []),
      )
      ∷ rest (js "className" ∷ []) attrs)

  unfoldable pub sidebar_separator : Attributes → Markup → Markup
  unfolding separator prop cn lit rest
  sidebar_separator attrs = separator s (
      attr "data-slot" "sidebar-separator"
      ∷ attr "data-sidebar" "separator"
      ∷ (js "className", cn s (lit "mx-2 w-auto bg-sidebar-border" ∷ prop "className" attrs ∷ []))
      ∷ rest (js "className" ∷ []) attrs)

  unfoldable pub sidebar_group_label : Attributes → Markup → Markup
  unfolding component_tag prop render with_caller
  sidebar_group_label attrs =
      render s (component_tag (prop "asChild" attrs) "div")
        (attr "data-slot" "sidebar-group-label" ∷ attr "data-sidebar" "group-label" ∷ [])
        (with_caller
          ("flex h-8 shrink-0 items-center rounded-md px-2 text-xs font-medium text-sidebar-foreground/70 ring-sidebar-ring outline-hidden transition-[margin,opacity] duration-200 ease-linear focus-visible:ring-2 [&>svg]:size-4 [&>svg]:shrink-0"
            ∷ "group-data-[collapsible=icon]:-mt-8 group-data-[collapsible=icon]:opacity-0" ∷ [])
          attrs)
        (js "asChild" ∷ []) attrs

  unfoldable pub sidebar_group_action : Attributes → Markup → Markup
  unfolding component_tag prop render with_caller
  sidebar_group_action attrs =
      render s (component_tag (prop "asChild" attrs) "button")
        (attr "data-slot" "sidebar-group-action" ∷ attr "data-sidebar" "group-action" ∷ [])
        (with_caller
          ("absolute top-3.5 right-3 flex aspect-square w-5 items-center justify-center rounded-md p-0 text-sidebar-foreground ring-sidebar-ring outline-hidden transition-transform hover:bg-sidebar-accent hover:text-sidebar-accent-foreground focus-visible:ring-2 [&>svg]:size-4 [&>svg]:shrink-0"
            ∷ "after:absolute after:-inset-2 md:after:hidden"
            ∷ "group-data-[collapsible=icon]:hidden" ∷ [])
          attrs)
        (js "asChild" ∷ []) attrs
