-- ===== src/Sidebar/Menu.antt =====
-- sidebar.tsx: the entries of a menu.
use kdelta.Prelude.{true, false, [], ◌∷◌, if◌then◌else◌}
use kdelta.Text.{Text, js}
use kdelta.Ui.{
  string, boolean, Attributes, Markup, empty, text, ◌<>◌, Config, Styling, attr, lit, when, prop,
  prop_or, is_string, is_truthy, component_tag,
}
use kdelta.Prelude.{ℕ, not, ◌||◌, ◌+◌, ◌%◌}
use kdelta.Text.{text_eq, truthy}
use kdelta.Ui.{style}
use kdelta.Ui.Slot.{render, with_caller}
use kdelta.Prelude.{◌/◌}
use kdelta.Ui.Tooltip.{tooltip, tooltip_trigger, tooltip_content}
use kdelta.Ui.Form.{skeleton}
use kdelta.Sidebar.Panel.{Context}

abbrev pub sidebar_menu_button_variants : Config
sidebar_menu_button_variants = record {
  base =
      "peer/menu-button flex w-full items-center gap-2 overflow-hidden rounded-md p-2 text-left text-sm ring-sidebar-ring outline-hidden transition-[width,height,padding] group-has-data-[sidebar=menu-action]/menu-item:pr-8 group-data-[collapsible=icon]:size-8! group-data-[collapsible=icon]:p-2! hover:bg-sidebar-accent hover:text-sidebar-accent-foreground focus-visible:ring-2 active:bg-sidebar-accent active:text-sidebar-accent-foreground disabled:pointer-events-none disabled:opacity-50 aria-disabled:pointer-events-none aria-disabled:opacity-50 data-[active=true]:bg-sidebar-accent data-[active=true]:font-medium data-[active=true]:text-sidebar-accent-foreground data-[state=open]:hover:bg-sidebar-accent data-[state=open]:hover:text-sidebar-accent-foreground [&>span:last-child]:truncate [&>svg]:size-4 [&>svg]:shrink-0";
  variants =
      ((
        "variant",
        (("default", "hover:bg-sidebar-accent hover:text-sidebar-accent-foreground")
            ∷ (
              "outline",
              "bg-background shadow-[0_0_0_1px_var(--sidebar-border)] hover:bg-sidebar-accent hover:text-sidebar-accent-foreground hover:shadow-[0_0_0_1px_var(--sidebar-accent)]",
            )
            ∷ []),
      )
        ∷ (
          "size",
          (("default", "h-8 text-sm")
              ∷ ("sm", "h-7 text-xs")
              ∷ ("lg", "h-12 text-sm group-data-[collapsible=icon]:p-0!")
              ∷ []),
        )
        ∷ []);
  default_variants = (("variant", "default") ∷ ("size", "default") ∷ []);
}

-- The prop `tooltip`: left out, a text, or the props of the tooltip's content.
pub data TooltipProp : Type 0 where
  absent : TooltipProp
  words : Text → TooltipProp
  props : Attributes → Markup → TooltipProp

-- `Math.floor(Math.random() * 40) + 50`, of two digits, with the sign behind it; `random` is the
-- number below 40 that was drawn.
unfoldable pub skeleton_width : ℕ → Text
skeleton_width random = ((random + 50) / 10 + b'0') ∷ ((random + 50) % 10 + b'0') ∷ b'%' ∷ []

module _ (s : Styling) where
  unfoldable pub menu_button : Attributes → Markup → Markup
  unfolding component_tag prop_or render
  menu_button attrs =
      let variant = prop_or "variant" (lit "default") attrs in
      let size = prop_or "size" (lit "default") attrs in
      render s (component_tag (prop "asChild" attrs) "button")
        (attr "data-slot" "sidebar-menu-button"
          ∷ attr "data-sidebar" "menu-button"
          ∷ (js "data-size", size)
          ∷ (js "data-active", prop_or "isActive" (boolean false) attrs)
          ∷ [])
        (string
            (s.cva sidebar_menu_button_variants ((js "variant", variant) ∷ (js "size", size) ∷ []))
          ∷ prop "className" attrs
          ∷ [])
        (js "asChild" ∷ js "isActive" ∷ js "variant" ∷ js "size" ∷ []) attrs

  unfoldable pub with_tooltip : Context → Attributes → Markup → Markup → Markup
  unfolding tooltip tooltip_trigger tooltip_content
  with_tooltip ctx content_attrs content button = tooltip [] (
      tooltip_trigger ((js "asChild", boolean true) ∷ []) button
      <> tooltip_content s
          (attr "side" "right"
            ∷ attr "align" "center"
            ∷ (js "hidden", boolean (not (text_eq ctx.state (js "collapsed")) || ctx.is_mobile))
            ∷ content_attrs)
          content)

  unfoldable pub sidebar_menu_button : Context → TooltipProp → Attributes → Markup → Markup
  unfolding menu_button with_tooltip
  sidebar_menu_button ctx absent attrs children = menu_button attrs children
  sidebar_menu_button ctx (words t) attrs children =
      if truthy t
      then with_tooltip ctx [] (text t) (menu_button attrs children)
      else menu_button attrs children
  sidebar_menu_button ctx (props content_attrs content) attrs children =
      with_tooltip ctx content_attrs content (menu_button attrs children)

  unfoldable pub sidebar_menu_action : Attributes → Markup → Markup
  unfolding component_tag prop_or render is_truthy when
  sidebar_menu_action attrs =
      render s (component_tag (prop "asChild" attrs) "button")
        (attr "data-slot" "sidebar-menu-action" ∷ attr "data-sidebar" "menu-action" ∷ [])
        (lit
            "absolute top-1.5 right-1 flex aspect-square w-5 items-center justify-center rounded-md p-0 text-sidebar-foreground ring-sidebar-ring outline-hidden transition-transform peer-hover/menu-button:text-sidebar-accent-foreground hover:bg-sidebar-accent hover:text-sidebar-accent-foreground focus-visible:ring-2 [&>svg]:size-4 [&>svg]:shrink-0"
          ∷ lit "after:absolute after:-inset-2 md:after:hidden"
          ∷ lit "peer-data-[size=sm]/menu-button:top-1"
          ∷ lit "peer-data-[size=default]/menu-button:top-1.5"
          ∷ lit "peer-data-[size=lg]/menu-button:top-2.5"
          ∷ lit "group-data-[collapsible=icon]:hidden"
          ∷ when (is_truthy (prop_or "showOnHover" (boolean false) attrs))
              "group-focus-within/menu-item:opacity-100 group-hover/menu-item:opacity-100 peer-data-[active=true]/menu-button:text-sidebar-accent-foreground data-[state=open]:opacity-100 md:opacity-0"
          ∷ prop "className" attrs
          ∷ [])
        (js "asChild" ∷ js "showOnHover" ∷ []) attrs

  unfoldable pub sidebar_menu_skeleton : ℕ → Attributes → Markup
  unfolding prop_or render with_caller is_truthy skeleton skeleton_width
  sidebar_menu_skeleton random attrs =
      render s "div"
        (attr "data-slot" "sidebar-menu-skeleton" ∷ attr "data-sidebar" "menu-skeleton" ∷ [])
        (with_caller ("flex h-8 items-center gap-2 rounded-md px-2" ∷ []) attrs)
        (js "showIcon" ∷ []) attrs
        ((if is_truthy (prop_or "showIcon" (boolean false) attrs)
            then skeleton s
                (attr "className" "size-4 rounded-md"
                  ∷ attr "data-sidebar" "menu-skeleton-icon"
                  ∷ [])
                empty
            else empty)
          <> skeleton s
              (attr "className" "h-4 max-w-(--skeleton-width) flex-1"
                ∷ attr "data-sidebar" "menu-skeleton-text"
                ∷ (js "style", style (("--skeleton-width", skeleton_width random) ∷ []))
                ∷ [])
              empty)

  unfoldable pub sidebar_menu_sub_button : Attributes → Markup → Markup
  unfolding component_tag prop_or render when is_string
  sidebar_menu_sub_button attrs =
      let size = prop_or "size" (lit "md") attrs in
      render s (component_tag (prop "asChild" attrs) "a")
        (attr "data-slot" "sidebar-menu-sub-button"
          ∷ attr "data-sidebar" "menu-sub-button"
          ∷ (js "data-size", size)
          ∷ (js "data-active", prop_or "isActive" (boolean false) attrs)
          ∷ [])
        (lit
            "flex h-7 min-w-0 -translate-x-px items-center gap-2 overflow-hidden rounded-md px-2 text-sidebar-foreground ring-sidebar-ring outline-hidden hover:bg-sidebar-accent hover:text-sidebar-accent-foreground focus-visible:ring-2 active:bg-sidebar-accent active:text-sidebar-accent-foreground disabled:pointer-events-none disabled:opacity-50 aria-disabled:pointer-events-none aria-disabled:opacity-50 [&>span:last-child]:truncate [&>svg]:size-4 [&>svg]:shrink-0 [&>svg]:text-sidebar-accent-foreground"
          ∷ lit
              "data-[active=true]:bg-sidebar-accent data-[active=true]:text-sidebar-accent-foreground"
          ∷ when (is_string size "sm") "text-xs"
          ∷ when (is_string size "md") "text-sm"
          ∷ lit "group-data-[collapsible=icon]:hidden"
          ∷ prop "className" attrs
          ∷ [])
        (js "asChild" ∷ js "size" ∷ js "isActive" ∷ []) attrs
