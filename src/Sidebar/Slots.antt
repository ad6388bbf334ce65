-- ===== src/Sidebar/Slots.antt =====
-- packages/ui/src/components/sidebar.tsx: the components that only mark and style an element.
use kdelta.Prelude.{[], ◌∷◌}
use kdelta.Ui.{Attributes, Markup, Styling, attr}
use kdelta.Ui.Slot.{slot}

module _ (s : Styling) where
  unfoldable pub sidebar_inset : Attributes → Markup → Markup
  sidebar_inset = slot s "main" "sidebar-inset" [] (
      "relative flex w-full flex-1 flex-col bg-background"
      ∷ "md:peer-data-[variant=inset]:m-2 md:peer-data-[variant=inset]:ml-0 md:peer-data-[variant=inset]:rounded-xl md:peer-data-[variant=inset]:shadow-sm md:peer-data-[variant=inset]:peer-data-[state=collapsed]:ml-2"
      ∷ [])

  unfoldable pub sidebar_header : Attributes → Markup → Markup
  sidebar_header =
      slot s "div" "sidebar-header" (attr "data-sidebar" "header" ∷ [])
        ("flex flex-col gap-2 p-2" ∷ [])

  unfoldable pub sidebar_footer : Attributes → Markup → Markup
  sidebar_footer =
      slot s "div" "sidebar-footer" (attr "data-sidebar" "footer" ∷ [])
        ("flex flex-col gap-2 p-2" ∷ [])

  unfoldable pub sidebar_content : Attributes → Markup → Markup
  sidebar_content = slot s "div" "sidebar-content" (attr "data-sidebar" "content" ∷ []) (
      "flex min-h-0 flex-1 flex-col gap-2 overflow-auto group-data-[collapsible=icon]:overflow-hidden"
      ∷ [])

  unfoldable pub sidebar_group : Attributes → Markup → Markup
  sidebar_group =
      slot s "div" "sidebar-group" (attr "data-sidebar" "group" ∷ [])
        ("relative flex w-full min-w-0 flex-col p-2" ∷ [])

  unfoldable pub sidebar_group_content : Attributes → Markup → Markup
  sidebar_group_content =
      slot s "div" "sidebar-group-content" (attr "data-sidebar" "group-content" ∷ [])
        ("w-full text-sm" ∷ [])

  unfoldable pub sidebar_menu : Attributes → Markup → Markup
  sidebar_menu =
      slot s "ul" "sidebar-menu" (attr "data-sidebar" "menu" ∷ [])
        ("flex w-full min-w-0 flex-col gap-1" ∷ [])

  unfoldable pub sidebar_menu_item : Attributes → Markup → Markup
  sidebar_menu_item =
      slot s "li" "sidebar-menu-item" (attr "data-sidebar" "menu-item" ∷ [])
        ("group/menu-item relative" ∷ [])

  unfoldable pub sidebar_menu_badge : Attributes → Markup → Markup
  sidebar_menu_badge = slot s "div" "sidebar-menu-badge" (attr "data-sidebar" "menu-badge" ∷ []) (
      "pointer-events-none absolute right-1 flex h-5 min-w-5 items-center justify-center rounded-md px-1 text-xs font-medium text-sidebar-foreground tabular-nums select-none"
      ∷ "peer-hover/menu-button:text-sidebar-accent-foreground peer-data-[active=true]/menu-button:text-sidebar-accent-foreground"
      ∷ "peer-data-[size=sm]/menu-button:top-1" ∷ "peer-data-[size=default]/menu-button:top-1.5"
      ∷ "peer-data-[size=lg]/menu-button:top-2.5" ∷ "group-data-[collapsible=icon]:hidden" ∷ [])

  unfoldable pub sidebar_menu_sub : Attributes → Markup → Markup
  sidebar_menu_sub = slot s "ul" "sidebar-menu-sub" (attr "data-sidebar" "menu-sub" ∷ []) (
      "mx-3.5 flex min-w-0 translate-x-px flex-col gap-1 border-l border-sidebar-border px-2.5 py-0.5"
      ∷ "group-data-[collapsible=icon]:hidden" ∷ [])

  unfoldable pub sidebar_menu_sub_item : Attributes → Markup → Markup
  sidebar_menu_sub_item =
      slot s "li" "sidebar-menu-sub-item" (attr "data-sidebar" "menu-sub-item" ∷ [])
        ("group/menu-sub-item relative" ∷ [])
