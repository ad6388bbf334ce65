-- ===== src/AppSidebar/View.antt =====
-- apps/app-ui/app/sidebar.tsx: what `AppSidebar` renders. A key is React's and reaches no component.
use kdelta.Prelude.{true, [], ◌∷◌}
use kdelta.Text.{Text, js}
use kdelta.Ui.{string, boolean, Markup, empty, text, ◌<>◌, element, Styling, attr, each}
use kdelta.Sidebar.Panel.{Context, sidebar}
use kdelta.Sidebar.Slots.{
  sidebar_header, sidebar_content, sidebar_group, sidebar_group_content, sidebar_menu,
  sidebar_menu_item, sidebar_footer,
}
use kdelta.Sidebar.Controls.{sidebar_group_label}
use kdelta.Sidebar.Menu.{TooltipProp, sidebar_menu_button}
use kdelta.AppSidebar.{Item, items, is_active}

module _ (s : Styling) (ctx : Context) where
  unfoldable pub menu_entry : Text → Item → Markup
  unfolding sidebar_menu_item sidebar_menu_button
  menu_entry pathname item = sidebar_menu_item s [] (
      sidebar_menu_button s ctx (TooltipProp.words item.label)
        ((js "asChild", boolean true) ∷ (js "isActive", boolean (is_active item pathname)) ∷ [])
        (element "Link" ((js "href", string item.href) ∷ [])
          (element item.icon [] empty <> element "span" [] (text item.label))))

  unfoldable pub app_sidebar : Text → Markup
  unfolding sidebar sidebar_header sidebar_content sidebar_group sidebar_group_content sidebar_menu
      sidebar_footer sidebar_group_label menu_entry
  app_sidebar pathname = sidebar s ctx (attr "collapsible" "icon" ∷ []) (
      sidebar_header s [] (
        element "Link"
          (attr "href" "/"
            ∷ attr "className" "px-2 py-1 text-2xl font-semibold tracking-tight"
            ∷ [])
          (text (js "k") <> element "span" (attr "className" "text-primary" ∷ []) (text (js "Δ"))))
      <> sidebar_content s [] (
          sidebar_group s [] (
            sidebar_group_label s [] (text (js "Cluster"))
            <> sidebar_group_content s [] (sidebar_menu s [] (each items (menu_entry pathname)))))
      <> sidebar_footer s [] (
          element "p"
            (attr "className"
                "px-2 text-xs text-muted-foreground/70 group-data-[collapsible=icon]:hidden"
              ∷ [])
            (text (js "kdelta demo"))))
