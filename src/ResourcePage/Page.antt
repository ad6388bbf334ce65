-- ===== src/ResourcePage/Page.antt =====
-- resource/page.tsx: what `ResourceDetail` returns, guards first, and the page around it.
use kdelta.Prelude.{Bool, true, false, [], ◌∷◌, Option, none, some}
use kdelta.Text.{Text, js}
use kdelta.View.{
  class_name, value, panel_of, on_value_change, Node, empty, text, ◌<>◌, element, show_some,
}
use kdelta.Ref.{ResourceRef, parse_ref}
use kdelta.Query.{RpcError, payload, error, is_pending}
use kdelta.ResourcePage.{PageState, Inputs, Msg, open_tab}
use kdelta.ResourcePage.Panels.{
  error_box, page_header, pickers, buttons, behind_line, changes_panel, impact_panel,
}

unfoldable pub tabs : Inputs → PageState → Node Msg
unfolding js changes_panel impact_panel
tabs i s = element "Tabs" (value s.active_tab ∷ on_value_change open_tab ∷ []) (
    element "TabsList" [] (
      element "TabsTrigger" (value (js "changelog") ∷ []) (text (js "Changelog"))
      <> element "TabsTrigger" (value (js "impact") ∷ []) (text (js "Impact")))
    <> element "TabsContent" (panel_of (js "changelog") ∷ class_name "space-y-3" ∷ [])
        (changes_panel i s)
    <> element "TabsContent" (panel_of (js "impact") ∷ class_name "space-y-3" ∷ [])
        (impact_panel i s))

-- What is rendered once the resource is known.
unfoldable pub loaded_view : (Text → Option Text) → Inputs → PageState → Node Msg
loaded_view protocol_of i s = element "div" (class_name "mx-auto max-w-4xl space-y-6" ∷ []) (
    page_header protocol_of i
    <> element "Card" [] (
        element "CardContent" (class_name "flex flex-wrap items-end gap-3" ∷ [])
          (pickers i s <> buttons i s))
    <> show_some (error i.versions) error_box empty
    <> show_some (payload i.versions) behind_line empty
    <> tabs i s)

-- The early returns: an invalid reference, a pending query, an error; then the loaded page.
unfoldable pub guarded : Option ResourceRef → Bool → Option RpcError → Node Msg → Node Msg
unfolding js error_box
guarded none pending e loaded =
    element "p" (class_name "text-sm text-destructive" ∷ [])
      (text (js "Missing or invalid ?ref= parameter."))
guarded (some ref) true e loaded =
    element "p" (class_name "text-sm text-muted-foreground" ∷ []) (text (js "Loading…"))
guarded (some ref) false (some e) loaded = error_box e
guarded (some ref) false none loaded = loaded

unfoldable pub resource_detail : (Text → Option Text) → Inputs → PageState → Node Msg
unfolding parse_ref guarded loaded_view
resource_detail protocol_of i s =
    guarded (parse_ref i.canonical) (is_pending i.detail) (error i.detail)
      (loaded_view protocol_of i s)
