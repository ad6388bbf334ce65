-- ===== src/Layout.antt =====
-- apps/app-ui/app/layout.tsx and the component of providers.tsx: the frame around every page. The
-- transport and the client that the providers hand down are objects of third parties and left out
-- of the tree.
pub mod Content
pub mod Toggle
use kdelta.Prelude.{[], ◌∷◌}
use kdelta.Text.{Text, js}
use kdelta.Ui.{Markup, empty, text, ◌<>◌, element, Styling, attr}
use kdelta.Ui.Form.{separator}
use kdelta.Sidebar.Panel.{Context, sidebar_provider}
use kdelta.Sidebar.Slots.{sidebar_inset}
use kdelta.Sidebar.Controls.{sidebar_trigger}
use kdelta.AppSidebar.View.{app_sidebar}

-- `Providers`
unfoldable pub providers : Markup → Markup
providers children = element "TransportProvider" [] (element "QueryClientProvider" [] children)

module _ (s : Styling) (ctx : Context) where
  unfoldable pub root_layout : Text → Markup → Markup
  unfolding providers sidebar_provider sidebar_inset sidebar_trigger separator
  root_layout pathname children = element "html" (attr "lang" "en" ∷ []) (
      element "body"
        (attr "className" "min-h-screen bg-background text-foreground antialiased" ∷ [])
        (providers (
          sidebar_provider s [] (
            app_sidebar s ctx pathname
            <> sidebar_inset s [] (
                element "header"
                  (attr "className"
                      "flex h-14 shrink-0 items-center gap-2 border-b border-border px-4"
                    ∷ [])
                  (sidebar_trigger s []
                    <> separator s
                        (attr "orientation" "vertical" ∷ attr "className" "mr-1 h-4" ∷ []) empty
                    <> element "span" (attr "className" "text-sm text-muted-foreground" ∷ [])
                        (text (js "Kubernetes version deltas")))
                <> element "main" (attr "className" "min-w-0 flex-1 px-8 py-8" ∷ []) children)))))
