-- ===== src/Ui/Sheet.antt =====
-- packages/ui/src/components/sheet.tsx
use kdelta.Prelude.{true, [], ◌∷◌, if◌then◌else◌}
use kdelta.Text.{js}
use kdelta.Ui.{
  boolean, Attributes, Markup, empty, text, ◌<>◌, element, Styling, attr, lit, when, prop, prop_or,
  is_string, is_truthy,
}
use kdelta.Ui.Slot.{render, slot, spread}

unfoldable pub sheet : Attributes → Markup → Markup
unfolding spread
sheet = spread "SheetPrimitive.Root" "sheet"

unfoldable pub sheet_trigger : Attributes → Markup → Markup
unfolding spread
sheet_trigger = spread "SheetPrimitive.Trigger" "sheet-trigger"

unfoldable pub sheet_close : Attributes → Markup → Markup
unfolding spread
sheet_close = spread "SheetPrimitive.Close" "sheet-close"

unfoldable pub sheet_portal : Attributes → Markup → Markup
unfolding spread
sheet_portal = spread "SheetPrimitive.Portal" "sheet-portal"

module _ (s : Styling) where
  unfoldable pub sheet_overlay : Attributes → Markup → Markup
  sheet_overlay = slot s "SheetPrimitive.Overlay" "sheet-overlay" [] (
      "fixed inset-0 z-50 bg-black/50 data-[state=closed]:animate-out data-[state=closed]:fade-out-0 data-[state=open]:animate-in data-[state=open]:fade-in-0"
      ∷ [])

  unfoldable pub sheet_header : Attributes → Markup → Markup
  sheet_header = slot s "div" "sheet-header" [] ("flex flex-col gap-1.5 p-4" ∷ [])

  unfoldable pub sheet_footer : Attributes → Markup → Markup
  sheet_footer = slot s "div" "sheet-footer" [] ("mt-auto flex flex-col gap-2 p-4" ∷ [])

  unfoldable pub sheet_title : Attributes → Markup → Markup
  sheet_title =
      slot s "SheetPrimitive.Title" "sheet-title" [] ("font-semibold text-foreground" ∷ [])

  unfoldable pub sheet_description : Attributes → Markup → Markup
  sheet_description =
      slot s "SheetPrimitive.Description" "sheet-description" []
        ("text-sm text-muted-foreground" ∷ [])

  unfoldable pub sheet_content : Attributes → Markup → Markup
  unfolding prop_or render when is_string is_truthy sheet_portal sheet_overlay
  sheet_content attrs children =
      let side = prop_or "side" (lit "right") attrs in
      sheet_portal [] (
        sheet_overlay [] empty
        <> render s "SheetPrimitive.Content" (attr "data-slot" "sheet-content" ∷ [])
            (lit
                "fixed z-50 flex flex-col gap-4 bg-background shadow-lg transition ease-in-out data-[state=closed]:animate-out data-[state=closed]:duration-300 data-[state=open]:animate-in data-[state=open]:duration-500"
              ∷ when (is_string side "right")
                  "inset-y-0 right-0 h-full w-3/4 border-l data-[state=closed]:slide-out-to-right data-[state=open]:slide-in-from-right sm:max-w-sm"
              ∷ when (is_string side "left")
                  "inset-y-0 left-0 h-full w-3/4 border-r data-[state=closed]:slide-out-to-left data-[state=open]:slide-in-from-left sm:max-w-sm"
              ∷ when (is_string side "top")
                  "inset-x-0 top-0 h-auto border-b data-[state=closed]:slide-out-to-top data-[state=open]:slide-in-from-top"
              ∷ when (is_string side "bottom")
                  "inset-x-0 bottom-0 h-auto border-t data-[state=closed]:slide-out-to-bottom data-[state=open]:slide-in-from-bottom"
              ∷ prop "className" attrs
              ∷ [])
            (js "side" ∷ js "showCloseButton" ∷ []) attrs
            (children
              <> (if is_truthy (prop_or "showCloseButton" (boolean true) attrs)
                  then element "SheetPrimitive.Close"
                      (attr "className"
                          "absolute top-4 right-4 rounded-xs opacity-70 ring-offset-background transition-opacity hover:opacity-100 focus:ring-2 focus:ring-ring focus:ring-offset-2 focus:outline-hidden disabled:pointer-events-none data-[state=open]:bg-secondary"
                        ∷ [])
                      (element "XIcon" (attr "className" "size-4" ∷ []) empty
                        <> element "span" (attr "className" "sr-only" ∷ []) (text (js "Close")))
                  else empty)))
