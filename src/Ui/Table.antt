-- ===== src/Ui/Table.antt =====
-- packages/ui/src/components/table.tsx
use kdelta.Prelude.{[], ◌∷◌}
use kdelta.Ui.{Attributes, Markup, element, Styling, attr}
use kdelta.Ui.Slot.{slot}

module _ (s : Styling) where
  -- The table lies in a container of its own; the props are the table's.
  unfoldable pub table : Attributes → Markup → Markup
  unfolding slot
  table attrs children =
      element "div" (attr "data-slot" "table" ∷ attr "className" "table-container" ∷ [])
        (slot s "table" "relative w-full overflow-x-auto" [] ("table" ∷ []) attrs children)

  unfoldable pub table_header : Attributes → Markup → Markup
  table_header = slot s "thead" "table-header" [] ("[&_tr]:border-b" ∷ [])

  unfoldable pub table_body : Attributes → Markup → Markup
  table_body = slot s "tbody" "table-body" [] ("[&_tr:last-child]:border-0" ∷ [])

  unfoldable pub table_footer : Attributes → Markup → Markup
  table_footer =
      slot s "tfoot" "table-footer" []
        ("border-t bg-muted/50 font-medium [&>tr]:last:border-b-0" ∷ [])

  unfoldable pub table_row : Attributes → Markup → Markup
  table_row = slot s "tr" "table-row" [] (
      "border-b transition-colors hover:bg-muted/50 has-aria-expanded:bg-muted/50 data-[state=selected]:bg-muted"
      ∷ [])

  unfoldable pub table_head : Attributes → Markup → Markup
  table_head = slot s "th" "table-head" [] (
      "h-10 px-2 text-left align-middle font-medium whitespace-nowrap text-foreground [&:has([role=checkbox])]:pr-0 [&>[role=checkbox]]:translate-y-[2px]"
      ∷ [])

  unfoldable pub table_cell : Attributes → Markup → Markup
  table_cell = slot s "td" "table-cell" [] (
      "p-2 align-middle whitespace-nowrap [&:has([role=checkbox])]:pr-0 [&>[role=checkbox]]:translate-y-[2px]"
      ∷ [])

  unfoldable pub table_caption : Attributes → Markup → Markup
  table_caption = slot s "caption" "table-caption" [] ("mt-4 text-sm text-muted-foreground" ∷ [])
