-- ===== src/Ui/Card.antt =====
-- packages/ui/src/components/card.tsx
use kdelta.Prelude.{[], ◌∷◌}
use kdelta.Ui.{Attributes, Markup, Styling}
use kdelta.Ui.Slot.{slot}

module _ (s : Styling) where
  unfoldable pub card : Attributes → Markup → Markup
  card =
      slot s "div" "card" []
        ("flex flex-col gap-6 rounded-xl border bg-card py-6 text-card-foreground shadow-sm" ∷ [])

  unfoldable pub card_header : Attributes → Markup → Markup
  card_header = slot s "div" "card-header" [] (
      "@container/card-header grid auto-rows-min grid-rows-[auto_auto] items-start gap-2 px-6 has-data-[slot=card-action]:grid-cols-[1fr_auto] [.border-b]:pb-6"
      ∷ [])

  unfoldable pub card_title : Attributes → Markup → Markup
  card_title = slot s "div" "card-title" [] ("leading-none font-semibold" ∷ [])

  unfoldable pub card_description : Attributes → Markup → Markup
  card_description = slot s "div" "card-description" [] ("text-sm text-muted-foreground" ∷ [])

  unfoldable pub card_action : Attributes → Markup → Markup
  card_action =
      slot s "div" "card-action" []
        ("col-start-2 row-span-2 row-start-1 self-start justify-self-end" ∷ [])

  unfoldable pub card_content : Attributes → Markup → Markup
  card_content = slot s "div" "card-content" [] ("px-6" ∷ [])

  unfoldable pub card_footer : Attributes → Markup → Markup
  card_footer = slot s "div" "card-footer" [] ("flex items-center px-6 [.border-t]:pt-6" ∷ [])
