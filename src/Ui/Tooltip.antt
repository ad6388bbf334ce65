-- ===== src/Ui/Tooltip.antt =====
-- packages/ui/src/components/tooltip.tsx
use kdelta.Prelude.{[], ◌∷◌}
use kdelta.Text.{js}
use kdelta.Ui.{number, Attributes, Markup, empty, ◌<>◌, element, Styling, attr, prop_or, rest}
use kdelta.Ui.Slot.{render, spread, with_caller}

unfoldable pub tooltip_provider : Attributes → Markup → Markup
unfolding prop_or rest
tooltip_provider attrs children =
    element "TooltipPrimitive.Provider"
      (attr "data-slot" "tooltip-provider"
        ∷ (js "delayDuration", prop_or "delayDuration" (number 0) attrs)
        ∷ rest (js "delayDuration" ∷ []) attrs)
      children

unfoldable pub tooltip : Attributes → Markup → Markup
unfolding spread
tooltip = spread "TooltipPrimitive.Root" "tooltip"

unfoldable pub tooltip_trigger : Attributes → Markup → Markup
unfolding spread
tooltip_trigger = spread "TooltipPrimitive.Trigger" "tooltip-trigger"

module _ (s : Styling) where
  unfoldable pub tooltip_content : Attributes → Markup → Markup
  unfolding prop_or render with_caller
  tooltip_content attrs children = element "TooltipPrimitive.Portal" [] (
      render s "TooltipPrimitive.Content"
        (attr "data-slot" "tooltip-content"
          ∷ (js "sideOffset", prop_or "sideOffset" (number 0) attrs)
          ∷ [])
        (with_caller
          ("z-50 w-fit origin-(--radix-tooltip-content-transform-origin) animate-in rounded-md bg-foreground px-3 py-1.5 text-xs text-balance text-background fade-in-0 zoom-in-95 data-[side=bottom]:slide-in-from-top-2 data-[side=left]:slide-in-from-right-2 data-[side=right]:slide-in-from-left-2 data-[side=top]:slide-in-from-bottom-2 data-[state=closed]:animate-out data-[state=closed]:fade-out-0 data-[state=closed]:zoom-out-95"
            ∷ [])
          attrs)
        (js "sideOffset" ∷ []) attrs
        (children
          <> element "TooltipPrimitive.Arrow"
              (attr "className"
                  "z-50 size-2.5 translate-y-[calc(-50%_-_2px)] rotate-45 rounded-[2px] bg-foreground fill-foreground"
                ∷ [])
              empty))
