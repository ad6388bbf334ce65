-- ===== src/Ui/Select.antt =====
-- packages/ui/src/components/select.tsx
use kdelta.Prelude.{true, [], ◌∷◌}
use kdelta.Text.{js}
use kdelta.Ui.{
  boolean, Attributes, Markup, empty, ◌<>◌, element, Styling, cn, attr, lit, when, prop, prop_or,
  is_string,
}
use kdelta.Ui.Slot.{render, slot, spread, with_caller}

module _ (s : Styling) where
  unfoldable pub select : Attributes → Markup → Markup
  unfolding spread
  select = spread "SelectPrimitive.Root" "select"

  unfoldable pub select_group : Attributes → Markup → Markup
  unfolding spread
  select_group = spread "SelectPrimitive.Group" "select-group"

  unfoldable pub select_value : Attributes → Markup → Markup
  unfolding spread
  select_value = spread "SelectPrimitive.Value" "select-value"

  unfoldable pub select_trigger : Attributes → Markup → Markup
  unfolding prop_or render with_caller
  select_trigger attrs children =
      render s "SelectPrimitive.Trigger"
        (attr "data-slot" "select-trigger"
          ∷ (js "data-size", prop_or "size" (lit "default") attrs)
          ∷ [])
        (with_caller
          ("flex w-fit items-center justify-between gap-2 rounded-md border border-input bg-transparent px-3 py-2 text-sm whitespace-nowrap shadow-xs transition-[color,box-shadow] outline-none focus-visible:border-ring focus-visible:ring-[3px] focus-visible:ring-ring/50 disabled:cursor-not-allowed disabled:opacity-50 aria-invalid:border-destructive aria-invalid:ring-destructive/20 data-[placeholder]:text-muted-foreground data-[size=default]:h-9 data-[size=sm]:h-8 *:data-[slot=select-value]:line-clamp-1 *:data-[slot=select-value]:flex *:data-[slot=select-value]:items-center *:data-[slot=select-value]:gap-2 dark:bg-input/30 dark:hover:bg-input/50 dark:aria-invalid:ring-destructive/40 [&_svg]:pointer-events-none [&_svg]:shrink-0 [&_svg:not([class*='size-'])]:size-4 [&_svg:not([class*='text-'])]:text-muted-foreground"
            ∷ [])
          attrs)
        (js "size" ∷ []) attrs
        (children
          <> element "SelectPrimitive.Icon" ((js "asChild", boolean true) ∷ [])
              (element "ChevronDownIcon" (attr "className" "size-4 opacity-50" ∷ []) empty))

  unfoldable pub select_scroll_up_button : Attributes → Markup
  unfolding slot
  select_scroll_up_button attrs =
      slot s "SelectPrimitive.ScrollUpButton" "select-scroll-up-button" []
        ("flex cursor-default items-center justify-center py-1" ∷ []) attrs
        (element "ChevronUpIcon" (attr "className" "size-4" ∷ []) empty)

  unfoldable pub select_scroll_down_button : Attributes → Markup
  unfolding slot
  select_scroll_down_button attrs =
      slot s "SelectPrimitive.ScrollDownButton" "select-scroll-down-button" []
        ("flex cursor-default items-center justify-center py-1" ∷ []) attrs
        (element "ChevronDownIcon" (attr "className" "size-4" ∷ []) empty)

  unfoldable pub select_content : Attributes → Markup → Markup
  unfolding prop_or render cn when is_string select_scroll_up_button select_scroll_down_button
  select_content attrs children =
      let position = prop_or "position" (lit "item-aligned") attrs in
      let popper = is_string position "popper" in
      element "SelectPrimitive.Portal" [] (
        render s "SelectPrimitive.Content"
          (attr "data-slot" "select-content"
            ∷ (js "position", position)
            ∷ (js "align", prop_or "align" (lit "center") attrs)
            ∷ [])
          (lit
              "relative z-50 max-h-(--radix-select-content-available-height) min-w-[8rem] origin-(--radix-select-content-transform-origin) overflow-x-hidden overflow-y-auto rounded-md border bg-popover text-popover-foreground shadow-md data-[side=bottom]:slide-in-from-top-2 data-[side=left]:slide-in-from-right-2 data-[side=right]:slide-in-from-left-2 data-[side=top]:slide-in-from-bottom-2 data-[state=closed]:animate-out data-[state=closed]:fade-out-0 data-[state=closed]:zoom-out-95 data-[state=open]:animate-in data-[state=open]:fade-in-0 data-[state=open]:zoom-in-95"
            ∷ when popper
                "data-[side=bottom]:translate-y-1 data-[side=left]:-translate-x-1 data-[side=right]:translate-x-1 data-[side=top]:-translate-y-1"
            ∷ prop "className" attrs
            ∷ [])
          (js "position" ∷ js "align" ∷ []) attrs
          (select_scroll_up_button []
            <> element "SelectPrimitive.Viewport"
                ((
                  js "className",
                  cn s (
                      lit "p-1"
                      ∷ when popper
                          "h-[var(--radix-select-trigger-height)] w-full min-w-[var(--radix-select-trigger-width)] scroll-my-1"
                      ∷ []),
                )
                  ∷ [])
                children
            <> select_scroll_down_button []))

  unfoldable pub select_item : Attributes → Markup → Markup
  unfolding slot
  select_item attrs children =
      slot s "SelectPrimitive.Item" "select-item" []
        ("relative flex w-full cursor-default items-center gap-2 rounded-sm py-1.5 pr-8 pl-2 text-sm outline-hidden select-none focus:bg-accent focus:text-accent-foreground data-[disabled]:pointer-events-none data-[disabled]:opacity-50 [&_svg]:pointer-events-none [&_svg]:shrink-0 [&_svg:not([class*='size-'])]:size-4 [&_svg:not([class*='text-'])]:text-muted-foreground *:[span]:last:flex *:[span]:last:items-center *:[span]:last:gap-2"
          ∷ [])
        attrs
        (element "span"
            (attr "data-slot" "select-item-indicator"
              ∷ attr "className" "absolute right-2 flex size-3.5 items-center justify-center"
              ∷ [])
            (element "SelectPrimitive.ItemIndicator" []
              (element "CheckIcon" (attr "className" "size-4" ∷ []) empty))
          <> element "SelectPrimitive.ItemText" [] children)

  unfoldable pub select_label : Attributes → Markup → Markup
  select_label =
      slot s "SelectPrimitive.Label" "select-label" []
        ("px-2 py-1.5 text-xs text-muted-foreground" ∷ [])

  unfoldable pub select_separator : Attributes → Markup → Markup
  select_separator =
      slot s "SelectPrimitive.Separator" "select-separator" []
        ("pointer-events-none -mx-1 my-1 h-px bg-border" ∷ [])
