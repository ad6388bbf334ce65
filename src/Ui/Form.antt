-- ===== src/Ui/Form.antt =====
-- packages/ui/src/components/input.tsx, separator.tsx and skeleton.tsx
use kdelta.Prelude.{true, [], ◌∷◌}
use kdelta.Text.{js}
use kdelta.Ui.{boolean, Attributes, Markup, Styling, attr, lit, prop, prop_or}
use kdelta.Ui.Slot.{render, slot, with_caller}

module _ (s : Styling) where
  -- `Input`
  unfoldable pub text_input : Attributes → Markup → Markup
  unfolding prop render with_caller
  text_input attrs children =
      render s "input" ((js "type", prop "type" attrs) ∷ attr "data-slot" "input" ∷ [])
        (with_caller
          ("input"
            ∷ "h-9 w-full min-w-0 rounded-md border border-input bg-transparent px-3 py-1 text-base shadow-xs transition-[color,box-shadow] outline-none selection:bg-primary selection:text-primary-foreground file:inline-flex file:h-7 file:border-0 file:bg-transparent file:text-sm file:font-medium file:text-foreground placeholder:text-muted-foreground disabled:pointer-events-none disabled:cursor-not-allowed disabled:opacity-50 md:text-sm dark:bg-input/30"
            ∷ "focus-visible:border-ring focus-visible:ring-[3px] focus-visible:ring-ring/50" ∷ [])
          attrs)
        (js "type" ∷ []) attrs children

  unfoldable pub separator : Attributes → Markup → Markup
  unfolding prop_or render with_caller
  separator attrs children =
      render s "SeparatorPrimitive.Root"
        (attr "data-slot" "separator"
          ∷ (js "decorative", prop_or "decorative" (boolean true) attrs)
          ∷ (js "orientation", prop_or "orientation" (lit "horizontal") attrs)
          ∷ [])
        (with_caller
          ("shrink-0 bg-border data-[orientation=horizontal]:h-px data-[orientation=horizontal]:w-full data-[orientation=vertical]:h-full data-[orientation=vertical]:w-px"
            ∷ [])
          attrs)
        (js "orientation" ∷ js "decorative" ∷ []) attrs children

  unfoldable pub skeleton : Attributes → Markup → Markup
  skeleton = slot s "div" "skeleton" [] ("animate-pulse rounded-md bg-accent" ∷ [])
