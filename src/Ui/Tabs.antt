-- ===== src/Ui/Tabs.antt =====
-- packages/ui/src/components/tabs.tsx
use kdelta.Prelude.{[], ◌∷◌}
use kdelta.Text.{js}
use kdelta.Ui.{string, Attributes, Markup, Config, Styling, attr, lit, prop, prop_or}
use kdelta.Ui.Slot.{render, slot, with_caller}

abbrev pub tabs_list_variants : Config
tabs_list_variants = record {
  base =
      "group/tabs-list inline-flex w-fit items-center justify-center rounded-lg p-[3px] text-muted-foreground group-data-[orientation=horizontal]/tabs:h-9 group-data-[orientation=vertical]/tabs:h-fit group-data-[orientation=vertical]/tabs:flex-col data-[variant=line]:rounded-none";
  variants = (("variant", (("default", "bg-muted") ∷ ("line", "gap-1 bg-transparent") ∷ [])) ∷ []);
  default_variants = (("variant", "default") ∷ []);
}

module _ (s : Styling) where
  unfoldable pub tabs : Attributes → Markup → Markup
  unfolding prop_or render with_caller
  tabs attrs children =
      let orientation = prop_or "orientation" (lit "horizontal") attrs in
      render s "TabsPrimitive.Root"
        (attr "data-slot" "tabs"
          ∷ (js "data-orientation", orientation)
          ∷ (js "orientation", orientation)
          ∷ [])
        (with_caller ("group/tabs flex gap-2 data-[orientation=horizontal]:flex-col" ∷ []) attrs)
        (js "orientation" ∷ []) attrs children

  unfoldable pub tabs_list : Attributes → Markup → Markup
  unfolding prop_or render
  tabs_list attrs children =
      let variant = prop_or "variant" (lit "default") attrs in
      render s "TabsPrimitive.List"
        (attr "data-slot" "tabs-list" ∷ (js "data-variant", variant) ∷ [])
        (string (s.cva tabs_list_variants ((js "variant", variant) ∷ []))
          ∷ prop "className" attrs
          ∷ [])
        (js "variant" ∷ []) attrs children

  unfoldable pub tabs_trigger : Attributes → Markup → Markup
  tabs_trigger = slot s "TabsPrimitive.Trigger" "tabs-trigger" [] (
      "relative inline-flex h-[calc(100%-1px)] flex-1 items-center justify-center gap-1.5 rounded-md border border-transparent px-2 py-1 text-sm font-medium whitespace-nowrap text-foreground/60 transition-all group-data-[orientation=vertical]/tabs:w-full group-data-[orientation=vertical]/tabs:justify-start hover:text-foreground focus-visible:border-ring focus-visible:ring-[3px] focus-visible:ring-ring/50 focus-visible:outline-1 focus-visible:outline-ring disabled:pointer-events-none disabled:opacity-50 group-data-[variant=default]/tabs-list:data-[state=active]:shadow-sm group-data-[variant=line]/tabs-list:data-[state=active]:shadow-none dark:text-muted-foreground dark:hover:text-foreground [&_svg]:pointer-events-none [&_svg]:shrink-0 [&_svg:not([class*='size-'])]:size-4"
      ∷ "group-data-[variant=line]/tabs-list:bg-transparent group-data-[variant=line]/tabs-list:data-[state=active]:bg-transparent dark:group-data-[variant=line]/tabs-list:data-[state=active]:border-transparent dark:group-data-[variant=line]/tabs-list:data-[state=active]:bg-transparent"
      ∷ "data-[state=active]:bg-background data-[state=active]:text-foreground dark:data-[state=active]:border-input dark:data-[state=active]:bg-input/30 dark:data-[state=active]:text-foreground"
      ∷ "after:absolute after:bg-foreground after:opacity-0 after:transition-opacity group-data-[orientation=horizontal]/tabs:after:inset-x-0 group-data-[orientation=horizontal]/tabs:after:bottom-[-5px] group-data-[orientation=horizontal]/tabs:after:h-0.5 group-data-[orientation=vertical]/tabs:after:inset-y-0 group-data-[orientation=vertical]/tabs:after:-right-1 group-data-[orientation=vertical]/tabs:after:w-0.5 group-data-[variant=line]/tabs-list:data-[state=active]:after:opacity-100"
      ∷ [])

  unfoldable pub tabs_content : Attributes → Markup → Markup
  tabs_content = slot s "TabsPrimitive.Content" "tabs-content" [] ("flex-1 outline-none" ∷ [])
