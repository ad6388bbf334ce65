-- ===== src/Ui/Button.antt =====
-- packages/ui/src/components/button.tsx and badge.tsx
use kdelta.Prelude.{[], ◌∷◌}
use kdelta.Text.{js}
use kdelta.Ui.{string, Attributes, Markup, Config, Styling, attr, lit, prop, prop_or, component_tag}
use kdelta.Ui.Slot.{render}

abbrev pub button_variants : Config
button_variants = record {
  base =
      "inline-flex shrink-0 items-center justify-center gap-2 rounded-md text-sm font-medium whitespace-nowrap transition-all outline-none focus-visible:border-ring focus-visible:ring-[3px] focus-visible:ring-ring/50 disabled:pointer-events-none disabled:opacity-50 aria-invalid:border-destructive aria-invalid:ring-destructive/20 dark:aria-invalid:ring-destructive/40 [&_svg]:pointer-events-none [&_svg]:shrink-0 [&_svg:not([class*='size-'])]:size-4";
  variants =
      ((
        "variant",
        (("default", "bg-primary text-primary-foreground hover:bg-primary/90")
            ∷ (
              "destructive",
              "bg-destructive text-white hover:bg-destructive/90 focus-visible:ring-destructive/20 dark:bg-destructive/60 dark:focus-visible:ring-destructive/40",
            )
            ∷ (
              "outline",
              "border bg-background shadow-xs hover:bg-accent hover:text-accent-foreground dark:border-input dark:bg-input/30 dark:hover:bg-input/50",
            )
            ∷ ("secondary", "bg-secondary text-secondary-foreground hover:bg-secondary/80")
            ∷ ("ghost", "hover:bg-accent hover:text-accent-foreground dark:hover:bg-accent/50")
            ∷ ("link", "text-primary underline-offset-4 hover:underline")
            ∷ []),
      )
        ∷ (
          "size",
          (("default", "h-9 px-4 py-2 has-[>svg]:px-3")
              ∷ (
                "xs",
                "h-6 gap-1 rounded-md px-2 text-xs has-[>svg]:px-1.5 [&_svg:not([class*='size-'])]:size-3",
              )
              ∷ ("sm", "h-8 gap-1.5 rounded-md px-3 has-[>svg]:px-2.5")
              ∷ ("lg", "h-10 rounded-md px-6 has-[>svg]:px-4")
              ∷ ("icon", "size-9")
              ∷ ("icon-xs", "size-6 rounded-md [&_svg:not([class*='size-'])]:size-3")
              ∷ ("icon-sm", "size-8")
              ∷ ("icon-lg", "size-10")
              ∷ []),
        )
        ∷ []);
  default_variants = (("variant", "default") ∷ ("size", "default") ∷ []);
}

abbrev pub badge_variants : Config
badge_variants = record {
  base =
      "inline-flex w-fit shrink-0 items-center justify-center gap-1 overflow-hidden rounded-full border border-transparent px-2 py-0.5 text-xs font-medium whitespace-nowrap transition-[color,box-shadow] focus-visible:border-ring focus-visible:ring-[3px] focus-visible:ring-ring/50 aria-invalid:border-destructive aria-invalid:ring-destructive/20 dark:aria-invalid:ring-destructive/40 [&>svg]:pointer-events-none [&>svg]:size-3";
  variants =
      ((
        "variant",
        (("default", "bg-primary text-primary-foreground [a&]:hover:bg-primary/90")
            ∷ ("secondary", "bg-secondary text-secondary-foreground [a&]:hover:bg-secondary/90")
            ∷ (
              "destructive",
              "bg-destructive text-white focus-visible:ring-destructive/20 dark:bg-destructive/60 dark:focus-visible:ring-destructive/40 [a&]:hover:bg-destructive/90",
            )
            ∷ (
              "outline",
              "border-border text-foreground [a&]:hover:bg-accent [a&]:hover:text-accent-foreground",
            )
            ∷ ("ghost", "[a&]:hover:bg-accent [a&]:hover:text-accent-foreground")
            ∷ ("link", "text-primary underline-offset-4 [a&]:hover:underline")
            ∷ []),
      )
        ∷ []);
  default_variants = (("variant", "default") ∷ []);
}

module _ (s : Styling) where
  unfoldable pub button : Attributes → Markup → Markup
  unfolding prop_or component_tag render
  button attrs children =
      let variant = prop_or "variant" (lit "default") attrs in
      let size = prop_or "size" (lit "default") attrs in
      render s (component_tag (prop "asChild" attrs) "button")
        (attr "data-slot" "button" ∷ (js "data-variant", variant) ∷ (js "data-size", size) ∷ [])
        (string (
            s.cva button_variants (
              (js "variant", variant)
              ∷ (js "size", size)
              ∷ (js "className", prop "className" attrs)
              ∷ []))
          ∷ [])
        (js "variant" ∷ js "size" ∷ js "asChild" ∷ []) attrs children

  unfoldable pub badge : Attributes → Markup → Markup
  unfolding prop_or component_tag render
  badge attrs children =
      let variant = prop_or "variant" (lit "default") attrs in
      render s (component_tag (prop "asChild" attrs) "span")
        (attr "data-slot" "badge" ∷ (js "data-variant", variant) ∷ [])
        (string (s.cva badge_variants ((js "variant", variant) ∷ [])) ∷ prop "className" attrs ∷ [])
        (js "variant" ∷ js "asChild" ∷ []) attrs children
