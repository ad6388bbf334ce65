-- ===== src/Sidebar/Panel.antt =====
-- sidebar.tsx: what `SidebarProvider` and `Sidebar` render. A component that reads the context takes
-- it as an argument; outside of the provider the source throws.
use kdelta.Prelude.{Bool, List, [], ◌∷◌, String, if◌then◌else◌}
use kdelta.Text.{Text, js}
use kdelta.Ui.{
  Value, string, boolean, number, handler, Attributes, Markup, empty, text, ◌<>◌, element, Styling,
  cn, attr, lit, prop, prop_or, is_string, rest,
}
use kdelta.Prelude.{◌||◌}
use kdelta.Text.{text_eq}
use kdelta.Ui.{set_open_mobile, style}
use kdelta.Ui.Slot.{render, with_caller}
use kdelta.Ui.Tooltip.{tooltip_provider}
use kdelta.Ui.Sheet.{sheet, sheet_content, sheet_header, sheet_title, sheet_description}
use kdelta.Sidebar.{Props, Cells, shown_state, is_open}

-- The state in the context; its functions are the calls `toggle_sidebar` and `set_open_mobile`.
pub record Context : Type 0 where
  pub state : Text
  pub open_state : Bool
  pub is_mobile : Bool
  pub open_mobile : Bool

unfoldable pub context_value : Props → Bool → Cells → Context
unfolding shown_state is_open
context_value p mobile c = record {
  state = shown_state p c;
  open_state = is_open p c;
  is_mobile = mobile;
  open_mobile = c.open_mobile;
}

abbrev pub sidebar_width : String
sidebar_width = "16rem"

abbrev pub sidebar_width_mobile : String
sidebar_width_mobile = "18rem"

abbrev pub sidebar_width_icon : String
sidebar_width_icon = "3rem"

-- `...style`
abbrev styles_of : Value → List (String × Text)
styles_of (style ss) = ss
styles_of _ = []

-- the props that `Sidebar` takes out beside `className`
abbrev taken : List Text
taken = js "side" ∷ js "variant" ∷ js "collapsible" ∷ []

module _ (s : Styling) where
  unfoldable pub sidebar_provider : Attributes → Markup → Markup
  unfolding tooltip_provider prop render with_caller
  sidebar_provider attrs children = element "SidebarContext.Provider" [] (
      tooltip_provider ((js "delayDuration", number 0) ∷ []) (
        render s "div"
          (attr "data-slot" "sidebar-wrapper"
            ∷ (
              js "style",
              style (
                  ("--sidebar-width", js sidebar_width)
                  ∷ ("--sidebar-width-icon", js sidebar_width_icon)
                  ∷ styles_of (prop "style" attrs)),
            )
            ∷ [])
          (with_caller
            ("group/sidebar-wrapper flex min-h-svh w-full has-data-[variant=inset]:bg-sidebar" ∷ [])
            attrs)
          (js "defaultOpen" ∷ js "open" ∷ js "onOpenChange" ∷ js "style" ∷ []) attrs children))

  -- `collapsible === "none"`
  unfoldable pub fixed_sidebar : Attributes → Markup → Markup
  unfolding render with_caller
  fixed_sidebar attrs children =
      render s "div" (attr "data-slot" "sidebar" ∷ [])
        (with_caller
          ("flex h-full w-(--sidebar-width) flex-col bg-sidebar text-sidebar-foreground" ∷ [])
          attrs)
        taken attrs children

  -- the sheet that stands in on a mobile device; the caller's class names are not used
  unfoldable pub mobile_sidebar : Context → Attributes → Markup → Markup
  unfolding prop_or rest sheet sheet_content sheet_header sheet_title sheet_description
  mobile_sidebar ctx attrs children =
      sheet
        ((js "open", boolean ctx.open_mobile)
          ∷ (js "onOpenChange", handler (set_open_mobile ∷ []))
          ∷ rest (js "className" ∷ taken) attrs)
        (sheet_content s
          (attr "data-sidebar" "sidebar"
            ∷ attr "data-slot" "sidebar"
            ∷ attr "data-mobile" "true"
            ∷ attr "className"
                "w-(--sidebar-width) bg-sidebar p-0 text-sidebar-foreground [&>button]:hidden"
            ∷ (js "style", style (("--sidebar-width", js sidebar_width_mobile) ∷ []))
            ∷ (js "side", prop_or "side" (lit "left") attrs)
            ∷ [])
          (sheet_header s (attr "className" "sr-only" ∷ []) (
              sheet_title s [] (text (js "Sidebar"))
              <> sheet_description s [] (text (js "Displays the mobile sidebar.")))
            <> element "div" (attr "className" "flex h-full w-full flex-col" ∷ []) children))

  unfoldable pub desktop_sidebar : Context → Attributes → Markup → Markup
  unfolding prop_or render cn is_string
  desktop_sidebar ctx attrs children =
      let side = prop_or "side" (lit "left") attrs in
      let variant = prop_or "variant" (lit "sidebar") attrs in
      let padded = is_string variant "floating" || is_string variant "inset" in
      element "div"
        (attr "className" "group peer hidden text-sidebar-foreground md:block"
          ∷ (js "data-state", string ctx.state)
          ∷ (
            js "data-collapsible",
            if text_eq ctx.state (js "collapsed")
                then prop_or "collapsible" (lit "offcanvas") attrs
                else lit "",
          )
          ∷ (js "data-variant", variant)
          ∷ (js "data-side", side)
          ∷ attr "data-slot" "sidebar"
          ∷ [])
        (element "div"
            (attr "data-slot" "sidebar-gap"
              ∷ (
                js "className",
                cn s (
                    lit
                      "relative w-(--sidebar-width) bg-transparent transition-[width] duration-200 ease-linear"
                    ∷ lit "group-data-[collapsible=offcanvas]:w-0"
                    ∷ lit "group-data-[side=right]:rotate-180"
                    ∷ (if padded
                        then lit
                            "group-data-[collapsible=icon]:w-[calc(var(--sidebar-width-icon)+(--spacing(4)))]"
                        else lit "group-data-[collapsible=icon]:w-(--sidebar-width-icon)")
                    ∷ []),
              )
              ∷ [])
            empty
          <> render s "div" (attr "data-slot" "sidebar-container" ∷ [])
              (lit
                  "fixed inset-y-0 z-10 hidden h-svh w-(--sidebar-width) transition-[left,right,width] duration-200 ease-linear md:flex"
                ∷ (if is_string side "left"
                    then lit
                        "left-0 group-data-[collapsible=offcanvas]:left-[calc(var(--sidebar-width)*-1)]"
                    else lit
                        "right-0 group-data-[collapsible=offcanvas]:right-[calc(var(--sidebar-width)*-1)]")
                ∷ (if padded
                    then lit
                        "p-2 group-data-[collapsible=icon]:w-[calc(var(--sidebar-width-icon)+(--spacing(4))+2px)]"
                    else lit
                        "group-data-[collapsible=icon]:w-(--sidebar-width-icon) group-data-[side=left]:border-r group-data-[side=right]:border-l")
                ∷ prop "className" attrs
                ∷ [])
              taken attrs
              (element "div"
                (attr "data-sidebar" "sidebar"
                  ∷ attr "data-slot" "sidebar-inner"
                  ∷ attr "className"
                      "flex h-full w-full flex-col bg-sidebar group-data-[variant=floating]:rounded-lg group-data-[variant=floating]:border group-data-[variant=floating]:border-sidebar-border group-data-[variant=floating]:shadow-sm"
                  ∷ [])
                children))

  unfoldable pub sidebar : Context → Attributes → Markup → Markup
  unfolding prop_or is_string fixed_sidebar mobile_sidebar desktop_sidebar
  sidebar ctx attrs children =
      if is_string (prop_or "collapsible" (lit "offcanvas") attrs) "none"
      then fixed_sidebar attrs children
      else if ctx.is_mobile
      then mobile_sidebar ctx attrs children
      else desktop_sidebar ctx attrs children
