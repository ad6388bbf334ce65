-- ===== src/Ui/Slots.antt =====
-- The components of packages/ui/src/components that share one shape, together.
use kdelta.Prelude.{
  Bool, true, false, not, ◌&&◌, List, [], ◌∷◌, map, String, ◌≡◌, ◌≢◌, refl, All, Distinct,
  All-append, ◌++◌, arith,
}
use kdelta.Text.{Text, js, text_eq, text_eq_self}
use kdelta.Ui.{Attributes, Markup, Styling, has, attribute, attr}
use kdelta.Ui.Slot.{IsSlot, slot-IsSlot}
use kdelta.Ui.Card.{
  card, card_header, card_title, card_description, card_action, card_content, card_footer,
}
use kdelta.Ui.Table.{
  table_header, table_body, table_footer, table_row, table_head, table_cell, table_caption,
}
use kdelta.Ui.Form.{skeleton}
use kdelta.Ui.Tabs.{tabs_trigger, tabs_content}
use kdelta.Ui.Select.{select_label, select_separator}
use kdelta.Ui.Sheet.{sheet_overlay, sheet_header, sheet_footer, sheet_title, sheet_description}
use kdelta.Sidebar.Slots.{
  sidebar_inset, sidebar_header, sidebar_footer, sidebar_content, sidebar_group,
  sidebar_group_content, sidebar_menu, sidebar_menu_item, sidebar_menu_badge, sidebar_menu_sub,
  sidebar_menu_sub_item,
}
use kdelta.Sidebar.Controls.{sidebar_rail}

pub record Component : Type 0 where
  pub name : String
  pub component : Attributes → Markup → Markup

abbrev card_components : Styling → List Component
card_components s =
    record { name = "card"; component = card s }
    ∷ record { name = "card-header"; component = card_header s }
    ∷ record { name = "card-title"; component = card_title s }
    ∷ record { name = "card-description"; component = card_description s }
    ∷ record { name = "card-action"; component = card_action s }
    ∷ record { name = "card-content"; component = card_content s }
    ∷ record { name = "card-footer"; component = card_footer s }
    ∷ []

abbrev table_components : Styling → List Component
table_components s =
    record { name = "table-header"; component = table_header s }
    ∷ record { name = "table-body"; component = table_body s }
    ∷ record { name = "table-footer"; component = table_footer s }
    ∷ record { name = "table-row"; component = table_row s }
    ∷ record { name = "table-head"; component = table_head s }
    ∷ record { name = "table-cell"; component = table_cell s }
    ∷ record { name = "table-caption"; component = table_caption s }
    ∷ []

abbrev overlay_components : Styling → List Component
overlay_components s =
    record { name = "skeleton"; component = skeleton s }
    ∷ record { name = "tabs-trigger"; component = tabs_trigger s }
    ∷ record { name = "tabs-content"; component = tabs_content s }
    ∷ record { name = "select-label"; component = select_label s }
    ∷ record { name = "select-separator"; component = select_separator s }
    ∷ record { name = "sheet-overlay"; component = sheet_overlay s }
    ∷ record { name = "sheet-header"; component = sheet_header s }
    ∷ record { name = "sheet-footer"; component = sheet_footer s }
    ∷ record { name = "sheet-title"; component = sheet_title s }
    ∷ record { name = "sheet-description"; component = sheet_description s }
    ∷ []

abbrev sidebar_components : Styling → List Component
sidebar_components s =
    record { name = "sidebar-inset"; component = sidebar_inset s }
    ∷ record { name = "sidebar-header"; component = sidebar_header s }
    ∷ record { name = "sidebar-footer"; component = sidebar_footer s }
    ∷ record { name = "sidebar-content"; component = sidebar_content s }
    ∷ record { name = "sidebar-group"; component = sidebar_group s }
    ∷ record { name = "sidebar-group-content"; component = sidebar_group_content s }
    ∷ record { name = "sidebar-menu"; component = sidebar_menu s }
    ∷ record { name = "sidebar-menu-item"; component = sidebar_menu_item s }
    ∷ record { name = "sidebar-menu-badge"; component = sidebar_menu_badge s }
    ∷ record { name = "sidebar-menu-sub"; component = sidebar_menu_sub s }
    ∷ record { name = "sidebar-menu-sub-item"; component = sidebar_menu_sub_item s }
    ∷ record { name = "sidebar-rail"; component = sidebar_rail s }
    ∷ []

abbrev pub components : Styling → List Component
components s =
    card_components s ++ (table_components s ++ (overlay_components s ++ sidebar_components s))

-- A component of that shape under its own name.
abbrev pub IsMarked : Styling → Component → Type 0
IsMarked s c = IsSlot s c.name c.component

abbrev names : Styling → List Text
names s = map (λ (c : Component). js c.name) (components s)

abbrev all_different : List Text → Bool
all_different [] = true
all_different (n ∷ ns) = not (has ns n) && all_different ns

not_has : (ns : List Text) (n : Text) → has ns n ≡ false → All (λ m. n ≢ m) ns
unfolding has
not_has [] n h = tt
not_has (m ∷ ns) n h =
    (λ e. absurd (ground (arith, text_eq_self n, text_eq_self m)), not_has ns n (ground arith))

all_different_sound : (ns : List Text) → all_different ns ≡ true → Distinct ns
all_different_sound [] h = tt
all_different_sound (n ∷ ns) h =
    (not_has ns n (ground arith), all_different_sound ns (ground arith))

card_components-IsSlot : (s : Styling) → All (IsMarked s) (card_components s)
unfolding card card_header card_title card_description card_action card_content card_footer
    attribute attr js text_eq
card_components-IsSlot s = (
  slot-IsSlot s _ _ _ _ refl,
  (
    slot-IsSlot s _ _ _ _ refl,
    (
      slot-IsSlot s _ _ _ _ refl,
      (
        slot-IsSlot s _ _ _ _ refl,
        (
          slot-IsSlot s _ _ _ _ refl,
          (slot-IsSlot s _ _ _ _ refl, (slot-IsSlot s _ _ _ _ refl, tt)),
        ),
      ),
    ),
  ),
)

table_components-IsSlot : (s : Styling) → All (IsMarked s) (table_components s)
unfolding table_header table_body table_footer table_row table_head table_cell table_caption
    attribute attr js text_eq
table_components-IsSlot s = (
  slot-IsSlot s _ _ _ _ refl,
  (
    slot-IsSlot s _ _ _ _ refl,
    (
      slot-IsSlot s _ _ _ _ refl,
      (
        slot-IsSlot s _ _ _ _ refl,
        (
          slot-IsSlot s _ _ _ _ refl,
          (slot-IsSlot s _ _ _ _ refl, (slot-IsSlot s _ _ _ _ refl, tt)),
        ),
      ),
    ),
  ),
)

overlay_components-IsSlot : (s : Styling) → All (IsMarked s) (overlay_components s)
unfolding skeleton tabs_trigger tabs_content select_label select_separator sheet_overlay
    sheet_header sheet_footer sheet_title sheet_description attribute attr js text_eq
overlay_components-IsSlot s = (
  slot-IsSlot s _ _ _ _ refl,
  (
    slot-IsSlot s _ _ _ _ refl,
    (
      slot-IsSlot s _ _ _ _ refl,
      (
        slot-IsSlot s _ _ _ _ refl,
        (
          slot-IsSlot s _ _ _ _ refl,
          (
            slot-IsSlot s _ _ _ _ refl,
            (
              slot-IsSlot s _ _ _ _ refl,
              (
                slot-IsSlot s _ _ _ _ refl,
                (slot-IsSlot s _ _ _ _ refl, (slot-IsSlot s _ _ _ _ refl, tt)),
              ),
            ),
          ),
        ),
      ),
    ),
  ),
)

sidebar_components-IsSlot : (s : Styling) → All (IsMarked s) (sidebar_components s)
unfolding sidebar_inset sidebar_header sidebar_footer sidebar_content sidebar_group
    sidebar_group_content sidebar_menu sidebar_menu_item sidebar_menu_badge sidebar_menu_sub
    sidebar_menu_sub_item sidebar_rail attribute attr js text_eq
sidebar_components-IsSlot s = (
  slot-IsSlot s _ _ _ _ refl,
  (
    slot-IsSlot s _ _ _ _ refl,
    (
      slot-IsSlot s _ _ _ _ refl,
      (
        slot-IsSlot s _ _ _ _ refl,
        (
          slot-IsSlot s _ _ _ _ refl,
          (
            slot-IsSlot s _ _ _ _ refl,
            (
              slot-IsSlot s _ _ _ _ refl,
              (
                slot-IsSlot s _ _ _ _ refl,
                (
                  slot-IsSlot s _ _ _ _ refl,
                  (
                    slot-IsSlot s _ _ _ _ refl,
                    (slot-IsSlot s _ _ _ _ refl, (slot-IsSlot s _ _ _ _ refl, tt)),
                  ),
                ),
              ),
            ),
          ),
        ),
      ),
    ),
  ),
)

-- Each component marks its element with a `data-slot` of its own, which no other component has,
-- unless the caller gives another; the caller's class names are merged behind the component's fixed
-- ones; every other attribute is the caller's where the caller gives it, else the component's own;
-- and the children reach the element.
components-IsSlot :
    (s : Styling)
    → All (IsMarked s) (components s) × Distinct (map (λ (c : Component). js c.name) (components s))
unfolding has js text_eq
components-IsSlot s = (
  All-append (IsMarked s) (card_components s)
      (table_components s ++ (overlay_components s ++ sidebar_components s))
      (card_components-IsSlot s)
      (All-append (IsMarked s) (table_components s) (overlay_components s ++ sidebar_components s)
        (table_components-IsSlot s)
        (All-append (IsMarked s) (overlay_components s) (sidebar_components s)
          (overlay_components-IsSlot s) (sidebar_components-IsSlot s))),
  all_different_sound (names s) refl,
)
